-- ===== src/Util/ErrorTable.antt =====
-- The error table of kernel/util/string.c, and strerror over it.
pub mod Lookup
use Prim.Native.String.{String}
use sdx.Prelude.{ℕ, Bool, List, [], ◌+◌, ◌∷◌, ◌==◌, if◌then◌else◌}
use sdx.Prelude.Int.{ℤ, pos, negsuc}
use sdx.Errno.{Errno, code}

-- `struct error_info`: the field `value` is the number of the macro.
pub record ErrorInfo : Type 0 where
  pub value : ℕ
  pub name : String
  pub msg : String

abbrev pub entry : Errno → String → String → ErrorInfo
unfolding code
entry e name msg = record { value = code e; name = name; msg = msg }

-- The rows before the closing `ENTRY(0, NULL, NULL)`, which ends the list.
unfoldable pub error_table : List ErrorInfo
error_table =
    entry Errno.eperm "EPERM" "Not owner"
    ∷ entry Errno.enoent "ENOENT" "No such file or directory"
    ∷ entry Errno.esrch "ESRCH" "No such process"
    ∷ entry Errno.eintr "EINTR" "Interrupted system call"
    ∷ entry Errno.eio "EIO" "I/O error"
    ∷ entry Errno.enxio "ENXIO" "No such device or address"
    ∷ entry Errno.e2big "E2BIG" "Arg list too long"
    ∷ entry Errno.enoexec "ENOEXEC" "Exec format error"
    ∷ entry Errno.ebadf "EBADF" "Bad file number"
    ∷ entry Errno.echild "ECHILD" "No child processes"
    ∷ entry Errno.ewouldblock "EWOULDBLOCK" "Operation would block"
    ∷ entry Errno.eagain "EAGAIN" "No more processes"
    ∷ entry Errno.enomem "ENOMEM" "Not enough space"
    ∷ entry Errno.eacces "EACCES" "Permission denied"
    ∷ entry Errno.efault "EFAULT" "Bad address"
    ∷ entry Errno.enotblk "ENOTBLK" "Block device required"
    ∷ entry Errno.ebusy "EBUSY" "Device busy"
    ∷ entry Errno.eexist "EEXIST" "File exists"
    ∷ entry Errno.exdev "EXDEV" "Cross-device link"
    ∷ entry Errno.enodev "ENODEV" "No such device"
    ∷ entry Errno.enotdir "ENOTDIR" "Not a directory"
    ∷ entry Errno.eisdir "EISDIR" "Is a directory"
    ∷ entry Errno.einval "EINVAL" "Invalid argument"
    ∷ entry Errno.enfile "ENFILE" "File table overflow"
    ∷ entry Errno.emfile "EMFILE" "Too many open files"
    ∷ entry Errno.enotty "ENOTTY" "Not a typewriter"
    ∷ entry Errno.etxtbsy "ETXTBSY" "Text file busy"
    ∷ entry Errno.efbig "EFBIG" "File too large"
    ∷ entry Errno.enospc "ENOSPC" "No space left on device"
    ∷ entry Errno.espipe "ESPIPE" "Illegal seek"
    ∷ entry Errno.erofs "EROFS" "Read-only file system"
    ∷ entry Errno.emlink "EMLINK" "Too many links"
    ∷ entry Errno.epipe "EPIPE" "Broken pipe"
    ∷ entry Errno.edom "EDOM" "Math argument out of domain of func"
    ∷ entry Errno.erange "ERANGE" "Result too large"
    ∷ entry Errno.enomsg "ENOMSG" "No message of desired type"
    ∷ entry Errno.eidrm "EIDRM" "Identifier removed"
    ∷ entry Errno.echrng "ECHRNG" "Channel number out of range"
    ∷ entry Errno.el2nsync "EL2NSYNC" "Level 2 not synchronized"
    ∷ entry Errno.el3hlt "EL3HLT" "Level 3 halted"
    ∷ entry Errno.el3rst "EL3RST" "Level 3 reset"
    ∷ entry Errno.elnrng "ELNRNG" "Link number out of range"
    ∷ entry Errno.eunatch "EUNATCH" "Protocol driver not attached"
    ∷ entry Errno.enocsi "ENOCSI" "No CSI structure available"
    ∷ entry Errno.el2hlt "EL2HLT" "Level 2 halted"
    ∷ entry Errno.edeadlk "EDEADLK" "Deadlock condition"
    ∷ entry Errno.enolck "ENOLCK" "No record locks available"
    ∷ entry Errno.ebade "EBADE" "Invalid exchange"
    ∷ entry Errno.ebadr "EBADR" "Invalid request descriptor"
    ∷ entry Errno.exfull "EXFULL" "Exchange full"
    ∷ entry Errno.enoano "ENOANO" "No anode"
    ∷ entry Errno.ebadrqc "EBADRQC" "Invalid request code"
    ∷ entry Errno.ebadslt "EBADSLT" "Invalid slot"
    ∷ entry Errno.edeadlock "EDEADLOCK" "File locking deadlock error"
    ∷ entry Errno.ebfont "EBFONT" "Bad font file format"
    ∷ entry Errno.enostr "ENOSTR" "Device not a stream"
    ∷ entry Errno.enodata "ENODATA" "No data available"
    ∷ entry Errno.etime "ETIME" "Timer expired"
    ∷ entry Errno.enosr "ENOSR" "Out of streams resources"
    ∷ entry Errno.enonet "ENONET" "Machine is not on the network"
    ∷ entry Errno.enopkg "ENOPKG" "Package not installed"
    ∷ entry Errno.eremote "EREMOTE" "Object is remote"
    ∷ entry Errno.enolink "ENOLINK" "Link has been severed"
    ∷ entry Errno.eadv "EADV" "Advertise error"
    ∷ entry Errno.esrmnt "ESRMNT" "Srmount error"
    ∷ entry Errno.ecomm "ECOMM" "Communication error on send"
    ∷ entry Errno.eproto "EPROTO" "Protocol error"
    ∷ entry Errno.emultihop "EMULTIHOP" "Multihop attempted"
    ∷ entry Errno.edotdot "EDOTDOT" "RFS specific error"
    ∷ entry Errno.ebadmsg "EBADMSG" "Not a data message"
    ∷ entry Errno.enametoolong "ENAMETOOLONG" "File name too long"
    ∷ entry Errno.eoverflow "EOVERFLOW" "Value too large for defined data type"
    ∷ entry Errno.enotuniq "ENOTUNIQ" "Name not unique on network"
    ∷ entry Errno.ebadfd "EBADFD" "File descriptor in bad state"
    ∷ entry Errno.eremchg "EREMCHG" "Remote address changed"
    ∷ entry Errno.elibacc "ELIBACC" "Cannot access a needed shared library"
    ∷ entry Errno.elibbad "ELIBBAD" "Accessing a corrupted shared library"
    ∷ entry Errno.elibscn "ELIBSCN" ".lib section in a.out corrupted"
    ∷ entry Errno.elibmax "ELIBMAX" "Attempting to link in too many shared libraries"
    ∷ entry Errno.elibexec "ELIBEXEC" "Cannot exec a shared library directly"
    ∷ entry Errno.eilseq "EILSEQ" "Illegal byte sequence"
    ∷ entry Errno.enosys "ENOSYS" "Function not implemented"
    ∷ entry Errno.eloop "ELOOP" "Too many symbolic links encountered"
    ∷ entry Errno.erestart "ERESTART" "Interrupted system call should be restarted"
    ∷ entry Errno.estrpipe "ESTRPIPE" "Streams pipe error"
    ∷ entry Errno.enotempty "ENOTEMPTY" "Directory not empty"
    ∷ entry Errno.eusers "EUSERS" "Too many users"
    ∷ entry Errno.enotsock "ENOTSOCK" "Socket operation on non-socket"
    ∷ entry Errno.edestaddrreq "EDESTADDRREQ" "Destination address required"
    ∷ entry Errno.emsgsize "EMSGSIZE" "Message too long"
    ∷ entry Errno.eprototype "EPROTOTYPE" "Protocol wrong type for socket"
    ∷ entry Errno.enoprotoopt "ENOPROTOOPT" "Protocol not available"
    ∷ entry Errno.eprotonosupport "EPROTONOSUPPORT" "Protocol not supported"
    ∷ entry Errno.esocktnosupport "ESOCKTNOSUPPORT" "Socket type not supported"
    ∷ entry Errno.eopnotsupp "EOPNOTSUPP" "Operation not supported on transport endpoint"
    ∷ entry Errno.epfnosupport "EPFNOSUPPORT" "Protocol family not supported"
    ∷ entry Errno.eafnosupport "EAFNOSUPPORT" "Address family not supported by protocol"
    ∷ entry Errno.eaddrinuse "EADDRINUSE" "Address already in use"
    ∷ entry Errno.eaddrnotavail "EADDRNOTAVAIL" "Cannot assign requested address"
    ∷ entry Errno.enetdown "ENETDOWN" "Network is down"
    ∷ entry Errno.enetunreach "ENETUNREACH" "Network is unreachable"
    ∷ entry Errno.enetreset "ENETRESET" "Network dropped connection because of reset"
    ∷ entry Errno.econnaborted "ECONNABORTED" "Software caused connection abort"
    ∷ entry Errno.econnreset "ECONNRESET" "Connection reset by peer"
    ∷ entry Errno.enobufs "ENOBUFS" "No buffer space available"
    ∷ entry Errno.eisconn "EISCONN" "Transport endpoint is already connected"
    ∷ entry Errno.enotconn "ENOTCONN" "Transport endpoint is not connected"
    ∷ entry Errno.eshutdown "ESHUTDOWN" "Cannot send after transport endpoint shutdown"
    ∷ entry Errno.etoomanyrefs "ETOOMANYREFS" "Too many references: cannot splice"
    ∷ entry Errno.etimedout "ETIMEDOUT" "Connection timed out"
    ∷ entry Errno.econnrefused "ECONNREFUSED" "Connection refused"
    ∷ entry Errno.ehostdown "EHOSTDOWN" "Host is down"
    ∷ entry Errno.ehostunreach "EHOSTUNREACH" "No route to host"
    ∷ entry Errno.ealready "EALREADY" "Operation already in progress"
    ∷ entry Errno.einprogress "EINPROGRESS" "Operation now in progress"
    ∷ entry Errno.estale "ESTALE" "Stale NFS file handle"
    ∷ entry Errno.euclean "EUCLEAN" "Structure needs cleaning"
    ∷ entry Errno.enotnam "ENOTNAM" "Not a XENIX named type file"
    ∷ entry Errno.enavail "ENAVAIL" "No XENIX semaphores available"
    ∷ entry Errno.eisnam "EISNAM" "Is a named type file"
    ∷ entry Errno.eremoteio "EREMOTEIO" "Remote I/O error"
    ∷ []

-- `err == cur->value || err == -cur->value`: the sign is not looked at.
matches : ℤ → ErrorInfo → Bool
matches (pos n) row = n == row.value
matches (negsuc n) row = n + 1 == row.value

find_row : ℤ → List ErrorInfo → String
find_row err [] = "Unknown error code"
find_row err (row ∷ rows) = if matches err row then row.msg else find_row err rows

unfoldable pub strerror : ℤ → String
unfolding matches find_row
strerror err = find_row err error_table
