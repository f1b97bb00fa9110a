-- ===== src/Errno.antt =====
-- inc/errno.h: the error numbers, and how a function that returns an int32_t reports them.
use sdx.Prelude.{ℕ}

-- One constructor for each macro.
pub data Errno : Type 0 where
  eperm enoent esrch eintr eio enxio e2big enoexec ebadf echild eagain enomem eacces : Errno
  efault enotblk ebusy eexist exdev enodev enotdir eisdir einval enfile emfile : Errno
  enotty etxtbsy efbig enospc espipe erofs emlink epipe edom erange edeadlk : Errno
  enametoolong enolck enosys enotempty eloop ewouldblock enomsg eidrm echrng : Errno
  el2nsync el3hlt el3rst elnrng eunatch enocsi el2hlt ebade ebadr exfull enoano : Errno
  ebadrqc ebadslt edeadlock ebfont enostr enodata etime enosr enonet enopkg eremote : Errno
  enolink eadv esrmnt ecomm eproto emultihop edotdot ebadmsg eoverflow enotuniq : Errno
  ebadfd eremchg elibacc elibbad elibscn elibmax elibexec eilseq erestart estrpipe : Errno
  eusers enotsock edestaddrreq emsgsize eprototype enoprotoopt eprotonosupport : Errno
  esocktnosupport eopnotsupp epfnosupport eafnosupport eaddrinuse eaddrnotavail : Errno
  enetdown enetunreach enetreset econnaborted econnreset enobufs eisconn enotconn : Errno
  eshutdown etoomanyrefs etimedout econnrefused ehostdown ehostunreach ealready : Errno
  einprogress estale euclean enotnam enavail eisnam eremoteio edquot enomedium : Errno
  emediumtype ecanceled enokey ekeyexpired ekeyrevoked ekeyrejected eownerdead : Errno
  enotrecoverable erfkill ehwpoison enotsup : Errno

-- The number of a macro; EWOULDBLOCK, EDEADLOCK and ENOTSUP repeat numbers of others.
unfoldable pub code : Errno → ℕ
code eperm = 1
code enoent = 2
code esrch = 3
code eintr = 4
code eio = 5
code enxio = 6
code e2big = 7
code enoexec = 8
code ebadf = 9
code echild = 10
code eagain = 11
code enomem = 12
code eacces = 13
code efault = 14
code enotblk = 15
code ebusy = 16
code eexist = 17
code exdev = 18
code enodev = 19
code enotdir = 20
code eisdir = 21
code einval = 22
code enfile = 23
code emfile = 24
code enotty = 25
code etxtbsy = 26
code efbig = 27
code enospc = 28
code espipe = 29
code erofs = 30
code emlink = 31
code epipe = 32
code edom = 33
code erange = 34
code edeadlk = 35
code enametoolong = 36
code enolck = 37
code enosys = 38
code enotempty = 39
code eloop = 40
code ewouldblock = 11
code enomsg = 42
code eidrm = 43
code echrng = 44
code el2nsync = 45
code el3hlt = 46
code el3rst = 47
code elnrng = 48
code eunatch = 49
code enocsi = 50
code el2hlt = 51
code ebade = 52
code ebadr = 53
code exfull = 54
code enoano = 55
code ebadrqc = 56
code ebadslt = 57
code edeadlock = 35
code ebfont = 59
code enostr = 60
code enodata = 61
code etime = 62
code enosr = 63
code enonet = 64
code enopkg = 65
code eremote = 66
code enolink = 67
code eadv = 68
code esrmnt = 69
code ecomm = 70
code eproto = 71
code emultihop = 72
code edotdot = 73
code ebadmsg = 74
code eoverflow = 75
code enotuniq = 76
code ebadfd = 77
code eremchg = 78
code elibacc = 79
code elibbad = 80
code elibscn = 81
code elibmax = 82
code elibexec = 83
code eilseq = 84
code erestart = 85
code estrpipe = 86
code eusers = 87
code enotsock = 88
code edestaddrreq = 89
code emsgsize = 90
code eprototype = 91
code enoprotoopt = 92
code eprotonosupport = 93
code esocktnosupport = 94
code eopnotsupp = 95
code epfnosupport = 96
code eafnosupport = 97
code eaddrinuse = 98
code eaddrnotavail = 99
code enetdown = 100
code enetunreach = 101
code enetreset = 102
code econnaborted = 103
code econnreset = 104
code enobufs = 105
code eisconn = 106
code enotconn = 107
code eshutdown = 108
code etoomanyrefs = 109
code etimedout = 110
code econnrefused = 111
code ehostdown = 112
code ehostunreach = 113
code ealready = 114
code einprogress = 115
code estale = 116
code euclean = 117
code enotnam = 118
code enavail = 119
code eisnam = 120
code eremoteio = 121
code edquot = 122
code enomedium = 123
code emediumtype = 124
code ecanceled = 125
code enokey = 126
code ekeyexpired = 127
code ekeyrevoked = 128
code ekeyrejected = 129
code eownerdead = 130
code enotrecoverable = 131
code erfkill = 132
code ehwpoison = 133
code enotsup = 95

-- The result of a call that returns 0, a value, or the negative of an error number.
pub data Result {ℓ} (A : Type ℓ) : Type ℓ where
  ok : A → Result A
  err : Errno → Result A

module _ {ℓ} {A : Type ℓ} where
  abbrev pub IsOk : Result A → Type 0
  IsOk (ok a) = Unit
  IsOk (err e) = ⊥
