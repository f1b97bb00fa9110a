-- ===== src/Sched/Files.antt =====
-- The open files of a task: kernel/sched/file.c, and the system calls open, close, read and write of
-- kernel/syscall over it. `none` is an access outside of the array `files`.
pub mod Next
pub mod Calls
use sdx.Prelude.{
  ℕ, zero, suc, Bool, false, Option, none, some, List, ltb, leb, get_elem?, get_or, set, ◌+◌, ◌-◌,
  ◌%◌, ◌==◌, if◌then◌else◌,
}
use sdx.Prelude.Int.{ℤ, pos, negsuc, pos_part, sub_ℕ, ltb_ℤ}
use sdx.Errno.{Errno, Result, ok, err, code}
use sdx.Util.Math.{u64_mod}

-- CONFIG_TASK_FILES_MAX of config/default.json.
abbrev pub files_max : ℕ
files_max = 32

-- `task_file_t`; a node of the file system is an address.
pub record File : Type 0 where
  pub node : ℕ
  pub flags : ℕ
  pub offset : ℕ

-- The fields `fd_last` and `files` of `task_t`.
pub record Files : Type 0 where
  pub fd_last : ℤ
  pub slots : List (Option File)

abbrev pub slot : Files → ℕ → Option File
slot t fd = get_or t.slots fd none

-- The virtual file system, as the system calls use it. `open_node` leaves a node pointer behind also
-- where it fails; the contents that are read and written are part of `State`.
pub record Vfs : Type 1 where
  pub State : Type 0
  pub open_node : (path : ℕ) → State → Result (Unit {0}) × Option ℕ × State
  pub close_node : Option ℕ → State → Result (Unit {0}) × State
  pub read_node : (node offset size : ℕ) → State → ℤ × State
  pub write_node : (node offset size : ℕ) → State → ℤ × State
  pub is_directory : ℕ → State → Bool

-- The first descriptor from `fd` on with no file, among the next `count`; the one behind them if all
-- have one. `none` is a read behind the array.
unfoldable pub free_from : List (Option File) → (count fd : ℕ) → Option ℕ
free_from slots zero fd = some fd
free_from slots (suc count) fd =
    let rest = free_from slots count (fd + 1) in
    elim (get_elem? slots fd) [ none ↦ none | some none ↦ some fd | some (some _) ↦ rest ]

-- `if (task->fd_last >= CONFIG_TASK_FILES_MAX) task->fd_last = 0;`
unfoldable pub reset_last : Files → Files
reset_last t = if ltb_ℤ t.fd_last (pos files_max) then t else record t { fd_last = pos 0 }

unfoldable pub next_from : Files → ℤ → Option (Result ℕ × Files)
unfolding free_from
next_from t (negsuc _) = none
next_from t (pos n) = elim (free_from t.slots (files_max - n) n) [
  | none ↦ none
  | some fd ↦ some ((if leb files_max fd then err Errno.emfile else ok fd), t)
]

unfoldable pub fd_next : Files → Option (Result ℕ × Files)
unfolding next_from
fd_next t = next_from (reset_last t) (reset_last t).fd_last

-- The outer option is the access, the inner one the pointer. The test lets `files_max` itself pass.
unfoldable pub file_from : Files → ℤ → Option (Option File)
file_from t (negsuc _) = some none
file_from t (pos fd) =
    if ltb files_max fd then some none else if fd == files_max then none else some (slot t fd)

-- `fd == task_current->fd_last`
abbrev is_last : ℤ → ℕ → Bool
is_last (pos n) fd = n == fd
is_last (negsuc n) fd = false

-- The pointer that vfs_open stored.
abbrev pub get_node : Option ℕ → ℕ
get_node none = 0
get_node (some ptr) = ptr

-- What a read or a write of `ret` bytes makes of the offset.
abbrev advance : (step : ℕ) → ℤ → File → File
advance step (pos n) file =
    if n == 0 then file else record file { offset = (file.offset + step) % u64_mod }
advance step (negsuc n) file = file

module _ (vfs : Vfs) where
  open vfs use {State, open_node, close_node, read_node, write_node, is_directory}

  -- The steps of sys_open from the choice of the descriptor on. `allocated` says whether heap_alloc
  -- finds memory for the file object.
  unfoldable pub open_at :
      (ptr : Option ℕ) (flags : ℕ) (allocated : Bool)
      → Result ℕ × Files
      → State
      → Result ℕ × Files × State
  open_at ptr flags allocated (err e, t) s = (err e, t, (close_node ptr s).1)
  open_at ptr flags allocated (ok fd, t) s =
      let t' = if ltb_ℤ t.fd_last (pos fd) then record t { fd_last = pos fd } else t in
      let file : File = record { node = get_node ptr; flags = flags; offset = 0 } in
      if allocated
      then (ok fd, record t' { slots = set t'.slots fd (some file) }, s)
      else (err Errno.enomem, t', (close_node ptr s).1)

  unfoldable pub sys_open :
      (path flags : ℕ) (allocated : Bool) → Files → State → Option (Result ℕ × Files × State)
  sys_open path flags allocated t s =
      let (r, ptr, s') = open_node path s in
      elim r [
        | err e ↦ some (err e, t, (close_node ptr s').1)
        | ok _ ↦ elim (fd_next t) [
          | none ↦ none
          | some found ↦ some (open_at ptr flags allocated found s')
        ]
      ]

  -- `fd_last--` where the descriptor is the last one.
  unfoldable pub sys_close : ℤ → Files → State → Option (Result (Unit {0}) × Files × State)
  sys_close (negsuc n) t s = some (err Errno.ebadf, t, s)
  sys_close (pos fd) t s = elim (file_from t (pos fd)) [
    | none ↦ none
    | some none ↦ some (err Errno.ebadf, t, s)
    | some (some file) ↦
        let (r, s') = close_node (some file.node) s in
        elim r [
          | err e ↦ some (err e, t, s')
          | ok _ ↦
              let last = if is_last t.fd_last fd then sub_ℕ fd 1 else t.fd_last in
              some (ok tt, record { fd_last = last; slots = set t.slots fd none }, s')
        ]
  ]

  -- A directory moves on by one entry, another node by what was read.
  unfoldable pub sys_read : (fd : ℤ) (size : ℕ) → Files → State → Option (ℤ × Files × State)
  sys_read (negsuc n) size t s = some (negsuc (code Errno.ebadf - 1), t, s)
  sys_read (pos fd) size t s = elim (file_from t (pos fd)) [
    | none ↦ none
    | some none ↦ some (negsuc (code Errno.ebadf - 1), t, s)
    | some (some file) ↦
        let (ret, s') = read_node file.node file.offset size s in
        let step = if is_directory file.node s' then 1 else pos_part ret in
        some (ret, record t { slots = set t.slots fd (some (advance step ret file)) }, s')
  ]

  unfoldable pub sys_write : (fd : ℤ) (size : ℕ) → Files → State → Option (ℤ × Files × State)
  sys_write (negsuc n) size t s = some (negsuc (code Errno.ebadf - 1), t, s)
  sys_write (pos fd) size t s = elim (file_from t (pos fd)) [
    | none ↦ none
    | some none ↦ some (negsuc (code Errno.ebadf - 1), t, s)
    | some (some file) ↦
        let (ret, s') = write_node file.node file.offset size s in
        some (ret, record t { slots = set t.slots fd (some (advance (pos_part ret) ret file)) }, s')
  ]
