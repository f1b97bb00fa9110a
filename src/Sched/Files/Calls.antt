-- ===== src/Sched/Files/Calls.antt =====
-- The system calls open and close over a task's files.
use mathlib.Core.Option.{some-injective}
use mathlib.Core.Path.{subst}
use sdx.Prelude.{
  ℕ, zero, suc, refl, sym, ap, Bool, true, Option, none, some, List, [], arith, length, get_or, set,
  length-set, get_or-set, ◌+◌, ◌%◌, ◌<◌, ◌≡◌, ◌≢◌, ◌∙◌, ◌∷◌, ◌==◌, if◌then◌else◌,
}
use sdx.Prelude.Int.{ℤ, pos, negsuc, pos_part, sub_ℕ}
use sdx.Errno.{Errno, Result, ok, err}
use sdx.Sched.Files.{
  files_max, File, Files, Vfs, get_node, is_last, reset_last, advance, slot, fd_next, file_from,
  open_at, sys_open, sys_close, sys_read,
}
use sdx.Util.Math.{u64_mod}
use sdx.Sched.Files.Next.{IsValid, start_of, Chosen, fd_next-Chosen}

set_back {ℓ} :
    {A : Type ℓ} (xs : List A) (i : ℕ) (v d : A)
    → i < length xs
    → set (set xs i v) i (get_or xs i d) ≡ xs
set_back [] i v d h = refl
set_back (x ∷ xs) zero v d h = refl
set_back (x ∷ xs) (suc i) v d h = ap (λ ys. x ∷ ys) (set_back xs i v d (omega arith))

fd_next_negative : (t : Files) (n : ℕ) → t.fd_last ≡ negsuc n → fd_next t ≡ none
unfolding fd_next reset_last
fd_next_negative t n e = ground (arith, e)

abbrev moved : ℕ → ℤ → File → File
moved step ret file = record file {
  offset = (if pos_part ret == 0 then file.offset else (file.offset + step) % u64_mod);
}

advance-eq : (step : ℕ) (ret : ℤ) (file : File) → advance step ret file ≡ moved step ret file
advance-eq step (pos n) file = ground arith
advance-eq step (negsuc n) file = ground arith

module _ (vfs : Vfs) where
  open vfs use {State, open_node, close_node, read_node, is_directory}

  abbrev new_file : Option ℕ → ℕ → File
  new_file ptr flags = record { node = get_node ptr; flags = flags; offset = 0 }

  -- What a call of open on an existing path does: a new file with offset 0 in a slot that was free,
  -- which becomes the last descriptor; or -EMFILE with every slot as it was.
  abbrev pub Opened : Files → Option ℕ → ℕ → State → Result ℕ × Files × State → Type 0
  Opened t ptr flags s (ok fd, t', s') =
      (fd < files_max)
      × (slot t fd ≡ none)
      × (t'.slots ≡ set t.slots fd (some (new_file ptr flags)))
      × IsValid t' fd
  Opened t ptr flags s (err e, t', s') =
      (e ≡ Errno.emfile) × (t'.slots ≡ t.slots) × (s' ≡ (close_node ptr s).1)

  open_at-Opened :
      (t : Files) (last : ℕ) (ptr : Option ℕ) (flags : ℕ) (s : State) (r : Result ℕ)
      → IsValid t last
      → Chosen t last r
      → Opened t ptr flags s
          (open_at vfs ptr flags true (r, record t { fd_last = pos (start_of last) }) s)
  unfolding open_at
  open_at-Opened t last ptr flags s (ok fd) v (small, first) = (
    small,
    first.free_there small,
    ground arith,
    record {
      full = ground (arith, length-set t.slots fd (some (new_file ptr flags)));
      last_is = ground (arith, first.above);
    },
  )
  open_at-Opened t last ptr flags s (err e) v (e', used) = (e', refl, refl)

  -- From a valid table and where the heap has memory for the file object, opening a path that the file
  -- system opens ends without an access outside of the array: it gives a free slot a new file with
  -- offset 0 and makes it the last descriptor, or it fails with -EMFILE, gives the node back and leaves
  -- every slot as it was.
  pub sys_open-Opened :
      (path flags : ℕ) (t : Files) (last : ℕ) (s : State)
      → IsValid t last
      → (open_node path s).0 ≡ ok tt
      → (out : Result ℕ × Files × State) × (sys_open vfs path flags true t s ≡ some out)
        × Opened t (open_node path s).1 flags (open_node path s).2 out
  unfolding sys_open
  sys_open-Opened path flags t last s v opened =
      let (r, found, chosen) = fd_next-Chosen t last v in
      (
        open_at vfs (open_node path s).1 flags true (r, record t { fd_last = pos (start_of last) })
            (open_node path s).2,
        ground (arith, opened, found),
        open_at-Opened t last (open_node path s).1 flags (open_node path s).2 r v chosen,
      )

  -- The table after a successful close.
  abbrev pub closed_table : Files → ℕ → Files
  closed_table t fd = record {
    fd_last = (if is_last t.fd_last fd then sub_ℕ fd 1 else t.fd_last);
    slots = set t.slots fd none;
  }

  sys_close-eq :
      (t : Files) (fd : ℕ) (file : File) (s : State)
      → fd < files_max
      → slot t fd ≡ some file
      → (close_node (some file.node) s).0 ≡ ok tt
      → sys_close vfs (pos fd) t s
        ≡ some (ok tt, closed_table t fd, (close_node (some file.node) s).1)
  unfolding sys_close file_from
  sys_close-eq t fd file s small there closed = ground (arith, there, closed)

  -- Closing the descriptor that a call of open gave out, where the file system closes the node, gives
  -- the table its old slots back.
  pub sys_close-sys_open :
      (path flags last fd : ℕ) (t t' : Files) (s s' : State)
      → IsValid t last
      → (open_node path s).0 ≡ ok tt
      → sys_open vfs path flags true t s ≡ some (ok fd, t', s')
      → (close_node (some (get_node (open_node path s).1)) s').0 ≡ ok tt
      → (t'' : Files) × (s'' : State) × (sys_close vfs (pos fd) t' s' ≡ some (ok tt, t'', s''))
        × (t''.slots ≡ t.slots)
  sys_close-sys_open path flags last fd t t' s s' v opened e closed =
      let (out, e', is) = sys_open-Opened path flags t last s v opened in
      let ptr = (open_node path s).1 in
      let (small, empty, slots', valid) =
        subst (Opened t ptr flags (open_node path s).2) (some-injective _ _ (sym e' ∙ e)) is in
      let file = new_file ptr flags in
      let there : slot t' fd ≡ some file =
        rw slots' (ground (arith, get_or-set t.slots fd fd (some file) none, v.full)) in
      (
        closed_table t' fd,
        (close_node (some (get_node ptr)) s').1,
        sys_close-eq t' fd file s' small there closed,
        rw (slots', ← empty) (set_back t.slots fd (some file) none (omega (arith, v.full))),
      )

  -- Where the last descriptor is 0, closing it makes the last descriptor negative. The next open of a
  -- path that the file system opens then reads the array in front of its first slot.
  pub sys_open-after_close_zero :
      (path flags : ℕ) (allocated : Bool) (t : Files) (file : File) (s : State)
      → t.fd_last ≡ pos 0
      → slot t 0 ≡ some file
      → (close_node (some file.node) s).0 ≡ ok tt
      → ((s' : State) → (open_node path s').0 ≡ ok tt)
      → (t' : Files) × (s' : State) × (sys_close vfs (pos 0) t s ≡ some (ok tt, t', s'))
        × (t'.fd_last ≡ negsuc 0)
        × (sys_open vfs path flags allocated t' s' ≡ none)
  unfolding sys_open
  sys_open-after_close_zero path flags allocated t file s last there closed opens =
      let s' = (close_node (some file.node) s).1 in
      (
        closed_table t 0,
        s',
        sys_close-eq t 0 file s (omega arith) there closed,
        rw last refl,
        ground (arith, opens s', fd_next_negative (closed_table t 0) 0 (rw last refl)),
      )

  -- What a successful read moves the offset by: one entry in a directory, the bytes read elsewhere. A
  -- read that gives nothing or fails leaves it, and no read changes another descriptor.
  pub sys_read-offset :
      (fd size : ℕ) (t : Files) (file : File) (s : State)
      → fd < files_max
      → length t.slots ≡ files_max
      → slot t fd ≡ some file
      → let (ret, s') = read_node file.node file.offset size s in
        let step = if is_directory file.node s' then 1 else pos_part ret in
        (t' : Files) × (sys_read vfs (pos fd) size t s ≡ some (ret, t', s'))
        × (slot t' fd
            ≡ some (record file {
              offset = (if pos_part ret == 0 then file.offset else (file.offset + step) % u64_mod);
            }))
        × ((i : ℕ) → i ≢ fd → slot t' i ≡ slot t i)
        × (t'.fd_last ≡ t.fd_last)
  unfolding sys_read file_from
  sys_read-offset fd size t file s small full there =
      let (ret, s') = read_node file.node file.offset size s in
      let step = if is_directory file.node s' then 1 else pos_part ret in
      let file' = advance step ret file in
      (
        record t { slots = set t.slots fd (some file') },
        ground (arith, there),
        rw (advance-eq step ret file)
            (ground (arith, get_or-set t.slots fd fd (some (moved step ret file)) none)),
        λ i ne. ground (arith, get_or-set t.slots fd i (some file') none),
        refl,
      )
