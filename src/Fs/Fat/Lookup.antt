-- ===== src/Fs/Fat/Lookup.antt =====
-- How fat32_namei finds the entry of a long name.
use sdx.Prelude.{
  ℕ, zero, suc, refl, true, false, some, List, [], arith, ltb, length, drop, length-append, Each,
  ◌+◌, ◌<◌, ◌≡◌, ◌∷◌, ◌++◌,
}
use sdx.Errno.{ok}
use sdx.Util.Strings.{Memory}
use sdx.Disk.{Driver}
use sdx.Fs.Inode.{Inode}
use sdx.Fs.Fat.{Volume}
use sdx.Fs.Fat.Names.{Entry, entry_is_last, entry_is_unused, name_max}
use sdx.Fs.Fat.Directory.{found, walk_from, cluster_entries, entry_from, fat32_entry_from}
use sdx.Fs.Fat.Files.{entry_inode, fat32_namei}
use sdx.Fs.Fat.LongNames.{LongName, entry_name-LongName}

-- A deleted entry.
abbrev pub Deleted : Entry → Type 0
Deleted e = (entry_is_last e ≡ false) × (entry_is_unused e ≡ true)

-- The first entry of the ones from which a name is read.
abbrev pub Used : List Entry → Type 0
Used [] = ⊥
Used (e ∷ es) = (entry_is_last e ≡ false) × (entry_is_unused e ≡ false)

walk_from-LongName :
    (fuel k : ℕ) (text : List ℕ) (es : List Entry) (buffer : Memory)
    → Used es
    → LongName k es text
    → length text < 255
    → walk_from (suc fuel) text es buffer ≡ some (found (drop (suc k) es))
unfolding walk_from
walk_from-LongName fuel k text [] buffer used long short = elim used [ ]
walk_from-LongName fuel k text (e ∷ es) buffer (last, unused) long short =
    let (n, eq, done) =
      entry_name-LongName (length text + 1) k (e ∷ es) text buffer long short (omega arith) in
    rw (last, unused, eq) rw (done.success) rw (done.spelled, done.here) refl

walk_from-Deleted :
    (fuel k : ℕ) (text : List ℕ) (gone es : List Entry) (buffer : Memory)
    → Each Deleted gone
    → Used es
    → LongName k es text
    → length text < 255
    → length gone < fuel
    → walk_from fuel text (gone ++ es) buffer ≡ some (found (drop (suc k) es))
unfolding walk_from
walk_from-Deleted zero k text gone es buffer deleted used long short enough =
    absurd (omega (arith, enough))
walk_from-Deleted (suc fuel) k text [] es buffer deleted used long short enough =
    walk_from-LongName fuel k text es buffer used long short
walk_from-Deleted (suc fuel) k text (e ∷ gone) es buffer ((last, unused), deleted) used long short
      enough =
    let later =
      walk_from-Deleted fuel k text gone es buffer deleted used long short
        (omega (arith, enough)) in
    rw (last, unused) later

fat32_entry_from-LongName :
    (read : Driver) (v : Volume) (fuel k cluster : ℕ) (text : List ℕ) (gone es rest : List Entry)
    (e : Entry) (buffer : Memory)
    → cluster_entries read v cluster ≡ some (gone ++ es)
    → Each Deleted gone
    → Used es
    → LongName k es text
    → drop (suc k) es ≡ e ∷ rest
    → length text < 255
    → fat32_entry_from read v (suc fuel) cluster text buffer ≡ some (ok e)
unfolding fat32_entry_from entry_from
fat32_entry_from-LongName read v fuel k cluster text gone es rest e buffer entries deleted used long
      behind short =
    let fits : ltb (name_max + 1) (length text + 1) ≡ false = ground (arith, short) in
    let walk =
      walk_from-Deleted (suc (length (gone ++ es))) k text gone es buffer deleted used long short
        (omega (arith, length-append gone es)) in
    rw (fits, entry_from, entries, walk, behind) refl

-- In a directory whose first cluster begins with deleted entries and a long name of at most 254 bytes,
-- fat32_namei gives the inode of the entry behind the name's parts.
pub fat32_namei-LongName :
    (read : Driver) (v : Volume) (fuel fs k : ℕ) (dir : Inode) (text : List ℕ)
    (gone es rest : List Entry) (e : Entry) (buffer : Memory)
    → cluster_entries read v dir.addr ≡ some (gone ++ es)
    → Each Deleted gone
    → Used es
    → LongName k es text
    → drop (suc k) es ≡ e ∷ rest
    → length text < 255
    → fat32_namei read v (suc fuel) fs (some dir) text buffer ≡ some (ok (entry_inode fs dir e))
unfolding fat32_namei
fat32_namei-LongName read v fuel fs k dir text gone es rest e buffer entries deleted used long
      behind short =
    let found_entry =
      fat32_entry_from-LongName read v fuel k dir.addr text gone es rest e buffer entries deleted
        used long behind short in
    rw (fat32_namei, found_entry) refl
