-- ===== src/Fs/Types.antt =====
-- The types of file systems: kernel/fs/fs.c. What a driver's `new` does with a partition is a parameter.
use sdx.Prelude.{
  ℕ, zero, suc, refl, Bool, true, not, none, some, List, [], arith, leb, get_elem?, ◌-◌, ◌%◌, ◌^◌,
  ◌≤◌, ◌≡◌, ◌&&◌, ◌∷◌, ◌==◌, if◌then◌else◌,
}
use sdx.Errno.{Errno, Result, ok, err}
use sdx.Fs.Inode.{EntryType}
use sdx.Fs.Vfs.{Systems, same_string}

-- `struct fs_type_data`
pub record FsType : Type 0 where
  pub type : ℕ
  pub name : List ℕ
  pub supported : Bool

-- "FAT32" and "DEVFS"
abbrev pub fat32_name : List ℕ
fat32_name = 0x46 ∷ 0x41 ∷ 0x54 ∷ 0x33 ∷ 0x32 ∷ []

abbrev pub devfs_name : List ℕ
devfs_name = 0x44 ∷ 0x45 ∷ 0x56 ∷ 0x46 ∷ 0x53 ∷ []

-- "unknown"
abbrev pub unknown_name : List ℕ
unknown_name = 0x75 ∷ 0x6e ∷ 0x6b ∷ 0x6e ∷ 0x6f ∷ 0x77 ∷ 0x6e ∷ []

-- `fs_type_data`; `config` is whether CONFIG_FS_FAT32 is set.
unfoldable pub fs_type_data : (config : Bool) → List FsType
fs_type_data config =
    record { type = 1; name = fat32_name; supported = config }
    ∷ record { type = 2; name = devfs_name; supported = true }
    ∷ []

-- `__fs_is_valid_type`, from FS_TYPE_FAT32 to FS_TYPE_DEVFS
unfoldable pub is_valid_type : ℕ → Bool
is_valid_type type = leb type 2 && leb 1 type

-- `__fs_type_name`
unfoldable pub type_name : (config : Bool) (type : ℕ) → List ℕ
type_name config type =
    if is_valid_type type
    then elim (get_elem? (fs_type_data config) (type - 1)) [ none ↦ [] | some row ↦ row.name ]
    else unknown_name

-- The loop of fs_type over the table; the number behind it is 0.
unfoldable pub type_from : List FsType → (name : List ℕ) → ℕ
type_from [] name = 0
type_from (row ∷ rows) name =
    let later = type_from rows name in if same_string row.name name then row.type else later

unfoldable pub fs_type : (config : Bool) (name : List ℕ) → ℕ
fs_type config name = type_from (fs_type_data config) name

-- A file system, of which the driver makes the data.
pub record Fs (Data : Type 0) : Type 0 where
  pub type : ℕ
  pub contents : Data

module _ {Data : Type 0} (config : Bool) (make : (type : ℕ) → Result Data) where
  -- `__fs_new`
  unfoldable pub create : (type : ℕ) → Result (Fs Data)
  create type =
      if not (is_valid_type type)
      then err Errno.einval
      else elim (get_elem? (fs_type_data config) (type - 1)) [
        | none ↦ err Errno.einval
        | some row ↦ if not row.supported then err Errno.enodev else elim (make type) [
          | err e ↦ err e
          | ok d ↦ ok (record { type = type; contents = d })
        ]
      ]

  -- `fs_new`: the type 0 stands for detection, which tries FAT32 only; `__fs_new` takes a uint8_t.
  unfoldable pub fs_new : (type : ℕ) → Result (Fs Data)
  fs_new type =
      if not (type == 0)
      then create (type % 2 ^ 8)
      else if not config
      then err Errno.efault
      else elim (create 1) [ err e ↦ err Errno.efault | ok f ↦ ok f ]

-- "init", FS_INIT_NAME
abbrev pub init_name : List ℕ
init_name = 0x69 ∷ 0x6e ∷ 0x69 ∷ 0x74 ∷ []

-- `fs_is_rootfs`
unfoldable pub fs_is_rootfs : Systems → (fs : ℕ) → Result (Unit {0})
fs_is_rootfs systems fs = if fs == 0 then err Errno.einval else elim (systems.namei fs none []) [
  | err e ↦ err e
  | ok root ↦ elim (systems.namei fs (some root) init_name) [
    | err e ↦ err e
    | ok inode ↦ elim (inode.type) [
      | EntryType.file_entry ↦ if inode.size == 0 then err Errno.einval else ok tt
      | _ ↦ err Errno.einval
    ]
  ]
]

-- The name of each type leads back to the type, whether or not it is supported.
fs_type-type_name :
    (config : Bool) (type : ℕ) → 1 ≤ type → type ≤ 2 → fs_type config (type_name config type) ≡ type
unfolding fs_type type_name type_from fs_type_data is_valid_type same_string
fs_type-type_name config zero ge le = absurd (omega (arith, ge))
fs_type-type_name config (suc zero) ge le = refl
fs_type-type_name config (suc (suc zero)) ge le = refl
fs_type-type_name config (suc (suc (suc n))) ge le = absurd (omega (arith, le))
