-- ===== src/Fs/Inode.antt =====
-- kernel/inc/fs/fs.h: what a file system tells about an entry.
use sdx.Prelude.{ℕ, ◌+◌, ◌%◌, ◌^◌}

-- `fs_entry_type_t`
pub data EntryType : Type 0 where
  file_entry link_entry dir_entry : EntryType

-- `fs_inode_t`
pub record Inode : Type 0 where
  pub type : EntryType
  pub size : ℕ
  pub addr : ℕ
  pub serial : ℕ
  pub ctime : ℕ
  pub atime : ℕ
  pub mtime : ℕ
  pub mode : ℕ

-- An inode of which bzero cleared every field.
abbrev pub no_inode : Inode
no_inode = record {
  type = EntryType.file_entry;
  size = 0;
  addr = 0;
  serial = 0;
  ctime = 0;
  atime = 0;
  mtime = 0;
  mode = 0;
}

-- `MODE_USRR | ... | MODE_OTHE`: 0777
abbrev pub full_mode : ℕ
full_mode = 511

-- `fs_inode_serial`
unfoldable pub inode_serial : (fs : ℕ) → Inode → ℕ
inode_serial fs i = (fs + i.addr + i.size) % 2 ^ 64
