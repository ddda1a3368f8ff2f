-- ===== src/Super/Layout.antt =====
-- fs/fs.c: where the parts of a file system lie on the disk.
use rxd_os.Prelude.{ℕ, ◌+◌, ◌*◌, ◌/◌, ◌≤◌, ◌<◌, ◌≡◌}
use rxd_os.Blk.{Drive, blk_dev_hd}
use rxd_os.Buffer.Disk.{DiskLaws, InDisk}
use rxd_os.Super.{SuperBlock}

module _ {D : Type 0} {drive : Drive D} (laws : DiskLaws drive) where
  -- The super block, the map of inodes, the map of blocks, the table of inodes and the data follow each other, and what
  -- is before the data is on the disk.
  pub record Layout (sb : SuperBlock) : Type 0 where
    pub device : sb.s_dev ≡ blk_dev_hd
    pub behind_super : 1 < sb.s_imap_start
    pub imap : sb.s_imap_start + sb.s_imap_count ≤ sb.s_zmap_start
    pub zmap : sb.s_zmap_start + sb.s_zmap_count ≤ sb.s_itable_start
    pub itable : sb.s_itable_start + sb.s_itable_count ≤ sb.s_data_start
    pub inside : (b : ℕ) → b < sb.s_data_start → InDisk laws b

-- An inode number with a bit in the map and a place in the table.
pub record HasPlace (sb : SuperBlock) (inum : ℕ) : Type 0 where
  pub positive : 0 < inum
  pub in_map : inum < sb.s_imap_count * 4096
  pub in_table : inum / 14 < sb.s_itable_count
