-- ===== src/Mount.antt =====
-- fs/fs.c: `fs_init`, which makes a file system on a disk that has none and reads its super block and its
-- root. The lists of inodes and of directory entries, the root's entry in them and the caches of objects
-- are not part of it.
pub mod Made
pub mod Load
pub mod Init
mod Tests
use rxd_os.Prelude.{ℕ, zero, suc, ◌+◌, Outcome, ok, ◌>>=◌, ◌==◌, load, ltb, if◌then◌else◌}
use rxd_os.Blk.{Drive}
use rxd_os.Buffer.{Cache}
use rxd_os.Image.{read_part}
use rxd_os.Super.{SuperBlock, super_magic, read_super}
use rxd_os.Inode.{Inode, read_inode, mkfs}

module _ {D : Type 0} (drive : Drive D) where
  -- The blocks that `dump_inode` reads to print 32 bytes of each, at most three.
  unfoldable pub dump_zones : (dev rounds j : ℕ) → Inode → Cache D → Outcome (Cache D)
  dump_zones dev zero j inode s = ok s
  dump_zones dev (suc rounds) j inode s = do
    blk ← load inode.i_zone j
    if blk == 0
        then ok s
        else (do (bytes, s) ← read_part drive dev blk 0 32 s; dump_zones dev rounds (j + 1) inode s)

  -- `fs_init` up to the caches, with the fields that it sets in `root_inode`.
  unfoldable pub fs_init : Inode → Cache D → Outcome (SuperBlock × Inode × Cache D)
  fs_init root s = do
    (super, s) ← read_super drive 3 s
    (root, s) ← if super.s_magic == super_magic then ok (root, s) else mkfs drive root s
    (sb, s) ← read_super drive 3 s
    (root, s) ← read_inode drive root 1 sb s
    let root = record root { i_refcnt = 0 }
    let root = record root { i_refcnt = root.i_refcnt + 1 }
    s ← dump_zones sb.s_dev 3 0 root s
    ok (sb, root, s)
