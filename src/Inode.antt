-- ===== src/Inode.antt =====
-- fs/fs.c and include/fs.h: inodes, on the disk and in memory. The addresses inside a `struct inode`, of
-- its super block and in its two lists, are the five words `i_links`. They are addresses of the kernel,
-- which the functions here only set, and are taken as given; they go to the disk with the rest, and are not
-- used when it comes back.
use rxd_os.Prelude.{
  ℕ, zero, suc, ◌+◌, ◌*◌, ◌/◌, ◌%◌, List, [], ◌∷◌, ◌++◌, Outcome, ok, panic, ◌>>=◌, ◌>>◌, assert,
  ◌==◌, ltb, if◌then◌else◌, drop, replicate,
}
use rxd_os.Blk.{Drive}
use rxd_os.Buffer.{Cache}
use rxd_os.Blockmap.{bitmap_test, bitmap_alloc, bitmap_free}
use rxd_os.Image.{copy_in, read_part, change_block}
use rxd_os.Super.{
  word32, word16, word32s, half_at, word_at, words_from, SuperBlock, write_super, made_super,
  make_map,
}
pub mod Codec
pub mod Stored
pub mod RoundTrip
mod Tests

pub record Inode : Type 0 where
  pub i_inum : ℕ
  pub i_size : ℕ
  pub i_mode : ℕ
  pub i_nlink : ℕ
  pub i_zone : List ℕ
  -- `i_super`, `i_list` and `i_dentry`
  pub i_links : List ℕ
  pub i_refcnt : ℕ

-- The 72 bytes of a `struct inode`.
unfoldable pub inode_bytes : Inode → List ℕ
inode_bytes i =
    word32 i.i_inum
    ++ (word32 i.i_size
        ++ (word16 i.i_mode
            ++ (word16 i.i_nlink
                ++ (word32s i.i_zone ++ (word32s i.i_links ++ word32 i.i_refcnt)))))

abbrev pub inode_size : ℕ
inode_size = 72

-- `BLOCK_SIZE / sizeof(struct inode)`
abbrev pub inode_per_blk : ℕ
inode_per_blk = 14

abbrev pub inode_blknr : SuperBlock → ℕ → ℕ
inode_blknr sb inum = inum / inode_per_blk + sb.s_itable_start

abbrev pub inode_blkoff : ℕ → ℕ
inode_blkoff inum = inum % inode_per_blk * inode_size

-- What `read_inode` copies out of `d_inode`.
unfoldable pub take_inode : Inode → (inum : ℕ) → List ℕ → Inode
take_inode inode inum d_inode = record inode {
  i_inum = inum;
  i_size = word_at d_inode 4;
  i_mode = half_at d_inode 8;
  i_nlink = half_at d_inode 10;
  i_zone = words_from 9 (drop 12 d_inode);
}

module _ {D : Type 0} (drive : Drive D) where
  unfoldable pub test_inode_nr : SuperBlock → ℕ → Cache D → Outcome (ℕ × Cache D)
  test_inode_nr sb inum s =
      bitmap_test drive sb.s_dev sb.s_imap_start (sb.s_imap_start + sb.s_imap_count) inum s

  unfoldable pub alloc_inode_nr : SuperBlock → Cache D → Outcome (ℕ × Cache D)
  alloc_inode_nr sb s =
      bitmap_alloc drive sb.s_dev sb.s_imap_start (sb.s_imap_start + sb.s_imap_count) s

  unfoldable pub free_inode_nr : SuperBlock → ℕ → Cache D → Outcome (Cache D)
  free_inode_nr sb inum s =
      bitmap_free drive sb.s_dev sb.s_imap_start (sb.s_imap_start + sb.s_imap_count) inum s

  unfoldable pub read_inode : Inode → (inum : ℕ) → SuperBlock → Cache D → Outcome (Inode × Cache D)
  read_inode inode inum sb s = do
    assert (ltb 0 inum)
    (test, s) ← test_inode_nr sb inum s
    if test == 0 then panic else (do
      (d_inode, s) ← read_part drive sb.s_dev (inode_blknr sb inum) (inode_blkoff inum) inode_size s
      assert (word_at d_inode 0 == inum)
      ok (take_inode inode inum d_inode, s))

  unfoldable pub write_inode : SuperBlock → Inode → Cache D → Outcome (Cache D)
  write_inode sb inode s = do
    assert (ltb 0 inode.i_inum)
    (test, s) ← test_inode_nr sb inode.i_inum s
    if test == 0
        then panic
        else change_block drive sb.s_dev (inode_blknr sb inode.i_inum)
            (copy_in (inode_blkoff inode.i_inum) (inode_bytes inode)) s

-- The fields of `root_inode` that `mkfs` sets; `i_mode` stays as it is in memory.
unfoldable pub made_root : Inode → Inode
made_root root = record root {
  i_inum = 1;
  i_size = 0;
  i_nlink = 2;
  i_zone = replicate 9 0;
  i_refcnt = 1;
}

module _ {D : Type 0} (drive : Drive D) where
  unfoldable pub mkfs : Inode → Cache D → Outcome (Inode × Cache D)
  mkfs root s = do
    s ← write_super drive made_super s
    s ← change_block drive made_super.s_dev made_super.s_imap_start (make_map 2) s
    s ←
        change_block drive made_super.s_dev made_super.s_zmap_start
          (make_map made_super.s_data_start) s
    s ← write_inode drive made_super (made_root root) s
    ok (made_root root, s)
