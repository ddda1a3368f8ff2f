-- ===== src/Zone.antt =====
-- fs/fs.c: the blocks of an inode's content, its zones. Only the seven direct zones are in use. Sizes and
-- positions are below 2 ^ 31 less a block, so that their sums do not wrap round.
use rxd_os.Prelude.{
  ℕ, zero, suc, ◌+◌, ◌-◌, ◌*◌, ◌/◌, List, Outcome, ok, panic, ◌>>=◌, ◌>>◌, assert, load, store, ltb,
  leb, ◌==◌, ◌&&◌, not, if◌then◌else◌, replicate,
}
use rxd_os.Blk.{Drive}
use rxd_os.Buffer.{Cache}
use rxd_os.Blockmap.{bitmap_alloc, bitmap_free}
use rxd_os.Image.{change_block}
use rxd_os.Super.{SuperBlock}
use rxd_os.Inode.{Inode}
pub mod Direct
pub mod Fresh
pub mod Reserve
mod Tests

-- `(n + BLOCK_SIZE - 1) / BLOCK_SIZE`
abbrev pub zones_of : ℕ → ℕ
zones_of n = (n + 1023) / 1024

unfoldable pub set_zone_blk : Inode → (zone_nr blk_nr : ℕ) → Outcome Inode
set_zone_blk inode zone_nr blk_nr = do
  assert (ltb zone_nr (7 + 256 + 256 * 256))
  if ltb 6 zone_nr
      then panic
      else (do zones ← store inode.i_zone zone_nr blk_nr; ok (record inode { i_zone = zones }))

unfoldable pub get_zone_blk : Inode → (zone_nr : ℕ) → Outcome ℕ
get_zone_blk inode zone_nr = do
  assert (ltb zone_nr (7 + 256 + 256 * 256))
  if ltb (zones_of inode.i_size) zone_nr
      then panic
      else if ltb 6 zone_nr
      then panic
      else load inode.i_zone zone_nr

-- `memset(bh->b_data, 0, BLOCK_SIZE)`
unfoldable pub clear_block : List ℕ → Outcome (List ℕ)
clear_block bytes = ok (replicate 1024 0)

module _ {D : Type 0} (drive : Drive D) where
  unfoldable pub get_blk : SuperBlock → Cache D → Outcome (ℕ × Cache D)
  get_blk sb s = do
    (blk_nr, s) ← bitmap_alloc drive sb.s_dev sb.s_zmap_start (sb.s_zmap_start + sb.s_zmap_count) s
    if blk_nr == 0
        then ok (blk_nr, s)
        else (do s ← change_block drive sb.s_dev blk_nr clear_block s; ok (blk_nr, s))

  unfoldable pub put_blk : SuperBlock → ℕ → Cache D → Outcome (Cache D)
  put_blk sb blk_nr s =
      bitmap_free drive sb.s_dev sb.s_zmap_start (sb.s_zmap_start + sb.s_zmap_count) blk_nr s

  -- The two loops of `_reserve_zone`, with a round for each zone between the two counts.
  unfoldable pub grow :
      SuperBlock → (rounds cur_nzone : ℕ) → Inode → Cache D → Outcome (Inode × Cache D)
  grow sb zero cur_nzone inode s = ok (inode, s)
  grow sb (suc rounds) cur_nzone inode s = do
    (blk, s) ← get_blk sb s
    inode ← set_zone_blk inode cur_nzone blk
    grow sb rounds (cur_nzone + 1) inode s

  unfoldable pub shrink :
      SuperBlock → (rounds cur_nzone : ℕ) → Inode → Cache D → Outcome (Inode × Cache D)
  shrink sb zero cur_nzone inode s = ok (inode, s)
  shrink sb (suc rounds) cur_nzone inode s = do
    blk ← get_zone_blk inode (cur_nzone - 1)
    inode ← set_zone_blk inode (cur_nzone - 1) 0
    s ← put_blk sb blk s
    shrink sb rounds (cur_nzone - 1) inode s

  -- `_reserve_zone`, which always returns 0.
  unfoldable pub reserve_zone :
      SuperBlock → Inode → (nzone truncate : ℕ) → Cache D → Outcome (Inode × Cache D)
  reserve_zone sb inode nzone truncate s = do
    assert (leb 1 inode.i_inum)
    let cur_nzone = zones_of inode.i_size
    if ltb cur_nzone nzone
        then grow sb (nzone - cur_nzone) cur_nzone inode s
        else if ltb nzone cur_nzone && not (truncate == 0)
        then shrink sb (cur_nzone - nzone) cur_nzone inode s
        else ok (inode, s)
