-- ===== src/Content.antt =====
-- fs/fs.c: `_read` and `_write`, on the content of an inode. The buffer of the caller is a list of bytes; a
-- result `none` is -1. A position or a count is a word of 32 bits, and it is negative from 2 ^ 31 on.
pub mod Range
pub mod Bytes
pub mod Read
pub mod Long
pub mod Overwrite
pub mod Change
pub mod Store
pub mod Effect
pub mod Write
pub mod RoundTrip
pub mod Sample
mod Tests
use rxd_os.Prelude.{
  ℕ, zero, suc, ◌+◌, ◌-◌, ◌/◌, ◌%◌, ◌^◌, Bool, ◌&&◌, Option, none, some, List, [], ◌++◌, Outcome,
  ok, panic, out_of_fuel, ◌>>=◌, ◌>>◌, assert, ltb, ◌==◌, if◌then◌else◌, length, take, drop,
}
use rxd_os.Blk.{Drive}
use rxd_os.Buffer.{Cache}
use rxd_os.Image.{copy_in, read_part, change_block}
use rxd_os.Super.{SuperBlock}
use rxd_os.Inode.{Inode, write_inode}
use rxd_os.Zone.{zones_of, get_zone_blk, reserve_zone}

-- `left_bytes < bytes ? left_bytes : bytes` for the rest of the first block
abbrev pub first_bytes : (pos left : ℕ) → ℕ
first_bytes pos left = if ltb left (1024 - pos % 1024) then left else 1024 - pos % 1024

-- `(left_bytes > BLOCK_SIZE) ? left_bytes % BLOCK_SIZE : left_bytes`
abbrev pub next_bytes : ℕ → ℕ
next_bytes left = if ltb 1024 left then left % 1024 else left

-- `(pos + count) > inode->i_size` of ints: the sum wraps round, and what is added to both sides puts the
-- negative numbers before the others.
unfoldable pub past_end : (pos count size : ℕ) → Bool
past_end pos count size = ltb ((size + 2 ^ 31) % 2 ^ 32) ((pos + count + 2 ^ 31) % 2 ^ 32)

-- A zone above 6 ends the loops in a panic, so that eight rounds are enough.
abbrev pub max_rounds : ℕ
max_rounds = 8

-- The size after `end` bytes were reached.
unfoldable pub grown : Inode → (end : ℕ) → Inode
grown inode end = if ltb inode.i_size end then record inode { i_size = end } else inode

module _ {D : Type 0} (drive : Drive D) where
  unfoldable pub read_loop :
      (fuel dev : ℕ) → Inode → (zone left : ℕ) → Cache D → Outcome (List ℕ × Cache D)
  read_loop zero dev inode zone left s = out_of_fuel
  read_loop (suc fuel) dev inode zone left s = if left == 0 then ok ([], s) else (do
    blk ← get_zone_blk inode zone
    (bytes, s) ← read_part drive dev blk 0 (next_bytes left) s
    (rest, s) ← read_loop fuel dev inode (zone + 1) (left - next_bytes left) s
    ok (bytes ++ rest, s))

  -- `_read`; the bytes that are copied to `buf` are the result.
  unfoldable pub read :
      (dev : ℕ) → Inode → (pos count : ℕ) → Cache D → Outcome (Option (List ℕ) × Cache D)
  read dev inode pos count s = do
    assert (ltb pos (2 ^ 31) && ltb count (2 ^ 31))
    if past_end pos count inode.i_size then ok (none, s) else (do
      blk ← get_zone_blk inode (pos / 1024)
      (bytes, s) ← read_part drive dev blk (pos % 1024) (first_bytes pos count) s
      (rest, s) ← read_loop max_rounds dev inode (pos / 1024 + 1) (count - first_bytes pos count) s
      ok (some (bytes ++ rest), s))

  unfoldable pub write_loop :
      (fuel dev : ℕ) → Inode → (zone : ℕ) → List ℕ → Cache D → Outcome (Cache D)
  write_loop zero dev inode zone buf s = out_of_fuel
  write_loop (suc fuel) dev inode zone buf s = if length buf == 0 then ok s else (do
    blk ← get_zone_blk inode zone
    s ← change_block drive dev blk (copy_in 0 (take (next_bytes (length buf)) buf)) s
    write_loop fuel dev inode (zone + 1) (drop (next_bytes (length buf)) buf) s)

  -- `_write` of the bytes `buf`; `_reserve_zone` does not fail, so that it returns their number.
  unfoldable pub write :
      SuperBlock → Inode → (pos : ℕ) → List ℕ → Cache D → Outcome (ℕ × Inode × Cache D)
  write sb inode pos buf s = do
    let count = length buf
    assert (ltb pos (2 ^ 31) && (ltb 0 count && ltb count (2 ^ 31)))
    (inode, s) ← reserve_zone drive sb inode (zones_of (pos + count)) 0 s
    blk ← get_zone_blk inode (pos / 1024)
    s ← change_block drive sb.s_dev blk (copy_in (pos % 1024) (take (first_bytes pos count) buf)) s
    s ← write_loop max_rounds sb.s_dev inode (pos / 1024 + 1) (drop (first_bytes pos count) buf) s
    let inode = grown inode (pos + count)
    s ← write_inode drive sb inode s
    ok (count, inode, s)
