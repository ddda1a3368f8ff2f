-- ===== src/Blockmap.antt =====
-- fs/bitmap.h: bitmaps that go over several blocks of a disk, behind the cache of Buffer. Of each block
-- the first 512 bytes are used. A bit number is not negative and its sums do not overflow, which C leaves
-- undefined.
pub mod Next
pub mod Alloc
pub mod Change
pub mod Keeps
mod Tests
use rxd_os.Prelude.{
  ℕ, zero, suc, ◌+◌, ◌-◌, ◌*◌, ◌/◌, ◌%◌, Bool, true, false, ◌||◌, Option, none, some, List, Outcome,
  ok, panic, out_of_fuel, ◌>>=◌, ltb, leb, if◌then◌else◌,
}
use rxd_os.Blk.{Drive}
use rxd_os.Buffer.{BufferHead, Cache, bread, brelease, bwrite, set_data}
use rxd_os.Bitmap.{set_bit, unset_bit, test_bit, find_first_zero}

abbrev pub sector_size : ℕ
sector_size = 512

abbrev pub sector_bits : ℕ
sector_bits = 4096

-- `_blk_nr` and `_bit_nr`
abbrev pub blk_nr : (origin offset : ℕ) → ℕ
blk_nr origin offset = origin + offset / sector_bits

abbrev pub bit_nr : ℕ → ℕ
bit_nr offset = offset % sector_bits

module _ {D : Type 0} (drive : Drive D) where
  -- The loop of `_bitmap_alloc`, with a round for each block from `start` to the end.
  pub alloc_loop : (dev rounds start bit : ℕ) → Cache D → Outcome (ℕ × Cache D)
  alloc_loop dev zero start bit s = panic
  alloc_loop dev (suc rounds) start bit s = do
    (bh, s) ← bread drive dev start s
    tmp ← find_first_zero (s.heads bh).b_data sector_size
    elim tmp [
      | some tmp ↦ do
        bytes ← set_bit (s.heads bh).b_data (bit_nr (bit + tmp))
        s ← brelease drive bh (bwrite bh (set_data bh bytes s))
        ok (bit + tmp, s)
      | none ↦ do s ← brelease drive bh s; alloc_loop dev rounds (start + 1) (bit + sector_bits) s
    ]

  -- `_bitmap_alloc`. With `start` behind `end` its loop does not come to an end.
  pub bitmap_alloc : (dev start end : ℕ) → Cache D → Outcome (ℕ × Cache D)
  unfolding alloc_loop
  bitmap_alloc dev start end s =
      if ltb end start then out_of_fuel else alloc_loop dev (end - start) start 0 s

  -- `_bitmap_free`
  pub bitmap_free : (dev start end bit : ℕ) → Cache D → Outcome (Cache D)
  bitmap_free dev start end bit s = if leb ((end - start) * sector_bits) bit then panic else (do
    (bh, s) ← bread drive dev (blk_nr start bit) s
    bytes ← unset_bit (s.heads bh).b_data (bit_nr bit)
    brelease drive bh (bwrite bh (set_data bh bytes s)))

  -- `_bitmap_test`
  pub bitmap_test : (dev start end bit : ℕ) → Cache D → Outcome (ℕ × Cache D)
  bitmap_test dev start end bit s = if leb ((end - start) * sector_bits) bit then panic else (do
    (bh, s) ← bread drive dev (blk_nr start bit) s
    test ← test_bit (s.heads bh).b_data (bit_nr bit)
    s ← brelease drive bh s
    ok (test, s))
