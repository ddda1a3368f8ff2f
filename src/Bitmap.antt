-- ===== src/Bitmap.antt =====
-- fs/bitmap.h: bitmaps in the bytes of a block. The blocks themselves are not part of this module.
pub mod Bits
pub mod Fill
pub mod Search
mod Tests
use rxd_os.Prelude.{
  ℕ, zero, suc, ◌+◌, ◌-◌, ◌*◌, ◌/◌, ◌%◌, ◌^◌, true, false, Option, none, some, bit_and, bit_or,
  List, Outcome, ok, out_of_fuel, ◌>>=◌, load, store, ◌==◌, if◌then◌else◌,
}

-- `_set_bit`
pub set_bit : (addr : List ℕ) (offset : ℕ) → Outcome (List ℕ)
set_bit addr offset = do
  b ← load addr (offset / 8)
  store addr (offset / 8) (bit_or b (2 ^ (offset % 8)))

-- `_unset_bit`. The complement of the mask is cut to the byte that is stored.
pub unset_bit : (addr : List ℕ) (offset : ℕ) → Outcome (List ℕ)
unset_bit addr offset = do
  b ← load addr (offset / 8)
  store addr (offset / 8) (bit_and b (255 - 2 ^ (offset % 8)))

-- `_test_bit`
pub test_bit : (addr : List ℕ) (offset : ℕ) → Outcome ℕ
test_bit addr offset = do
  b ← load addr (offset / 8)
  ok (if bit_and b (2 ^ (offset % 8)) == 0 then 0 else 1)

-- `while (tmp & 1) { tmp >>= 1; ++zero_offset; }`
pub skip_ones : (fuel tmp zero_offset : ℕ) → Outcome ℕ
skip_ones zero tmp zero_offset = out_of_fuel
skip_ones (suc fuel) tmp zero_offset = elim (bit_and tmp 1 == 0) [
  | true ↦ ok zero_offset
  | false ↦ skip_ones fuel (tmp / 2) (zero_offset + 1)
]

-- The outer loop of `_find_first_zero`, with `first - addr` for `first`. `none` is the result -1.
pub find_loop : (rounds first : ℕ) (addr : List ℕ) → Outcome (Option ℕ)
find_loop zero first addr = ok none
find_loop (suc rounds) first addr = do
  b ← load addr first
  if b == 0xff
      then find_loop rounds (first + 1) addr
      else (do zero_offset ← skip_ones 8 b (first * 8); ok (some zero_offset))

-- `_find_first_zero`
pub find_first_zero : (addr : List ℕ) (limit : ℕ) → Outcome (Option ℕ)
unfolding find_loop
find_first_zero addr limit = find_loop limit 0 addr

-- The loop of `_set_n_bit` over the whole bytes.
pub fill_bytes : (bytes p : ℕ) (addr : List ℕ) → Outcome (List ℕ)
fill_bytes zero p addr = ok addr
fill_bytes (suc bytes) p addr = do addr ← store addr p 0xff; fill_bytes bytes (p + 1) addr

-- `while (--bits) { *addr = ((*addr) << 1) | 1; }`
pub fill_bits : (bits p : ℕ) (addr : List ℕ) → Outcome (List ℕ)
fill_bits zero p addr = ok addr
fill_bits (suc bits) p addr = do
  b ← load addr p
  addr ← store addr p (bit_or (b * 2 % 256) 1)
  fill_bits bits p addr

-- `_set_n_bit`
pub set_n_bit : (addr : List ℕ) (count : ℕ) → Outcome (List ℕ)
set_n_bit addr count = do
  addr ← fill_bytes (count / 8) 0 addr
  if count % 8 == 0
      then ok addr
      else (do addr ← store addr (count / 8) 1; fill_bits (count % 8 - 1) (count / 8) addr)
