-- ===== src/Bitmap/Search.antt =====
-- fs/bitmap.h: `_find_first_zero` finds the lowest clear bit.
use native.Mathlib.Decide.{ℕ_discrete}
use rxd_os.Prelude.{
  ℕ, zero, suc, ◌+◌, ◌-◌, ◌*◌, ◌/◌, ◌%◌, ◌≤◌, ◌<◌, ◌≡◌, refl, ◌∙◌, ap, true, Bool, ◌&&◌, bit_and,
  Option, none, some, List, ok, arith, ◌==◌, ==→eq, and-eq-true, ltb, if◌then◌else◌, length, get_or,
  load-ok, every_below, every_below-at,
}
use rxd_os.Bitmap.{skip_ones, find_loop, find_first_zero}
use rxd_os.Bitmap.Bits.{AreBytes, byte_bit, bit, get_or_at}

-- How many ones a byte has below its lowest zero.
ones : (fuel b : ℕ) → ℕ
ones zero b = 0
ones (suc fuel) b = if bit_and b 1 == 0 then 0 else suc (ones fuel (b / 2))

skip_ones-ones :
    (fuel b offset : ℕ) → ones fuel b < fuel → skip_ones fuel b offset ≡ ok (offset + ones fuel b)
unfolding skip_ones ones
skip_ones-ones zero b offset h = absurd (omega arith)
skip_ones-ones (suc fuel) b offset h = ground (arith, skip_ones-ones fuel (b / 2) (offset + 1))

ones_table :
    every_below 255 (λ b.
      ltb (ones 8 b) 8
      && ((byte_bit b (ones 8 b) == 0) && every_below (ones 8 b) (λ q. byte_bit b q == 1)))
    ≡ true
unfolding every_below ones byte_bit
ones_table = refl

full_table : every_below 8 (λ q. byte_bit 255 q == 1) ≡ true
unfolding every_below byte_bit
full_table = refl

ones-zero :
    (b : ℕ)
    → b < 255
    → (ones 8 b < 8) × (byte_bit b (ones 8 b) ≡ 0) × ((q : ℕ) → q < ones 8 b → byte_bit b q ≡ 1)
ones-zero b h =
    let all = every_below-at 255 _ b ones_table h in
    let below_ones : Bool = every_below (ones 8 b) (λ q. byte_bit b q == 1) in
    let (small, rest) =
      and-eq-true (ltb (ones 8 b) 8) ((byte_bit b (ones 8 b) == 0) && below_ones) all in
    let (clear, below) = and-eq-true (byte_bit b (ones 8 b) == 0) below_ones rest in
    (
      ground (arith, small),
      ==→eq clear,
      λ q lt. ==→eq (every_below-at (ones 8 b) (λ q. byte_bit b q == 1) q below lt),
    )

-- The lowest clear bit of the bytes from `first` to `end`, or none.
unfoldable pub FirstZero : (first end : ℕ) → List ℕ → Option ℕ → Type 0
FirstZero first end bytes none = (j : ℕ) → first * 8 ≤ j → j < end * 8 → bit bytes j ≡ 1
FirstZero first end bytes (some k) =
    (first * 8 ≤ k)
    × (k < end * 8)
    × (bit bytes k ≡ 0)
    × ((j : ℕ) → first * 8 ≤ j → j < k → bit bytes j ≡ 1)

-- A byte of ones in front.
FirstZero-full :
    (first end : ℕ) (bytes : List ℕ) (o : Option ℕ)
    → ((j : ℕ) → j / 8 ≡ first → bit bytes j ≡ 1)
    → FirstZero (first + 1) end bytes o
    → FirstZero first end bytes o
unfolding FirstZero
FirstZero-full first end bytes none full rest =
    λ j a b. elim (ℕ_discrete (j / 8) first) [ yes e ↦ full j e | no ne ↦ rest j (omega arith) b ]
FirstZero-full first end bytes (some k) full rest = (
  omega (arith, rest.0),
  rest.1,
  rest.2,
  λ j a b. elim (ℕ_discrete (j / 8) first) [ yes e ↦ full j e | no ne ↦ rest.3 j (omega arith) b ],
)

full_byte :
    (bytes : List ℕ) (first j : ℕ) → get_or bytes first 0 ≡ 255 → j / 8 ≡ first → bit bytes j ≡ 1
unfolding bit
full_byte bytes first j h e =
    ap (λ b. byte_bit b (j % 8)) (get_or_at bytes (j / 8) first e ∙ h)
    ∙ ==→eq (every_below-at 8 (λ q. byte_bit 255 q == 1) (j % 8) full_table (omega arith))

bit-byte :
    (bytes : List ℕ) (first q : ℕ)
    → q < 8
    → bit bytes (first * 8 + q) ≡ byte_bit (get_or bytes first 0) q
unfolding bit
bit-byte bytes first q h =
    let e : (first * 8 + q) / 8 ≡ first = omega arith in
    let f : (first * 8 + q) % 8 ≡ q = omega arith in cc (e, f)

found_byte :
    (bytes : List ℕ) (first end : ℕ)
    → first < end
    → get_or bytes first 0 < 255
    → FirstZero first end bytes (some (first * 8 + ones 8 (get_or bytes first 0)))
unfolding FirstZero
found_byte bytes first end lt h =
    let b : ℕ = get_or bytes first 0 in
    let (small, clear, below) = ones-zero b h in
    (
      omega arith,
      omega (arith, small),
      bit-byte bytes first (ones 8 b) small ∙ clear,
      λ j from to.
          let same : j ≡ first * 8 + (j - first * 8) = omega arith in
          ap (bit bytes) same
          ∙ bit-byte bytes first (j - first * 8) (omega (arith, small))
          ∙ below (j - first * 8) (omega arith),
    )

find_loop-FirstZero :
    (rounds first end : ℕ) (bytes : List ℕ)
    → AreBytes bytes
    → first + rounds ≡ end
    → end ≤ length bytes
    → (o : Option ℕ) × (find_loop rounds first bytes ≡ ok o) × FirstZero first end bytes o
unfolding find_loop FirstZero
find_loop-FirstZero zero first end bytes small e h = (none, refl, λ j a b. absurd (omega arith))
find_loop-FirstZero (suc rounds) first end bytes small e h =
    elim (ℕ_discrete (get_or bytes first 0) 255) [
      | yes full ↦
          let (o, run, f) =
            find_loop-FirstZero rounds (first + 1) end bytes small (omega arith) h in
          (
            o,
            ground (arith, load-ok bytes first 0 (omega arith)),
            FirstZero-full first end bytes o (λ j. full_byte bytes first j full) f,
          )
      | no some_zero ↦ (
        some (first * 8 + ones 8 (get_or bytes first 0)),
        ground (
          arith,
          load-ok bytes first 0 (omega arith),
          skip_ones-ones 8 (get_or bytes first 0) (first * 8),
          ones-zero (get_or bytes first 0),
          small first,
        ),
        found_byte bytes first end (omega arith) (omega (arith, small first)),
      )
    ]

-- `_find_first_zero` over the first `limit` bytes of a block of at least as many returns the
-- lowest clear bit among them, or -1, and then they are all set.
pub find_first_zero-FirstZero :
    (bytes : List ℕ) (limit : ℕ)
    → AreBytes bytes
    → limit ≤ length bytes
    → (o : Option ℕ) × (find_first_zero bytes limit ≡ ok o) × FirstZero 0 limit bytes o
unfolding find_first_zero
find_first_zero-FirstZero bytes limit small h =
    find_loop-FirstZero limit 0 limit bytes small (omega arith) h
