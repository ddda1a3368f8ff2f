-- ===== src/Bitmap/Bits.antt =====
-- fs/bitmap.h: setting, clearing and testing one bit.
use native.Mathlib.Decide.{ℕ_discrete}
use rxd_os.Prelude.{
  ℕ, ◌-◌, ◌/◌, ◌%◌, ◌^◌, ◌<◌, ◌≡◌, refl, ap, true, ◌&&◌, bit_and, bit_or, List, ok, arith, ◌==◌,
  ==→eq, and-eq-true, ltb, if◌then◌else◌, length, get_or, set, load-ok, store-ok, length-set,
  get_or-set_self, get_or-set_ne, every_below, every_below-at,
}
use rxd_os.Bitmap.{set_bit, unset_bit, test_bit}

-- The bytes of a block.
abbrev pub AreBytes : List ℕ → Type 0
AreBytes bytes = (i : ℕ) → get_or bytes i 0 < 256

-- The bit `q` of a byte, 0 or 1.
unfoldable pub byte_bit : (b q : ℕ) → ℕ
byte_bit b q = if bit_and b (2 ^ q) == 0 then 0 else 1

-- Bit `k` of a block.
unfoldable pub bit : List ℕ → ℕ → ℕ
bit bytes k = byte_bit (get_or bytes (k / 8) 0) (k % 8)

-- `_test_bit` reads the bit.
pub test_bit-bit :
    (bytes : List ℕ) (k : ℕ) → k / 8 < length bytes → test_bit bytes k ≡ ok (bit bytes k)
unfolding test_bit bit byte_bit
test_bit-bit bytes k h = ground (arith, load-ok bytes (k / 8) 0 h)

or_table :
    every_below 8 (λ r. every_below 8 (λ q.
      every_below 256 (λ b. byte_bit (bit_or b (2 ^ r)) q == (if q == r then 1 else byte_bit b q))))
    ≡ true
unfolding every_below byte_bit
or_table = refl

and_table :
    every_below 8 (λ r. every_below 8 (λ q.
      every_below 256
        (λ b. byte_bit (bit_and b (255 - 2 ^ r)) q == (if q == r then 0 else byte_bit b q))))
    ≡ true
unfolding every_below byte_bit
and_table = refl

byte_table :
    every_below 8
      (λ r. every_below 256 (λ b. ltb (bit_or b (2 ^ r)) 256 && ltb (bit_and b (255 - 2 ^ r)) 256))
    ≡ true
unfolding every_below
byte_table = refl

pub byte_bit-or :
    (b r q : ℕ)
    → b < 256
    → r < 8
    → q < 8
    → byte_bit (bit_or b (2 ^ r)) q ≡ (if q == r then 1 else byte_bit b q)
byte_bit-or b r q hb hr hq =
    ==→eq (every_below-at 256 _ b (every_below-at 8 _ q (every_below-at 8 _ r or_table hr) hq) hb)

pub byte_bit-and :
    (b r q : ℕ)
    → b < 256
    → r < 8
    → q < 8
    → byte_bit (bit_and b (255 - 2 ^ r)) q ≡ (if q == r then 0 else byte_bit b q)
byte_bit-and b r q hb hr hq =
    ==→eq (every_below-at 256 _ b (every_below-at 8 _ q (every_below-at 8 _ r and_table hr) hq) hb)

pub bytes_bound :
    (b r : ℕ) → b < 256 → r < 8 → (bit_or b (2 ^ r) < 256) × (bit_and b (255 - 2 ^ r) < 256)
bytes_bound b r hb hr =
    let h = every_below-at 256 _ b (every_below-at 8 _ r byte_table hr) hb in
    let both = and-eq-true (ltb (bit_or b (2 ^ r)) 256) (ltb (bit_and b (255 - 2 ^ r)) 256) h in
    (ground (arith, both.0), ground (arith, both.1))

pub get_or_at : (bytes : List ℕ) (i j : ℕ) → i ≡ j → get_or bytes i 0 ≡ get_or bytes j 0
get_or_at bytes i j e = ap (λ z. get_or bytes z 0) e

-- The bits of a block in which one byte was changed to `v`.
module _ (bytes : List ℕ) (k v value : ℕ) (small : AreBytes bytes) (inside : k / 8 < length bytes)
    (byte : v < 256)
    (at : (q : ℕ)
      → q < 8
      → byte_bit v q ≡ (if q == k % 8 then value else byte_bit (get_or bytes (k / 8) 0) q)) where
  set-AreBytes : AreBytes (set bytes (k / 8) v)
  set-AreBytes i = elim (ℕ_discrete (k / 8) i) [
    | yes e ↦ omega (
      arith,
      get_or_at (set bytes (k / 8) v) (k / 8) i e,
      get_or-set_self bytes (k / 8) v 0 inside,
    )
    | no ne ↦ omega (arith, get_or-set_ne bytes (k / 8) i v 0 ne, small i)
  ]

  bit-set : (j : ℕ) → bit (set bytes (k / 8) v) j ≡ (if j == k then value else bit bytes j)
  unfolding bit
  bit-set j = elim (ℕ_discrete (k / 8) (j / 8)) [
    | yes e ↦ ground (
      arith,
      get_or_at (set bytes (k / 8) v) (k / 8) (j / 8) e,
      get_or-set_self bytes (k / 8) v 0 inside,
      get_or_at bytes (k / 8) (j / 8) e,
      at (j % 8) (omega arith),
    )
    | no ne ↦ ground (arith, get_or-set_ne bytes (k / 8) (j / 8) v 0 ne)
  ]

-- `_set_bit` of a bit inside a block of bytes returns a block of the same size in which that bit is 1
-- and every other bit is as before.
pub set_bit-bit :
    (bytes : List ℕ) (k : ℕ)
    → AreBytes bytes
    → k / 8 < length bytes
    → (bytes' : List ℕ) × (set_bit bytes k ≡ ok bytes')
      × (length bytes' ≡ length bytes)
      × AreBytes bytes'
      × ((j : ℕ) → bit bytes' j ≡ (if j == k then 1 else bit bytes j))
unfolding set_bit
set_bit-bit bytes k small inside =
    let v : ℕ = bit_or (get_or bytes (k / 8) 0) (2 ^ (k % 8)) in
    let low : k % 8 < 8 = omega arith in
    let byte : v < 256 = (bytes_bound (get_or bytes (k / 8) 0) (k % 8) (small (k / 8)) low).0 in
    (
      set bytes (k / 8) v,
      ground (arith, load-ok bytes (k / 8) 0 inside, store-ok bytes (k / 8) v inside),
      length-set bytes (k / 8) v,
      set-AreBytes bytes k v 1 small inside byte
          (λ q h. byte_bit-or (get_or bytes (k / 8) 0) (k % 8) q (small (k / 8)) low h),
      bit-set bytes k v 1 small inside byte
          (λ q h. byte_bit-or (get_or bytes (k / 8) 0) (k % 8) q (small (k / 8)) low h),
    )

-- `_unset_bit` of a bit inside a block of bytes returns a block of the same size in which that
-- bit is 0 and every other bit is as before.
pub unset_bit-bit :
    (bytes : List ℕ) (k : ℕ)
    → AreBytes bytes
    → k / 8 < length bytes
    → (bytes' : List ℕ) × (unset_bit bytes k ≡ ok bytes')
      × (length bytes' ≡ length bytes)
      × AreBytes bytes'
      × ((j : ℕ) → bit bytes' j ≡ (if j == k then 0 else bit bytes j))
unfolding unset_bit
unset_bit-bit bytes k small inside =
    let v : ℕ = bit_and (get_or bytes (k / 8) 0) (255 - 2 ^ (k % 8)) in
    let low : k % 8 < 8 = omega arith in
    let byte : v < 256 = (bytes_bound (get_or bytes (k / 8) 0) (k % 8) (small (k / 8)) low).1 in
    (
      set bytes (k / 8) v,
      ground (arith, load-ok bytes (k / 8) 0 inside, store-ok bytes (k / 8) v inside),
      length-set bytes (k / 8) v,
      set-AreBytes bytes k v 0 small inside byte
          (λ q h. byte_bit-and (get_or bytes (k / 8) 0) (k % 8) q (small (k / 8)) low h),
      bit-set bytes k v 0 small inside byte
          (λ q h. byte_bit-and (get_or bytes (k / 8) 0) (k % 8) q (small (k / 8)) low h),
    )
