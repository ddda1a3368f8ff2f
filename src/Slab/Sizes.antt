-- ===== src/Slab/Sizes.antt =====
-- mm/slab.c: the size classes of `kmalloc`, and where the objects of a slab lie.
use native.Mathlib.Nat.{mul-div-le}
use rxd_os.Prelude.{
  ℕ, ◌+◌, ◌-◌, ◌*◌, ◌/◌, ◌^◌, ◌≤◌, ◌<◌, ◌≡◌, refl, sym, ◌∙◌, ap, true, ◌&&◌, ◌||◌, arith, ltb, leb,
  ◌==◌, every_below, every_below-at, and-eq-true,
}
use rxd_os.Slab.{generic_size, objects_of}

class_table :
    every_below 129 (λ n.
      leb n (4 * 2 ^ generic_size n)
      && (generic_size n == 0 || ltb (4 * 2 ^ (generic_size n - 1)) n))
    ≡ true
unfolding every_below
class_table = refl

-- For a size of at most 128 kmalloc chooses the smallest of the classes 4, 8, 16, 32, 64 and 128 bytes that
-- the size fits.
pub generic_size-least :
    (size : ℕ)
    → size ≤ 128
    → (size ≤ 4 * 2 ^ generic_size size)
      × (0 < generic_size size → 4 * 2 ^ (generic_size size - 1) < size)
generic_size-least size h =
    let (fits, least) =
      and-eq-true (leb size (4 * 2 ^ generic_size size))
        (generic_size size == 0 || ltb (4 * 2 ^ (generic_size size - 1)) size)
        (every_below-at 129 _ size class_table (omega (arith, h))) in
    (ground (arith, fits), λ some. ground (arith, least, some))

-- Two objects of a slab with different numbers do not overlap, and every object ends below the array of
-- the slab.
pub objects-apart :
    (objsz objcnt x y : ℕ)
    → objcnt ≡ objects_of objsz
    → x < y
    → y < objcnt
    → (x * objsz + objsz ≤ y * objsz) × (y * objsz + objsz ≤ 4072 - 4 * objcnt)
objects-apart objsz objcnt x y fits h inside =
    let (d, e) = gap x y h in
    let (d', e') = gap y objcnt inside in
    let first : y * objsz ≡ x * objsz + objsz + d * objsz =
      ap (λ q. q * objsz) e ∙ spread x d objsz in
    let last : objcnt * objsz ≡ y * objsz + objsz + d' * objsz =
      ap (λ q. q * objsz) e' ∙ spread y d' objsz in
    let most : (objsz + 4) * (4072 / (objsz + 4)) ≤ 4072 = mul-div-le 4072 (objsz + 4) in
    let all : (objsz + 4) * (4072 / (objsz + 4)) ≡ objcnt * objsz + 4 * objcnt =
      ap (λ q. (objsz + 4) * q) (sym fits) ∙ sum objsz objcnt in
    (omega (arith, first), omega (arith, last, most, all))
  where
    gap : (x y : ℕ) → x < y → (d : ℕ) × (y ≡ x + 1 + d)
    gap x y h = (y - (x + 1), omega (arith, h))

    spread : (x d m : ℕ) → (x + 1 + d) * m ≡ x * m + m + d * m
    spread x d m = grind arith

    sum : (m n : ℕ) → (m + 4) * n ≡ n * m + 4 * n
    sum m n = grind arith
