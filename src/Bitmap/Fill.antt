-- ===== src/Bitmap/Fill.antt =====
-- fs/bitmap.h: the maps that `_set_n_bit` makes of an empty block.
use rxd_os.Prelude.{
  ℕ, zero, suc, ◌/◌, ◌%◌, ◌<◌, ◌≡◌, refl, ◌∙◌, ap, true, List, ◌∷◌, ok, arith, ◌==◌, ltb,
  if◌then◌else◌, get_or, get_or-replicate, replicate, every_below, every_below-at, ==→eq,
}
use rxd_os.Bitmap.{set_n_bit, fill_bytes, fill_bits}
use rxd_os.Bitmap.Bits.{AreBytes, bit, byte_bit}

-- A block of which only the first two bytes are set.
abbrev pub low_map : (first second : ℕ) → List ℕ
low_map first second = first ∷ second ∷ replicate 1022 0

pub set_n_bit-two : set_n_bit (replicate 1024 0) 2 ≡ ok (low_map 3 0)
unfolding set_n_bit fill_bytes fill_bits
set_n_bit-two = refl

pub set_n_bit-ten : set_n_bit (replicate 1024 0) 10 ≡ ok (low_map 255 3)
unfolding set_n_bit fill_bytes fill_bits
set_n_bit-ten = refl

pub low_map-AreBytes : (a b : ℕ) → a < 256 → b < 256 → AreBytes (low_map a b)
low_map-AreBytes a b h h' zero = h
low_map-AreBytes a b h h' (suc zero) = h'
low_map-AreBytes a b h h' (suc (suc i)) = omega (arith, get_or-replicate {A = ℕ} 1022 i 0)

low_map-byte :
    (a b k : ℕ) → get_or (low_map a b) k 0 ≡ (if k == 0 then a else if k == 1 then b else 0)
low_map-byte a b zero = refl
low_map-byte a b (suc zero) = refl
low_map-byte a b (suc (suc k)) = get_or-replicate {A = ℕ} 1022 k 0 ∙ ground arith

three : every_below 8 (λ q. byte_bit 3 q == (if ltb q 2 then 1 else 0)) ≡ true
unfolding every_below byte_bit
three = refl

full : every_below 8 (λ q. byte_bit 255 q == 1) ≡ true
unfolding every_below byte_bit
full = refl

empty : every_below 8 (λ q. byte_bit 0 q == 0) ≡ true
unfolding every_below byte_bit
empty = refl

three_bits : (q : ℕ) → q < 8 → byte_bit 3 q ≡ (if ltb q 2 then 1 else 0)
three_bits q h =
    ==→eq (every_below-at 8 (λ k. byte_bit 3 k == (if ltb k 2 then 1 else 0)) q three h)

full_bits : (q : ℕ) → q < 8 → byte_bit 255 q ≡ 1
full_bits q h = ==→eq (every_below-at 8 (λ k. byte_bit 255 k == 1) q full h)

no_bits : (q : ℕ) → q < 8 → byte_bit 0 q ≡ 0
no_bits q h = ==→eq (every_below-at 8 (λ k. byte_bit 0 k == 0) q empty h)

-- Exactly the first bits are set.
pub low_map-two : (t : ℕ) → bit (low_map 3 0) t ≡ (if ltb t 2 then 1 else 0)
unfolding bit
low_map-two t =
    let q : ℕ = t % 8 in
    ap (λ v. byte_bit v q) (low_map-byte 3 0 (t / 8))
    ∙ ground (arith, three_bits q (omega arith), no_bits q (omega arith))

pub low_map-ten : (t : ℕ) → bit (low_map 255 3) t ≡ (if ltb t 10 then 1 else 0)
unfolding bit
low_map-ten t =
    let q : ℕ = t % 8 in
    ap (λ v. byte_bit v q) (low_map-byte 255 3 (t / 8))
    ∙ ground (arith, three_bits q (omega arith), full_bits q (omega arith), no_bits q (omega arith))
