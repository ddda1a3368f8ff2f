-- ===== src/Number/Digits.antt =====
-- lib/printf.c: the digits that the first loop of `__itoa` writes.
use native.Mathlib.Decide.{ℕ_discrete}
use native.Mathlib.Nat.{
  div-lt_iff_lt-mul, le-div_iff_mul-le, div-div-eq-div-mul, div-one, pow-zero, pow-succ', pow-suc,
}
use rxd_os.Prelude.{
  ℕ, zero, suc, ◌+◌, ◌/◌, ◌%◌, ◌^◌, ◌≤◌, ◌<◌, ◌≡◌, ◌≢◌, ◌⊎◌, inl, refl, sym, ◌∙◌, ap, ok, arith,
}
use rxd_os.Memory.{Memory, write}
use rxd_os.Number.{digit_char, convert}

-- The digit of `u` at place `k`, as a character.
abbrev pub digit_at : (u base k : ℕ) → ℕ
digit_at u base k = digit_char (u / base ^ k % base)

-- `u` has `n` digits, none of them a leading zero, and `m'` has them from `p` upwards, the lowest one
-- first. Elsewhere it is `m`.
pub record Written (u base p n : ℕ) (m m' : Memory) : Type 0 where
  pub enough : u < base ^ n
  pub lead : (k : ℕ) → k < n → base ^ k ≤ u
  pub chars : (k : ℕ) → k < n → m' (p + k) ≡ digit_at u base k
  pub outside : (a : ℕ) → a < p ⊎ p + n ≤ a → m' a ≡ m a

module _ (base : ℕ) (two : 1 < base) where
  convert-more :
      (fuel u p : ℕ) (m : Memory)
      → u ≢ 0
      → convert (suc (suc fuel)) u base p m
        ≡ convert (suc fuel) (u / base) base (p + 1) (write m p (digit_char (u % base)))
  unfolding convert
  convert-more fuel u p m ne = ground arith

  Written-digit :
      {u p n : ℕ} {m m' : Memory}
      → u ≢ 0
      → Written (u / base) base (p + 1) n (write m p (digit_char (u % base))) m'
      → Written u base p (suc n) m m'
  Written-digit {u} {p} {n} {m} {m'} ne w = record {
    enough = omega (
      arith,
      pow-suc base n,
      (div-lt_iff_lt-mul {k = base} {x = u} {y = base ^ n} (omega arith)).0 w.enough,
    );
    lead = leads;
    chars = all;
    outside = λ a h. w.outside a (omega arith) ∙ ground (arith, h);
  }
    where
      leads : (k : ℕ) → k < suc n → base ^ k ≤ u
      leads zero h = omega (arith, pow-zero base)
      leads (suc k) h = omega (
        arith,
        pow-suc base k,
        (le-div_iff_mul-le {k = base} {x = base ^ k} {y = u} (omega arith)).0
            (w.lead k (omega arith)),
      )

      all : (k : ℕ) → k < suc n → m' (p + k) ≡ digit_at u base k
      all zero h =
          let first : m' p ≡ digit_char (u % base) =
            w.outside p (inl (omega arith)) ∙ ground arith in
          let same : u / base ^ 0 ≡ u = ap (λ z. u / z) (pow-zero base) ∙ div-one u in
          let here : p + 0 ≡ p = omega arith in cc (first, same, here)
      all (suc k) h =
          let next : p + suc k ≡ p + 1 + k = omega arith in
          let same : u / base / base ^ k ≡ u / base ^ suc k =
            div-div-eq-div-mul u base (base ^ k) ∙ ap (λ z. u / z) (sym (pow-succ' base k)) in
          ap m' next ∙ w.chars k (omega arith) ∙ ap (λ z. digit_char (z % base)) same

  Written-none : (u p : ℕ) (m : Memory) → u ≡ 0 → Written u base p 0 m m
  Written-none u p m none = record {
    enough = omega (arith, pow-zero base);
    lead = λ k lt. absurd (omega arith);
    chars = λ k lt. absurd (omega arith);
    outside = λ a _. refl;
  }

  -- `convert` with a round more than there can be digits.
  pub convert-Written :
      (fuel u p : ℕ) (m : Memory)
      → u < base ^ fuel
      → (n : ℕ) × (m' : Memory) × (n ≤ fuel)
        × (convert (suc fuel) u base p m ≡ ok (p + n, m'))
        × Written u base p n m m'
  unfolding convert
  convert-Written zero u p m h =
      let none : u ≡ 0 = omega (arith, pow-zero base) in
      let here : p + 0 ≡ p = omega arith in
      (0, m, omega arith, ground (arith, none, here), Written-none u p m none)
  convert-Written (suc fuel) u p m h = elim (ℕ_discrete u 0) [
    | yes none ↦
        let here : p + 0 ≡ p = omega arith in
        (0, m, omega arith, ground (arith, none, here), Written-none u p m none)
    | no some ↦
        let small : u / base < base ^ fuel =
          (div-lt_iff_lt-mul {k = base} {x = u} {y = base ^ fuel} (omega arith)).1
            (omega (arith, h, pow-suc base fuel)) in
        let (n, m', le, run, w) =
          convert-Written fuel (u / base) (p + 1) (write m p (digit_char (u % base))) small in
        let next : p + suc n ≡ p + 1 + n = omega arith in
        (
          suc n,
          m',
          omega arith,
          convert-more fuel u p m some ∙ run ∙ ap (λ z. ok (z, m')) (sym next),
          Written-digit some w,
        )
  ]
