-- ===== src/Number/Itoa.antt =====
-- lib/printf.c: what `__itoa` writes.
use native.Mathlib.Decide.{ℕ_discrete}
use native.Mathlib.Nat.{zero-div, pow-zero, pow-suc, pow-le-pow_left}
use mathlib.Core.Path.{subst}
use rxd_os.Prelude.{
  ℕ, zero, suc, ◌+◌, ◌-◌, ◌*◌, ◌/◌, ◌%◌, ◌^◌, ◌≤◌, ◌<◌, ◌≡◌, ◌≢◌, ◌⊎◌, inl, inr, refl, sym, ◌∙◌, ap,
  Outcome, ok, arith, ◌==◌, if◌then◌else◌,
}
use rxd_os.Memory.{Memory, write}
use rxd_os.Number.{digit_char, convert, swap_loop, itoa_digits, itoa, int_min}
use rxd_os.Number.Digits.{digit_at, convert-Written}
use rxd_os.Number.Reverse.{reversed, swap_loop-reversed}

-- `m'` has the number `u` in `base` from `p` on, the highest of its `n` digits first, and a terminator
-- behind it. The highest digit is 0 only for the number 0. Elsewhere `m'` is `m`.
pub record Printed (u base p n : ℕ) (m m' : Memory) : Type 0 where
  pub some_digit : 0 < n
  pub enough : u < base ^ n
  pub lead : (k : ℕ) → 0 < k → k < n → base ^ k ≤ u
  pub chars : (i : ℕ) → i < n → m' (p + i) ≡ digit_at u base (n - 1 - i)
  pub terminator : m' (p + n) ≡ 0
  pub outside : (a : ℕ) → a < p ⊎ p + n < a → m' a ≡ m a

-- The digits before they are turned round.
record Stored (u base p n : ℕ) (m m' : Memory) : Type 0 where
  some_digit : 0 < n
  enough : u < base ^ n
  lead : (k : ℕ) → 0 < k → k < n → base ^ k ≤ u
  chars : (k : ℕ) → k < n → m' (p + k) ≡ digit_at u base k
  outside : (a : ℕ) → a < p ⊎ p + n ≤ a → m' a ≡ m a

digit_at-minus : (u base k : ℕ) → digit_at u base k ≢ b'-'
digit_at-minus u base k e = ground (arith, e)

digit_at-zero : (base k : ℕ) → 0 < base → digit_at 0 base k ≡ b'0'
digit_at-zero base k h =
    let none : 0 / base ^ k ≡ 0 = zero-div (base ^ k) in
    let same : 0 / base ^ k % base ≡ 0 = omega (arith, none) in ap digit_char same

module _ (base : ℕ) (two : 1 < base) where
  abbrev first_loop : (u p : ℕ) → Memory → Outcome (ℕ × Memory)
  first_loop u p m = if u == 0 then ok (p + 1, write m p b'0') else convert 33 u base p m

  some_digits : (n u : ℕ) → u ≢ 0 → u < base ^ n → 0 < n
  some_digits zero u ne h = absurd (omega (arith, pow-zero base))
  some_digits (suc n) u ne h = omega arith

  one_digit : 0 < base ^ 1
  one_digit =
      let e : base ^ 1 ≡ base = pow-suc base 0 ∙ ap (λ z. z * base) (pow-zero base) ∙ omega arith in
      omega (arith, e, two)

  zero-Stored : (p : ℕ) (m : Memory) → Stored 0 base p 1 m (write m p b'0')
  zero-Stored p m = record {
    some_digit = omega arith;
    enough = one_digit;
    lead = λ k a b. absurd (omega arith);
    chars = λ k h. ground (arith, digit_at-zero base k (omega arith));
    outside = λ a h. ground (arith, h);
  }

  first_loop-Stored :
      (u p : ℕ) (m : Memory)
      → u < 2 ^ 32
      → (n : ℕ) × (m' : Memory) × (first_loop u p m ≡ ok (p + n, m')) × Stored u base p n m m'
  first_loop-Stored u p m h = elim (ℕ_discrete u 0) [
    | yes none ↦ (
      1,
      write m p b'0',
      ground arith,
      subst (λ u. Stored u base p 1 m (write m p b'0')) (sym none) (zero-Stored p m),
    )
    | no some ↦
        let le : 2 ≤ base = omega (arith, two) in
        let bound : u < base ^ 32 = omega (arith, h, pow-le-pow_left le 32) in
        let (n, m', _, run, w) = convert-Written base two 32 u p m bound in
        (
          n,
          m',
          ground (arith, run),
          record {
            some_digit = some_digits n u some w.enough;
            enough = w.enough;
            lead = λ k _ lt. w.lead k lt;
            chars = w.chars;
            outside = w.outside;
          },
        )
  ]

  -- The terminator and the reversal.
  turned :
      {u p n : ℕ} {m m1 m2 : Memory}
      → Stored u base p n m m1
      → ((a : ℕ) → m2 a ≡ reversed p (p + n - 1) (write m1 (p + n) 0) a)
      → Printed u base p n m m2
  turned {u} {p} {n} {m} {m1} {m2} s at = record {
    some_digit = s.some_digit;
    enough = s.enough;
    lead = s.lead;
    chars = λ i h.
        let from : p + (p + n - 1) - (p + i) ≡ p + (n - 1 - i) = omega arith in
        let inside : reversed p (p + n - 1) (write m1 (p + n) 0) (p + i)
            ≡ m1 (p + (p + n - 1) - (p + i)) =
          ground arith in
        at (p + i) ∙ inside ∙ ap m1 from ∙ s.chars (n - 1 - i) (omega arith);
    terminator = at (p + n) ∙ ground (arith, s.some_digit);
    outside = λ a h. at a ∙ away a h ∙ s.outside a (omega arith);
  }
    where
      away : (a : ℕ) → a < p ⊎ p + n < a → reversed p (p + n - 1) (write m1 (p + n) 0) a ≡ m1 a
      away a h = ground (arith, s.some_digit, h)

  itoa_digits-run :
      (u str p q : ℕ) (m m1 m3 : Memory)
      → first_loop u p m ≡ ok (q, m1)
      → (if write m1 q 0 str == b'-' then str + 1 else str) ≡ p
      → swap_loop q (q - 1) p (write m1 q 0) ≡ ok m3
      → itoa_digits u str p base m ≡ ok m3
  unfolding itoa_digits
  itoa_digits-run u str p q m m1 m3 run first swapped = rw (run, first, swapped) refl

  -- The test of the first character tells a sign from a digit.
  after_sign :
      {u p n : ℕ} {m m1 : Memory} (str : ℕ)
      → Stored u base p n m m1
      → (p ≡ str) ⊎ (p ≡ str + 1) × (m str ≡ b'-')
      → (if write m1 (p + n) 0 str == b'-' then str + 1 else str) ≡ p
  after_sign {u} {p} {n} {m} {m1} str s (inl e) =
      let here : m1 str ≡ digit_at u base 0 = ap m1 (omega arith) ∙ s.chars 0 s.some_digit in
      ground (arith, here, digit_at-minus u base 0, s.some_digit)
  after_sign {u} {p} {n} {m} {m1} str s (inr (e, minus)) =
      ground (arith, s.outside str (inl (omega arith)), minus, s.some_digit)

  -- `p` is where the digits go: the start of the buffer, or the place behind a minus sign.
  pub itoa_digits-Printed :
      (u str p : ℕ) (m : Memory)
      → u < 2 ^ 32
      → (p ≡ str) ⊎ (p ≡ str + 1) × (m str ≡ b'-')
      → (n : ℕ) × (m' : Memory) × (itoa_digits u str p base m ≡ ok m') × Printed u base p n m m'
  itoa_digits-Printed u str p m small start =
      let (n, m1, run, s) = first_loop-Stored u p m small in
      let m2 : Memory = write m1 (p + n) 0 in
      let (m3, swapped, at) =
        swap_loop-reversed (p + n) (p + n - 1) p m2 (omega (arith, s.some_digit))
          (omega (arith, s.some_digit)) in
      (
        n,
        m3,
        itoa_digits-run u str p (p + n) m m1 m3 run (after_sign str s start) swapped,
        turned s at,
      )

-- `__itoa` of a number that is not negative, or in a base other than 10, in base 2 or more,
-- returns: the buffer has the digits of the bit pattern and a terminator, and nothing else is
-- changed.
pub itoa-Printed :
    (str_int_min value str base : ℕ) (m : Memory)
    → 1 < base
    → value < 2 ^ 32
    → value < int_min ⊎ base ≢ 10
    → (n : ℕ) × (m' : Memory) × (itoa str_int_min value str base m ≡ ok m')
      × Printed value base str n m m'
unfolding itoa
itoa-Printed str_int_min value str base m two small plain =
    let (n, m', run, printed) = itoa_digits-Printed base two value str str m small (inl refl) in
    (n, m', ground (arith, plain, run), printed)

-- `__itoa` in base 10 of a negative int but the least one returns: the buffer has a minus sign,
-- the digits of the number without its sign and a terminator, and nothing else is changed.
pub itoa-negative :
    (str_int_min value str : ℕ) (m : Memory)
    → int_min < value
    → value < 2 ^ 32
    → (n : ℕ) × (m' : Memory) × (itoa str_int_min value str 10 m ≡ ok m')
      × (m' str ≡ b'-')
      × Printed (2 ^ 32 - value) 10 (str + 1) n (write m str b'-') m'
unfolding itoa
itoa-negative str_int_min value str m negative small =
    let (n, m', run, printed) =
      itoa_digits-Printed 10 (omega arith) (2 ^ 32 - value) str (str + 1) (write m str b'-')
        (omega arith) (inr (refl, ground arith)) in
    (n, m', ground (arith, run), printed.outside str (inl (omega arith)) ∙ ground arith, printed)
