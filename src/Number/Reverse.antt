-- ===== src/Number/Reverse.antt =====
-- lib/printf.c: the last loop of `__itoa` turns the digits round.
use native.Mathlib.Decide.{ℕ_discrete, dec_lt}
use rxd_os.Prelude.{
  ℕ, zero, suc, ◌+◌, ◌-◌, ◌≤◌, ◌<◌, ◌≡◌, ap, ◌∙◌, ok, arith, ◌&&◌, leb, if◌then◌else◌,
}
use rxd_os.Memory.{Memory, write}
use rxd_os.Number.{swap_loop}

-- `m` with the bytes from `first` to `last` in the opposite order.
abbrev pub reversed : (first last : ℕ) → Memory → Memory
reversed first last m a = if leb first a && leb a last then m (first + last - a) else m a

reversed-swap :
    (first last a : ℕ) (m : Memory)
    → first < last
    → reversed (first + 1) (last - 1) (write (write m last (m first)) first (m last)) a
      ≡ reversed first last m a
reversed-swap first last a m lt = elim (ℕ_discrete first a) [
  | yes e ↦ let far : first + last - a ≡ last = omega arith in ground (arith, ap m far)
  | no ne ↦ elim (ℕ_discrete last a) [
    | yes e ↦ let far : first + last - a ≡ first = omega arith in ground (arith, ap m far)
    | no ne' ↦
        let same : first + 1 + (last - 1) - a ≡ first + last - a = omega arith in
        ground (arith, ap m same)
  ]
]

reversed_short : (first last a : ℕ) (m : Memory) → last ≤ first → m a ≡ reversed first last m a
reversed_short first last a m h = elim (ℕ_discrete first a) [
  | yes e ↦ elim (ℕ_discrete first last) [
    | yes f ↦ let same : a ≡ first + last - a = omega arith in ground (arith, ap m same)
    | no ne ↦ ground arith
  ]
  | no ne ↦ ground arith
]

pub swap_loop-reversed :
    (fuel last first : ℕ) (m : Memory)
    → 0 < fuel
    → last < first + fuel
    → (m' : Memory) × (swap_loop fuel last first m ≡ ok m')
      × ((a : ℕ) → m' a ≡ reversed first last m a)
unfolding swap_loop
swap_loop-reversed zero last first m pos h = absurd (omega arith)
swap_loop-reversed (suc fuel) last first m pos h = elim (dec_lt first last) [
  | yes lt ↦
      let m1 : Memory = write (write m last (m first)) first (m last) in
      let (m', run, at) =
        swap_loop-reversed fuel (last - 1) (first + 1) m1 (omega arith) (omega arith) in
      (m', ground arith, λ a. at a ∙ reversed-swap first last a m lt)
  | no ge ↦ (m, ground arith, λ a. reversed_short first last a m (omega arith))
]
