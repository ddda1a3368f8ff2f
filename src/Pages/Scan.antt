-- ===== src/Pages/Scan.antt =====
-- mm/memory.c: the search of `alloc_pages` is a first fit.
use native.Mathlib.Decide.{ℕ_discrete, dec_lt}
use rxd_os.Prelude.{
  ℕ, zero, suc, ◌+◌, ◌-◌, ◌≤◌, ◌<◌, ◌≡◌, ◌≢◌, refl, sym, ◌∙◌, ap, ◌⊎◌, inl, inr, List, ok, arith,
  length, get_or, load, load-ok,
}
use rxd_os.Pages.{scan}

-- Page `i` is free. A page that the map does not have is not.
abbrev pub Free : List ℕ → ℕ → Type 0
Free map i = get_or map i 1 ≡ 0

-- The `n` pages from `s` on are free.
abbrev pub Run : List ℕ → (s n : ℕ) → Type 0
Run map s n = (i : ℕ) → s ≤ i → i < s + n → Free map i

-- No `n` pages in a row, all below `e`, are free.
abbrev pub NoRun : List ℕ → (n e : ℕ) → Type 0
NoRun map n e = (s : ℕ) → s + n ≤ e → ¬ Run map s n

-- The state of the search before page `i`: the `accum` pages below `i` are free, the one below
-- those, if there is one, is not, and no block that is long enough ends before.
record Searching (map : List ℕ) (n i accum : ℕ) : Type 0 where
  below : accum ≤ i
  short : accum < n
  run : Run map (i - accum) accum
  edge : accum < i → ¬ Free map (i - accum - 1)
  none : NoRun map n i

-- How the search ends.
abbrev pub Found : List ℕ → (n size : ℕ) → ℕ × ℕ → Type 0
Found map n size (i, accum) =
    (i ≡ size) × NoRun map n size
    ⊎ (i < size) × (accum ≡ n) × (n ≤ i + 1) × Run map (i + 1 - n) n × NoRun map n i

Searching-used :
    {map : List ℕ} {n i accum : ℕ}
    → Searching map n i accum
    → ¬ Free map i
    → Searching map n (i + 1) 0
Searching-used {map} {n} {i} h used = record {
  below = omega arith;
  short = omega (arith, h.short);
  run = λ j a b. absurd (omega arith);
  edge = λ _ free. used (sym (ap (λ z. get_or map z 1) (omega arith)) ∙ free);
  none = λ s e r. elim (dec_lt i (s + n)) [
    | yes ends ↦ used (r i (omega (arith, h.short)) ends)
    | no ends ↦ h.none s (omega arith) r
  ];
}

Searching-longer :
    {map : List ℕ} {n i accum : ℕ}
    → Searching map n i accum
    → Free map i
    → accum + 1 ≢ n
    → Searching map n (i + 1) (accum + 1)
Searching-longer {map} {n} {i} {accum} h free ne = record {
  below = omega (arith, h.below);
  short = omega (arith, h.short);
  run = longer;
  edge = λ lt f. h.edge (omega arith) (ap (λ z. get_or map z 1) (omega arith) ∙ f);
  none = λ s e r. elim (dec_lt i (s + n)) [
    | yes ends ↦
        h.edge (omega (arith, h.short))
          (r (i - accum - 1) (omega (arith, h.short)) (omega (arith, h.short)))
    | no ends ↦ h.none s (omega arith) r
  ];
}
  where
    longer : Run map (i + 1 - (accum + 1)) (accum + 1)
    longer j a b = elim (ℕ_discrete i j) [
      | yes e ↦ ap (λ z. get_or map z 1) (sym e) ∙ free
      | no ne ↦ h.run j (omega arith) (omega (arith, h.below))
    ]

Searching-done :
    {map : List ℕ} {n i accum : ℕ}
    → Searching map n i accum
    → Free map i
    → accum + 1 ≡ n
    → Run map (i + 1 - n) n
Searching-done {map} {n} {i} {accum} h free e j a b = elim (ℕ_discrete i j) [
  | yes e ↦ ap (λ z. get_or map z 1) (sym e) ∙ free
  | no ne ↦ h.run j (omega (arith, h.below)) (omega (arith, h.below))
]

scan-Found :
    (rounds i accum n : ℕ) (map : List ℕ)
    → i + rounds ≡ length map
    → Searching map n i accum
    → (out : ℕ × ℕ) × (scan rounds i accum n map ≡ ok out) × Found map n (length map) out
unfolding scan
scan-Found zero i accum n map e h =
    ((i, accum), refl, inl (omega arith, λ b ends. h.none b (omega arith)))
scan-Found (suc rounds) i accum n map e h = elim (ℕ_discrete (get_or map i 1) 0) [
  | yes free ↦ elim (ℕ_discrete (accum + 1) n) [
    | yes full ↦ (
      (i, accum + 1),
      ground (arith, read),
      inr (omega arith, full, omega (arith, h.below), Searching-done h free full, h.none),
    )
    | no short ↦
        let (out, run, found) =
          scan-Found rounds (i + 1) (accum + 1) n map (omega arith)
            (Searching-longer h free short) in
        (out, ground (arith, read), found)
  ]
  | no used ↦
      let (out, run, found) =
        scan-Found rounds (i + 1) 0 n map (omega arith) (Searching-used h used) in
      (out, ground (arith, read, h.short), found)
]
  where
    read : load map i ≡ ok (get_or map i 1)
    read = load-ok map i 1 (omega arith)

-- The search for a block of `n` pages, `n` not 0, from the start of a map returns: at the end of
-- the map if no block fits, else at the last page of the first block that fits.
pub scan-first_fit :
    (n : ℕ) (map : List ℕ)
    → 0 < n
    → (out : ℕ × ℕ) × (scan (length map) 0 0 n map ≡ ok out) × Found map n (length map) out
scan-first_fit n map h = scan-Found (length map) 0 0 n map (omega arith) (record {
  below = omega arith;
  short = h;
  run = λ j a b. absurd (omega arith);
  edge = λ lt. absurd (omega arith);
  none = λ s e r. absurd (omega arith);
})
