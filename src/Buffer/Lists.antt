-- ===== src/Buffer/Lists.antt =====
-- kernel/blk_drv/buffer.c: the two lists of buffers, by how often a buffer occurs in them.
use native.Mathlib.Decide.{ℕ_discrete}
use rxd_os.Chains.{occurrences}
use rxd_os.Prelude.{
  ℕ, ◌+◌, ◌<◌, ◌≡◌, ◌⊎◌, inl, inr, refl, sym, ◌∙◌, ap, Bool, true, false, List, [], ◌∷◌, Option,
  none, some, arith, ◌==◌, if◌then◌else◌, Bool-cases,
}
use rxd_os.Buffer.{Heads, find_hit, is_hit, collect}

-- The oldest buffer of a list that begins with `b`.
pub last_of : ℕ → List ℕ → ℕ
last_of b [] = b
last_of b (x ∷ xs) = last_of x xs

pub last_of-occurrences :
    (b : ℕ) (cached : List ℕ) → 0 < occurrences (last_of b cached) (b ∷ cached)
unfolding occurrences last_of
last_of-occurrences b [] = ground arith
last_of-occurrences b (x ∷ cached) = ground (arith, last_of-occurrences x cached)

module _ (heads : Heads) where
  -- `b` is not in use.
  abbrev pub unused : ℕ → Bool
  unused b = (heads b).b_count == 0

  pub collect-cached :
      (b : ℕ) (cached free : List ℕ) (cur : Option ℕ)
      → occurrences b (collect heads cached free cur).cached
        ≡ (if unused b then 0 else occurrences b cached)
  unfolding occurrences collect
  collect-cached b [] free cur = ground arith
  collect-cached b (x ∷ cached) free cur =
      let rest = collect-cached b cached (if unused x then x ∷ free else free) (some x) in
      elim (ℕ_discrete x b) [
        | yes here ↦
            let same : unused x ≡ unused b = ap unused here in
            elim (Bool-cases (unused x)) [
              | inl free ↦ ground (arith, here, same, free, rest)
              | inr busy ↦ ground (arith, here, same, busy, rest)
            ]
        | no other ↦ elim (Bool-cases (unused x)) [
          | inl free ↦ ground (arith, other, free, rest)
          | inr busy ↦ ground (arith, other, busy, rest)
        ]
      ]

  pub collect-free :
      (b : ℕ) (cached free : List ℕ) (cur : Option ℕ)
      → occurrences b (collect heads cached free cur).free
        ≡ occurrences b free + (if unused b then occurrences b cached else 0)
  unfolding occurrences collect
  collect-free b [] free cur = ground arith
  collect-free b (x ∷ cached) free cur =
      let rest = collect-free b cached (if unused x then x ∷ free else free) (some x) in
      elim (ℕ_discrete x b) [
        | yes here ↦
            let same : unused x ≡ unused b = ap unused here in
            elim (Bool-cases (unused x)) [
              | inl free ↦ ground (arith, here, same, free, rest)
              | inr busy ↦ ground (arith, here, same, busy, rest)
            ]
        | no other ↦ elim (Bool-cases (unused x)) [
          | inl free ↦ ground (arith, other, free, rest)
          | inr busy ↦ ground (arith, other, busy, rest)
        ]
      ]

  pub collect-cur :
      (b : ℕ) (cached free : List ℕ) (cur : Option ℕ)
      → (collect heads (b ∷ cached) free cur).cur ≡ some (last_of b cached)
  unfolding collect last_of
  collect-cur b [] free cur = ground arith
  collect-cur b (x ∷ cached) free cur =
      ground (arith, collect-cur x cached (if unused b then b ∷ free else free) (some b))

  pub find_hit-cases :
      (dev blk_nr : ℕ) (cached : List ℕ)
      → ((c : ℕ) × (find_hit dev blk_nr heads cached ≡ some c)
          × (0 < occurrences c cached)
          × (is_hit dev blk_nr (heads c) ≡ true))
        ⊎ (find_hit dev blk_nr heads cached ≡ none)
          × ((c : ℕ) → 0 < occurrences c cached → is_hit dev blk_nr (heads c) ≡ false)
  unfolding occurrences find_hit
  find_hit-cases dev blk_nr [] = inr (refl, λ c h. absurd (omega (arith, h)))
  find_hit-cases dev blk_nr (x ∷ cached) = elim (Bool-cases (is_hit dev blk_nr (heads x))) [
    | inl hit ↦ inl (x, ground (arith, hit), ground arith, hit)
    | inr miss ↦ elim (find_hit-cases dev blk_nr cached) [
      | inl (c, run, h, hit) ↦ inl (c, ground (arith, miss, run), ground (arith, h), hit)
      | inr (run, all) ↦ inr (
        ground (arith, miss, run),
        λ c h. elim (ℕ_discrete x c) [
          | yes here ↦ ap (λ y. is_hit dev blk_nr (heads y)) (sym here) ∙ miss
          | no other ↦ all c (ground (arith, h, other))
        ],
      )
    ]
  ]
