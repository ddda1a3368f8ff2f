-- ===== src/Chains.antt =====
-- include/list.h: a list of the kernel as the sequence of its nodes, by their addresses.
use native.Mathlib.Decide.{ℕ_discrete}
use rxd_os.Prelude.{
  ℕ, ◌+◌, ◌≤◌, ◌<◌, ◌≡◌, ◌⊎◌, inl, inr, refl, List, [], ◌∷◌, arith, length, ◌==◌, if◌then◌else◌,
}

-- `list_del` and `hlist_del` of a node of the list.
unfoldable pub list_del : ℕ → List ℕ → List ℕ
list_del b [] = []
list_del b (x ∷ xs) = if x == b then xs else x ∷ list_del b xs

-- How often a node is in a list.
unfoldable pub occurrences : ℕ → List ℕ → ℕ
occurrences b [] = 0
occurrences b (x ∷ xs) = (if x == b then 1 else 0) + occurrences b xs

pub list_del-occurrences :
    (b x : ℕ) (xs : List ℕ)
    → occurrences x (list_del b xs) ≡ occurrences x xs
      ⊎ (x ≡ b) × (occurrences x (list_del b xs) + 1 ≡ occurrences x xs)
unfolding occurrences list_del
list_del-occurrences b x [] = inl refl
list_del-occurrences b x (y ∷ ys) = elim (ℕ_discrete y b) [
  | yes here ↦ elim (ℕ_discrete x b) [
    | yes same ↦ inr (same, ground (arith, here, same))
    | no other ↦ inl (ground (arith, here, other))
  ]
  | no later ↦ elim (list_del-occurrences b x ys) [
    | inl keep ↦ inl (ground (arith, later, keep))
    | inr (same, less) ↦ inr (same, ground (arith, later, less))
  ]
]

pub list_del_self :
    (b : ℕ) (xs : List ℕ)
    → 0 < occurrences b xs
    → occurrences b (list_del b xs) + 1 ≡ occurrences b xs
unfolding occurrences list_del
list_del_self b [] h = absurd (omega arith)
list_del_self b (y ∷ ys) h = elim (ℕ_discrete y b) [
  | yes here ↦ ground (arith, here)
  | no later ↦ ground (arith, later, list_del_self b ys)
]

pub length-list_del :
    (b : ℕ) (xs : List ℕ) → 0 < occurrences b xs → length (list_del b xs) + 1 ≡ length xs
unfolding occurrences list_del
length-list_del b [] h = absurd (omega (arith, h))
length-list_del b (x ∷ xs) h = elim (ℕ_discrete x b) [
  | yes here ↦ ground (arith, here)
  | no later ↦
      let rest = length-list_del b xs (ground (arith, later, h)) in ground (arith, later, rest)
]

pub occurrences-length : (b : ℕ) (xs : List ℕ) → occurrences b xs ≤ length xs
unfolding occurrences
occurrences-length b [] = omega arith
occurrences-length b (x ∷ xs) = ground (arith, occurrences-length b xs)
