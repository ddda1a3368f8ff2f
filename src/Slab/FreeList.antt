-- ===== src/Slab/FreeList.antt =====
-- mm/slab.c: the free list of a slab, which goes through its array.
use mathlib.Core.Path.{subst}
use native.Mathlib.Decide.{ℕ_discrete}
use rxd_os.Chains.{occurrences}
use rxd_os.Prelude.{
  ℕ, zero, suc, ◌+◌, ◌-◌, ◌≤◌, ◌<◌, ◌≡◌, ◌≢◌, ◌⊎◌, refl, sym, ◌∙◌, ap, List, [], ◌∷◌, ok, arith,
  load-ok, length, get_or, set, get_or-set_ne, get_or-set_self, length-set,
}
use rxd_os.Slab.{bufctl_end, count_free, count_up}

-- From `next` on the array leads through the objects `xs` to the end mark.
unfoldable pub Chain : List ℕ → (next : ℕ) → List ℕ → Type 0
Chain bufctl next [] = next ≡ bufctl_end
Chain bufctl next (x ∷ xs) = (next ≡ x) × (x < length bufctl) × Chain bufctl (get_or bufctl x 0) xs

-- The walk of the check counts the chain.
pub count_free-Chain :
    (fuel next : ℕ) (bufctl xs : List ℕ)
    → length bufctl < bufctl_end
    → Chain bufctl next xs
    → length xs ≤ fuel
    → count_free fuel next bufctl ≡ ok (length xs)
unfolding count_free Chain
count_free-Chain zero next bufctl [] small chain h = ground (arith, chain)
count_free-Chain zero next bufctl (x ∷ xs) small chain h = absurd (omega (arith, h))
count_free-Chain (suc fuel) next bufctl [] small chain h = ground (arith, chain)
count_free-Chain (suc fuel) next bufctl (x ∷ xs) small (here, inside, rest) h =
    let run = count_free-Chain fuel (get_or bufctl x 0) bufctl xs small rest (omega (arith, h)) in
    let inside' : next < length bufctl = omega (arith, here, inside) in
    let value : get_or bufctl next 0 ≡ get_or bufctl x 0 = ap (λ i. get_or bufctl i 0) here in
    let ne : next ≢ bufctl_end = λ e. absurd (omega (arith, e, here, inside, small)) in
    let one : length xs + 1 ≡ suc (length xs) = omega arith in
    let more : count_free fuel (get_or bufctl next 0) bufctl ≡ ok (length xs) =
      ap (λ v. count_free fuel v bufctl) value ∙ run in
    ground (arith, ne, load-ok bufctl next 0 inside', more, one)

-- A change of an entry that is not on the chain.
pub Chain-set :
    (next y v : ℕ) (bufctl xs : List ℕ)
    → Chain bufctl next xs
    → occurrences y xs ≡ 0
    → Chain (set bufctl y v) next xs
unfolding Chain occurrences
Chain-set next y v bufctl [] chain h = chain
Chain-set next y v bufctl (x ∷ xs) (here, inside, rest) h =
    let ne : y ≢ x = ground (arith, h) in
    let rest' = Chain-set (get_or bufctl x 0) y v bufctl xs rest (ground (arith, h)) in
    (
      here,
      omega (arith, inside, length-set bufctl y v),
      subst (λ n. Chain (set bufctl y v) n xs) (sym (get_or-set_ne bufctl y x v 0 ne)) rest',
    )

-- The numbers from `i` on.
unfoldable pub from : (rounds i : ℕ) → List ℕ
from zero i = []
from (suc rounds) i = i ∷ from rounds (i + 1)

pub length-from : (n i : ℕ) → length (from n i) ≡ n
unfolding from
length-from zero i = refl
length-from (suc n) i = ground (arith, length-from n (i + 1))

pub from-occurrences_outside : (n i x : ℕ) → x < i ⊎ i + n ≤ x → occurrences x (from n i) ≡ 0
unfolding from occurrences
from-occurrences_outside zero i x h = refl
from-occurrences_outside (suc n) i x h = ground (arith, h, from-occurrences_outside n (i + 1) x)

pub from-occurrences_inside : (n i x : ℕ) → i ≤ x → x < i + n → occurrences x (from n i) ≡ 1
unfolding from occurrences
from-occurrences_inside zero i x a b = absurd (omega (arith, a, b))
from-occurrences_inside (suc n) i x a b = elim (ℕ_discrete i x) [
  | yes here ↦ ground (arith, here, from-occurrences_outside n (i + 1) x)
  | no later ↦ ground (arith, later, a, b, from-occurrences_inside n (i + 1) x)
]

pub length-count_up : (n i : ℕ) → length (count_up n i) ≡ n
unfolding count_up
length-count_up zero i = refl
length-count_up (suc n) i = ground (arith, length-count_up n (i + 1))

count_up-entry : (n i j : ℕ) → j < n → get_or (count_up n i) j 0 ≡ i + j + 1
unfolding count_up
count_up-entry zero i j h = absurd (omega (arith, h))
count_up-entry (suc n) i zero h = omega arith
count_up-entry (suc n) i (suc j) h = omega (arith, count_up-entry n (i + 1) j (omega (arith, h)))

-- The array that _create_slab makes for `n` objects.
abbrev pub new_bufctl : ℕ → List ℕ
new_bufctl n = set (count_up n 0) (n - 1) bufctl_end

pub length-new_bufctl : (n : ℕ) → length (new_bufctl n) ≡ n
length-new_bufctl n = length-set (count_up n 0) (n - 1) bufctl_end ∙ length-count_up n 0

new_bufctl-entry : (n j : ℕ) → j + 1 < n → get_or (new_bufctl n) j 0 ≡ j + 1
new_bufctl-entry n j h =
    get_or-set_ne (count_up n 0) (n - 1) j bufctl_end 0 (λ e. absurd (omega (arith, h, e)))
    ∙ omega (arith, count_up-entry n 0 j (omega (arith, h)))

new_bufctl-last : (n : ℕ) → 0 < n → get_or (new_bufctl n) (n - 1) 0 ≡ bufctl_end
new_bufctl-last n h =
    get_or-set_self (count_up n 0) (n - 1) bufctl_end 0 (omega (arith, h, length-count_up n 0))

Chain-from : (n k i : ℕ) → i + suc k ≡ n → Chain (new_bufctl n) i (from (suc k) i)
unfolding Chain from
Chain-from n zero i e =
    let last : n - 1 ≡ i = omega (arith, e) in
    let end : get_or (new_bufctl n) i 0 ≡ bufctl_end =
      ap (λ j. get_or (new_bufctl n) j 0) (sym last) ∙ new_bufctl-last n (omega (arith, e)) in
    (refl, omega (arith, e, length-new_bufctl n), end)
Chain-from n (suc k) i e =
    let rest = Chain-from n k (i + 1) (omega (arith, e)) in
    let entry = new_bufctl-entry n i (omega (arith, e)) in
    (
      refl,
      omega (arith, e, length-new_bufctl n),
      subst (λ v. Chain (new_bufctl n) v (from (suc k) (i + 1))) (sym entry) rest,
    )

-- Every object of a new slab is on its chain.
pub Chain-new_bufctl : (n : ℕ) → 0 < n → Chain (new_bufctl n) 0 (from n 0)
Chain-new_bufctl zero h = absurd (omega (arith, h))
Chain-new_bufctl (suc k) h = Chain-from (suc k) k 0 (omega arith)
