-- ===== src/Pages/Alloc.antt =====
-- mm/memory.c: what `alloc_pages` and `free_pages` do to the map.
use native.Mathlib.Decide.{dec_lt}
use rxd_os.Prelude.{
  ℕ, zero, suc, ◌+◌, ◌≤◌, ◌<◌, ◌≡◌, refl, ◌∙◌, ap, ◌⊎◌, inl, inr, List, ok, arith, length, get_or,
  set, load-ok, store-ok, length-set, get_or-set_self, get_or-set_ne,
}
use rxd_os.Pages.{mark, release}
use rxd_os.Pages.Scan.{Free, Run}

-- `map'` has the value `v` at the `n` pages from `s` on, and is `map` elsewhere.
pub record Changed (s n v : ℕ) (map map' : List ℕ) : Type 0 where
  pub same_length : length map' ≡ length map
  pub inside : (i : ℕ) → s ≤ i → i < s + n → get_or map' i 1 ≡ v
  pub outside : (i : ℕ) → i < s ⊎ s + n ≤ i → get_or map' i 1 ≡ get_or map i 1

pub get_or_at : (map : List ℕ) (i j : ℕ) → i ≡ j → get_or map i 1 ≡ get_or map j 1
get_or_at map i j e = ap (λ z. get_or map z 1) e

-- The last page first.
Changed-last :
    {s n v : ℕ} {map map' : List ℕ}
    → s + n < length map
    → Changed s n v (set map (s + n) v) map'
    → Changed s (suc n) v map map'
Changed-last {s} {n} {v} {map} {map'} h c = record {
  same_length = c.same_length ∙ length-set map (s + n) v;
  inside = λ i a b. elim (dec_lt i (s + n)) [
    | yes lt ↦ c.inside i a lt
    | no ge ↦
        get_or_at map' i (s + n) (omega arith)
        ∙ c.outside (s + n) (inr (omega arith))
        ∙ get_or-set_self map (s + n) v 1 h
  ];
  outside = λ i out. elim out [
    | inl a ↦ c.outside i (inl a) ∙ get_or-set_ne map (s + n) i v 1 (omega arith)
    | inr a ↦ c.outside i (inr (omega arith)) ∙ get_or-set_ne map (s + n) i v 1 (omega arith)
  ];
}

-- The first page first.
pub Changed-first :
    {s n v : ℕ} {map map' : List ℕ}
    → s < length map
    → Changed (s + 1) n v (set map s v) map'
    → Changed s (suc n) v map map'
Changed-first {s} {n} {v} {map} {map'} h c = record {
  same_length = c.same_length ∙ length-set map s v;
  inside = λ i a b. elim (dec_lt s i) [
    | yes lt ↦ c.inside i (omega arith) (omega arith)
    | no ge ↦
        get_or_at map' i s (omega arith)
        ∙ c.outside s (inl (omega arith))
        ∙ get_or-set_self map s v 1 h
  ];
  outside = λ i out. elim out [
    | inl a ↦ c.outside i (inl (omega arith)) ∙ get_or-set_ne map s i v 1 (omega arith)
    | inr a ↦ c.outside i (inr (omega arith)) ∙ get_or-set_ne map s i v 1 (omega arith)
  ];
}

mark-step :
    (n s : ℕ) (map : List ℕ)
    → s + n < length map
    → Free map (s + n)
    → mark (suc n) (s + suc n) map ≡ mark n (s + n) (set map (s + n) 1)
unfolding mark
mark-step n s map h free = ground (arith, load-ok map (s + n) 1 h, store-ok map (s + n) 1 h)

pub mark-Changed :
    (n s : ℕ) (map : List ℕ)
    → s + n ≤ length map
    → Run map s n
    → (map' : List ℕ) × (mark n (s + n) map ≡ ok (s, map')) × Changed s n 1 map map'
unfolding mark
mark-Changed zero s map h run = (
  map,
  ground arith,
  record { same_length = refl; inside = λ i a b. absurd (omega arith); outside = λ i a. refl },
)
mark-Changed (suc n) s map h run =
    let (map', e, c) =
      mark-Changed n s (set map (s + n) 1) (omega (arith, length-set map (s + n) 1))
        (λ i a b. get_or-set_ne map (s + n) i 1 1 (omega arith) ∙ run i a (omega arith)) in
    (
      map',
      mark-step n s map (omega arith) (run (s + n) (omega arith) (omega arith)) ∙ e,
      Changed-last (omega arith) c,
    )

release-step :
    (n s : ℕ) (map : List ℕ)
    → s < length map
    → get_or map s 1 ≡ 1
    → release (suc n) s map ≡ release n (s + 1) (set map s 0)
unfolding release
release-step n s map h used = ground (arith, load-ok map s 1 h, store-ok map s 0 h)

-- Pages whose counts are 1 are given back.
pub release-Changed :
    (n s : ℕ) (map : List ℕ)
    → s + n ≤ length map
    → ((i : ℕ) → s ≤ i → i < s + n → get_or map i 1 ≡ 1)
    → (map' : List ℕ) × (release n s map ≡ ok map') × Changed s n 0 map map'
unfolding release
release-Changed zero s map h used = (
  map,
  refl,
  record { same_length = refl; inside = λ i a b. absurd (omega arith); outside = λ i a. refl },
)
release-Changed (suc n) s map h used =
    let (map', e, c) =
      release-Changed n (s + 1) (set map s 0) (omega (arith, length-set map s 0))
        (λ i a b. get_or-set_ne map s i 0 1 (omega arith) ∙ used i (omega arith) (omega arith)) in
    (
      map',
      release-step n s map (omega arith) (used s (omega arith) (omega arith)) ∙ e,
      Changed-first (omega arith) c,
    )
