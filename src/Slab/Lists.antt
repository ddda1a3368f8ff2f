-- ===== src/Slab/Lists.antt =====
-- mm/slab.c: the three lists of a cache, and a slab that moves from one of them to another.
use native.Mathlib.Decide.{dec_lt}
use rxd_os.Chains.{occurrences, list_del, list_del-occurrences, list_del_self}
use rxd_os.Prelude.{ℕ, ◌+◌, ◌≤◌, ◌≡◌, ◌≢◌, inl, inr, List, ◌∷◌, arith, ◌==◌, if◌then◌else◌}
use rxd_os.Slab.{KmemCache, Slabs, bufctl_end, unlink}

-- How often a slab is in the lists of a cache.
abbrev pub in_lists : (slab : ℕ) → KmemCache → ℕ
in_lists slab c =
    occurrences slab c.slabs_partial + occurrences slab c.slabs_full + occurrences slab c.slabs_free

-- A slab is in the first of three lists, once, and in none of the others.
abbrev pub OnlyIn : (slab : ℕ) (here others others' : List ℕ) → Type 0
OnlyIn slab here others others' =
    (occurrences slab here ≡ 1) × (occurrences slab others ≡ 0) × (occurrences slab others' ≡ 0)

-- A slab is in the lists of the caches as often.
abbrev pub SameLists : (b : ℕ) → (c c' : KmemCache) → Type 0
SameLists b c c' =
    (occurrences b c'.slabs_partial ≡ occurrences b c.slabs_partial)
    × (occurrences b c'.slabs_full ≡ occurrences b c.slabs_full)
    × (occurrences b c'.slabs_free ≡ occurrences b c.slabs_free)

-- What a step of a slab leaves as it was: the pages, the other slabs and their places in the lists, and
-- the other caches.
pub record OthersKept {G : Type 0} (slab : ℕ) (s s' : Slabs G) : Type 0 where
  pub same_pages : s'.pages ≡ s.pages
  pub same_slabs : (a : ℕ) → a ≢ slab → s'.slabs a ≡ s.slabs a
  pub same_caches : (a : ℕ) → a ≢ (s.slabs slab).cache → s'.caches a ≡ s.caches a
  pub same_lists :
      (b : ℕ)
      → b ≢ slab
      → SameLists b (s.caches (s.slabs slab).cache) (s'.caches (s.slabs slab).cache)

list_del-once : (b : ℕ) (xs : List ℕ) → occurrences b xs ≤ 1 → occurrences b (list_del b xs) ≡ 0
list_del-once b xs once = elim (dec_lt 0 (occurrences b xs)) [
  | yes there ↦ omega (arith, list_del_self b xs there, once)
  | no absent ↦ elim (list_del-occurrences b b xs) [
    | inl keep ↦ omega (arith, keep, absent)
    | inr (_, less) ↦ omega (arith, less, absent)
  ]
]

list_del-other : (b x : ℕ) (xs : List ℕ) → x ≢ b → occurrences x (list_del b xs) ≡ occurrences x xs
list_del-other b x xs ne = elim (list_del-occurrences b x xs) [
  | inl keep ↦ keep
  | inr (same, _) ↦ absurd (ne same)
]

unlink-none :
    (slab : ℕ) (c : KmemCache)
    → in_lists slab c ≡ 1
    → (let c' = unlink slab c in
        (occurrences slab c'.slabs_partial ≡ 0)
        × (occurrences slab c'.slabs_full ≡ 0)
        × (occurrences slab c'.slabs_free ≡ 0))
unlink-none slab c once = (
  list_del-once slab c.slabs_partial (omega (arith, once)),
  list_del-once slab c.slabs_full (omega (arith, once)),
  list_del-once slab c.slabs_free (omega (arith, once)),
)

unlink-others : (slab : ℕ) (c : KmemCache) (b : ℕ) → b ≢ slab → SameLists b c (unlink slab c)
unlink-others slab c b ne = (
  list_del-other slab b c.slabs_partial ne,
  list_del-other slab b c.slabs_full ne,
  list_del-other slab b c.slabs_free ne,
)

-- Where _slab_alloc puts the slab, by what is left of its list.
abbrev pub after_alloc : (slab next : ℕ) → KmemCache → KmemCache
after_alloc slab next c =
    let c = unlink slab c in
    if next == bufctl_end
    then record c { slabs_full = slab ∷ c.slabs_full }
    else record c { slabs_partial = slab ∷ c.slabs_partial }

pub after_alloc-sizes :
    (slab next : ℕ) (c : KmemCache)
    → ((after_alloc slab next c).objsz ≡ c.objsz) × ((after_alloc slab next c).objcnt ≡ c.objcnt)
after_alloc-sizes slab next c = (ground arith, ground arith)

pub after_alloc-full :
    (slab next : ℕ) (c : KmemCache)
    → in_lists slab c ≡ 1
    → next ≡ bufctl_end
    → (let c' = after_alloc slab next c in OnlyIn slab c'.slabs_full c'.slabs_partial c'.slabs_free)
unfolding occurrences
after_alloc-full slab next c once e =
    let (p, q, r) = unlink-none slab c once in
    (ground (arith, e, p, q, r), ground (arith, e, p, q, r), ground (arith, e, p, q, r))

pub after_alloc-partial :
    (slab next : ℕ) (c : KmemCache)
    → in_lists slab c ≡ 1
    → next ≢ bufctl_end
    → (let c' = after_alloc slab next c in OnlyIn slab c'.slabs_partial c'.slabs_full c'.slabs_free)
unfolding occurrences
after_alloc-partial slab next c once ne =
    let (p, q, r) = unlink-none slab c once in
    (ground (arith, ne, p, q, r), ground (arith, ne, p, q, r), ground (arith, ne, p, q, r))

pub after_alloc-others :
    (slab next : ℕ) (c : KmemCache) (b : ℕ) → b ≢ slab → SameLists b c (after_alloc slab next c)
unfolding occurrences
after_alloc-others slab next c b ne =
    let (p, q, r) = unlink-others slab c b ne in
    (ground (arith, p, q, r), ground (arith, p, q, r), ground (arith, p, q, r))

-- Where _slab_free puts it.
abbrev pub after_free : (slab inuse : ℕ) → KmemCache → KmemCache
after_free slab inuse c =
    let c = unlink slab c in
    if inuse == 0
    then record c { slabs_free = slab ∷ c.slabs_free }
    else record c { slabs_partial = slab ∷ c.slabs_partial }

pub after_free-sizes :
    (slab inuse : ℕ) (c : KmemCache)
    → ((after_free slab inuse c).objsz ≡ c.objsz) × ((after_free slab inuse c).objcnt ≡ c.objcnt)
after_free-sizes slab inuse c = (ground arith, ground arith)

pub after_free-free :
    (slab inuse : ℕ) (c : KmemCache)
    → in_lists slab c ≡ 1
    → inuse ≡ 0
    → (let c' = after_free slab inuse c in OnlyIn slab c'.slabs_free c'.slabs_partial c'.slabs_full)
unfolding occurrences
after_free-free slab inuse c once e =
    let (p, q, r) = unlink-none slab c once in
    (ground (arith, e, p, q, r), ground (arith, e, p, q, r), ground (arith, e, p, q, r))

pub after_free-partial :
    (slab inuse : ℕ) (c : KmemCache)
    → in_lists slab c ≡ 1
    → inuse ≢ 0
    → (let c' = after_free slab inuse c in OnlyIn slab c'.slabs_partial c'.slabs_full c'.slabs_free)
unfolding occurrences
after_free-partial slab inuse c once ne =
    let (p, q, r) = unlink-none slab c once in
    (ground (arith, ne, p, q, r), ground (arith, ne, p, q, r), ground (arith, ne, p, q, r))

pub after_free-others :
    (slab inuse : ℕ) (c : KmemCache) (b : ℕ) → b ≢ slab → SameLists b c (after_free slab inuse c)
unfolding occurrences
after_free-others slab inuse c b ne =
    let (p, q, r) = unlink-others slab c b ne in
    (ground (arith, p, q, r), ground (arith, p, q, r), ground (arith, p, q, r))
