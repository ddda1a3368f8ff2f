-- ===== src/Buffer/Miss.antt =====
-- kernel/blk_drv/buffer.c: how `bread` gets a buffer for a block that is not cached.
use rxd_os.Chains.{occurrences}
use rxd_os.Prelude.{
  ℕ, ◌+◌, ◌≤◌, ◌<◌, ◌≡◌, ◌⊎◌, inl, inr, refl, ◌∙◌, ap, true, false, List, [], ◌∷◌, none, some, ok,
  arith, Bool-cases,
}
use rxd_os.Buffer.{Cache, collect, get_free}
use rxd_os.Buffer.Lists.{
  unused, last_of, last_of-occurrences, collect-cached, collect-free, collect-cur,
}

-- There is a buffer to take: one that is free, or else the oldest of the cache is not in use.
pub data Room {D : Type 0} (s : Cache D) : Type 0 where
  one_free : (b : ℕ) (rest : List ℕ) → s.free_list ≡ b ∷ rest → Room s
  oldest_unused :
      (b : ℕ) (rest : List ℕ)
      → s.cached_list ≡ b ∷ rest
      → (s.heads (last_of b rest)).b_count ≡ 0
      → Room s

-- `cur` was got from `s`, and the lists are then `cached` and `free`.
pub record Got {D : Type 0} (s : Cache D) (cur : ℕ) (cached free : List ℕ) : Type 0 where
  pub run : get_free s ≡ ok (cur, record s { cached_list = cached; free_list = free })
  pub is_free : 0 < occurrences cur free
  pub pooled :
      (c : ℕ)
      → occurrences c cached + occurrences c free
        ≡ occurrences c s.cached_list + occurrences c s.free_list
  pub fewer : (c : ℕ) → occurrences c cached ≤ occurrences c s.cached_list
  pub dropped :
      (c : ℕ) → 0 < occurrences c s.cached_list → occurrences c cached ≡ 0 → (s.heads c).b_count ≡ 0
  pub unused_free :
      (c : ℕ) → 0 < occurrences c free → 0 < occurrences c s.free_list ⊎ (s.heads c).b_count ≡ 0

module _ {D : Type 0} (s : Cache D) where
  -- The lists after the free list was filled from the cached one.
  abbrev filled : Cache D
  filled =
      let r = collect s.heads s.cached_list [] none in
      record s { cached_list = r.cached; free_list = r.free }

  Got-free : (b : ℕ) (rest : List ℕ) → s.free_list ≡ b ∷ rest → Got s b s.cached_list s.free_list
  unfolding get_free occurrences
  Got-free b rest e = record {
    run = ground (arith, e);
    is_free = ground (arith, e);
    pooled = λ c. refl;
    fewer = λ c. omega arith;
    dropped = λ c h none. absurd (omega (arith, h, none));
    unused_free = λ c h. inl h;
  }

  no_free : (c : ℕ) → s.free_list ≡ [] → occurrences c s.free_list ≡ 0
  unfolding occurrences
  no_free c empty = ap (occurrences c) empty

  of_free :
      (c : ℕ)
      → unused s.heads c ≡ true
      → occurrences c filled.free_list ≡ occurrences c s.cached_list
  unfolding occurrences
  of_free c idle = ground (arith, idle, collect-free s.heads c s.cached_list [] none)

  not_free : (c : ℕ) → unused s.heads c ≡ false → occurrences c filled.free_list ≡ 0
  unfolding occurrences
  not_free c busy = ground (arith, busy, collect-free s.heads c s.cached_list [] none)

  of_cached : (c : ℕ) → unused s.heads c ≡ true → occurrences c filled.cached_list ≡ 0
  of_cached c idle = ground (arith, idle, collect-cached s.heads c s.cached_list [] none)

  not_cached :
      (c : ℕ)
      → unused s.heads c ≡ false
      → occurrences c filled.cached_list ≡ occurrences c s.cached_list
  not_cached c busy = ground (arith, busy, collect-cached s.heads c s.cached_list [] none)

  found :
      (b : ℕ) (rest : List ℕ)
      → s.cached_list ≡ b ∷ rest
      → s.free_list ≡ []
      → 0 < occurrences (last_of b rest) filled.free_list
      → get_free s ≡ ok (last_of b rest, filled)
  unfolding get_free occurrences
  found b rest e empty held =
      let cur : (collect s.heads s.cached_list [] none).cur ≡ some (last_of b rest) =
        ap (λ l. (collect s.heads l [] none).cur) e ∙ collect-cur s.heads b rest [] none in
      ground (arith, empty, cur, held)

  Got-oldest :
      (b : ℕ) (rest : List ℕ)
      → s.free_list ≡ []
      → s.cached_list ≡ b ∷ rest
      → (s.heads (last_of b rest)).b_count ≡ 0
      → Got s (last_of b rest) filled.cached_list filled.free_list
  Got-oldest b rest empty e resting =
      let held : 0 < occurrences (last_of b rest) filled.free_list = omega (
        arith,
        of_free (last_of b rest) (ground (arith, resting)),
        last_of-occurrences b rest,
        ap (occurrences (last_of b rest)) e,
      ) in
      record {
        run = found b rest e empty held;
        is_free = held;
        pooled = λ c. elim (Bool-cases (unused s.heads c)) [
          | inl idle ↦ omega (arith, no_free c empty, of_free c idle, of_cached c idle)
          | inr busy ↦ omega (arith, no_free c empty, not_free c busy, not_cached c busy)
        ];
        fewer = λ c. elim (Bool-cases (unused s.heads c)) [
          | inl idle ↦ omega (arith, of_cached c idle)
          | inr busy ↦ omega (arith, not_cached c busy)
        ];
        dropped = λ c h gone. elim (Bool-cases (unused s.heads c)) [
          | inl idle ↦ ground (arith, idle)
          | inr busy ↦ absurd (omega (arith, not_cached c busy, h, gone))
        ];
        unused_free = λ c h. elim (Bool-cases (unused s.heads c)) [
          | inl idle ↦ inr (ground (arith, idle))
          | inr busy ↦ absurd (omega (arith, not_free c busy, h))
        ];
      }

  pub get_free-Got : Room s → (cur : ℕ) × (cached free : List ℕ) × Got s cur cached free
  get_free-Got (one_free b rest e) = (b, s.cached_list, s.free_list, Got-free b rest e)
  get_free-Got (oldest_unused b rest e resting) = by_free s.free_list refl
    where
      by_free :
          (l : List ℕ)
          → s.free_list ≡ l
          → (cur : ℕ) × (cached free : List ℕ) × Got s cur cached free
      by_free [] empty =
          (last_of b rest, filled.cached_list, filled.free_list, Got-oldest b rest empty e resting)
      by_free (x ∷ xs) h = (x, s.cached_list, s.free_list, Got-free x xs h)
