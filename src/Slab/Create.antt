-- ===== src/Slab/Create.antt =====
-- mm/slab.c: `_create_slab` makes a slab whose objects are all free.
use mathlib.Core.Path.{subst}
use rxd_os.Chains.{occurrences}
use rxd_os.Prelude.{
  ℕ, zero, suc, ◌+◌, ◌-◌, ◌%◌, ◌<◌, ◌≡◌, ◌≢◌, inr, refl, sym, ◌∙◌, ap, [], ◌∷◌, ok, arith, store,
  store-ok,
}
use rxd_os.Slab.{
  Slab, KmemCache, Slabs, PageSource, bufctl_end, objects_of, addr_to_slab, put_slab, put_cache,
  check_cache, count_up, create_slab, choose_slab, kmem_cache_alloc,
}
use rxd_os.Slab.FreeList.{
  from, length-from, from-occurrences_inside, from-occurrences_outside, new_bufctl,
  length-new_bufctl, length-count_up, Chain-new_bufctl,
}
use rxd_os.Slab.Lists.{in_lists}
use rxd_os.Slab.Steps.{cache_of, slab_alloc-SlabOk}
use rxd_os.Slab.Check.{SlabHolds, SlabOk, check_slab-ok}

new_slab : (cachep page n : ℕ) → Slab
new_slab cachep page n = record {
  cache = cachep;
  first = page;
  inuse = 0;
  free = 0;
  bufctl = new_bufctl n;
}

new_slab-SlabHolds :
    (cachep page objsz n : ℕ)
    → page % 4096 ≡ 0
    → 0 < page
    → 0 < objsz
    → n ≡ objects_of objsz
    → 0 < n
    → SlabHolds (new_slab cachep page n) (addr_to_slab page) objsz n (from n 0) []
unfolding new_slab occurrences
new_slab-SlabHolds cachep page objsz n aligned mapped size fits some = record {
  place = omega (arith, aligned);
  page = aligned;
  mapped = mapped;
  some_size = size;
  fits = fits;
  array = length-new_bufctl n;
  chain = Chain-new_bufctl n some;
  once = λ x h. omega (arith, from-occurrences_inside n 0 x (omega arith) (omega (arith, h)));
  other = λ x h. omega (arith, from-occurrences_outside n 0 x (inr (omega (arith, h))));
  free_count = omega (arith, length-from n 0);
  used_count = refl;
}

-- A new slab on another page leaves a cache one.
known_new :
    {G : Type 0} (s : Slabs G) (cachep slab : ℕ) (v : Slab) (c : KmemCache) (pages : G)
    → check_cache cachep s ≡ ok tt
    → addr_to_slab cachep ≢ slab
    → c.objsz ≡ (s.caches cachep).objsz
    → c.objcnt ≡ (s.caches cachep).objcnt
    → check_cache cachep (put_cache cachep c (put_slab slab v (record s { pages = pages }))) ≡ ok tt
unfolding check_cache
known_new s cachep slab v c pages known apart size count =
    let s' : Slabs _ = put_cache cachep c (put_slab slab v (record s { pages = pages })) in
    let owner : (s'.slabs (addr_to_slab cachep)).cache ≡ (s.slabs (addr_to_slab cachep)).cache =
      ground (arith, apart) in
    let objsz : (s'.caches cachep).objsz ≡ (s.caches cachep).objsz = ground (arith, size) in
    let objcnt : (s'.caches cachep).objcnt ≡ (s.caches cachep).objcnt = ground (arith, count) in
    rw (owner, objsz, objcnt) known

module _ {G : Type 0} (source : PageSource G) where
  -- If the allocator gives a page that begins at a multiple of 4096 other than 0 and is not the page of
  -- the cache, and the cache is one, with objects of at least 1 byte of which a page has room for one,
  -- then _create_slab returns a slab that is in order, has all objects free and is in the list of free
  -- slabs, and in no other if it was in none before. The pages are those that the allocator left.
  pub create_slab-SlabOk :
      (s : Slabs G) (cachep page : ℕ) (pages : G)
      → source.alloc_zeroed_page s.pages ≡ ok (page, pages)
      → page % 4096 ≡ 0
      → 0 < page
      → addr_to_slab cachep ≢ addr_to_slab page
      → check_cache cachep s ≡ ok tt
      → 0 < (s.caches cachep).objsz
      → (s.caches cachep).objcnt ≡ objects_of (s.caches cachep).objsz
      → 0 < (s.caches cachep).objcnt
      → (s' : Slabs G) × (create_slab source cachep s ≡ ok (addr_to_slab page, s'))
        × SlabOk s' (addr_to_slab page) (from (s.caches cachep).objcnt 0) []
        × (in_lists (addr_to_slab page) (cache_of s' (addr_to_slab page))
            ≡ in_lists (addr_to_slab page) (s.caches cachep) + 1)
        × (0 < occurrences (addr_to_slab page) (s'.caches cachep).slabs_free)
        × (s'.pages ≡ pages)
  unfolding create_slab new_slab occurrences
  create_slab-SlabOk s cachep page pages alloc aligned mapped apart known size fits some =
      let c : KmemCache = s.caches cachep in
      let slab : ℕ = addr_to_slab page in
      let v : Slab = new_slab cachep page c.objcnt in
      let c' : KmemCache = record c { slabs_free = slab ∷ c.slabs_free } in
      let s' : Slabs G = put_cache cachep c' (put_slab slab v (record s { pages = pages })) in
      let array : store (count_up c.objcnt 0) (c.objcnt - 1) bufctl_end ≡ ok (new_bufctl c.objcnt) =
        store-ok (count_up c.objcnt 0) (c.objcnt - 1) bufctl_end
          (omega (arith, some, length-count_up c.objcnt 0)) in
      let here : s'.slabs slab ≡ v = ground arith in
      let there : s'.caches cachep ≡ c' = ground arith in
      let owner : (s'.slabs slab).cache ≡ cachep = ap (λ q. q.cache) here in
      let good : SlabOk s' slab (from c.objcnt 0) [] = record {
        known =
            ap (λ a. check_cache a s') owner
            ∙ known_new s cachep slab v c' pages known apart refl refl;
        holds =
            subst
              (λ q.
                SlabHolds q slab (s'.caches (s'.slabs slab).cache).objsz
                  (s'.caches (s'.slabs slab).cache).objcnt (from c.objcnt 0) [])
              (sym here)
              (subst (λ k. SlabHolds v slab k.objsz k.objcnt (from c.objcnt 0) [])
                (sym (ap s'.caches owner ∙ there))
                (new_slab-SlabHolds cachep page c.objsz c.objcnt aligned mapped size fits some));
      } in
      (
        s',
        rw (known, alloc, array, check_slab-ok s' slab (from c.objcnt 0) [] good) refl,
        good,
        ap (in_lists slab) (ap s'.caches owner ∙ there) ∙ ground arith,
        ground (arith, there),
        refl,
      )

  -- Under the same conditions kmem_cache_alloc of a cache without partial and free slabs returns the begin
  -- of the page, if no full slab is there: of its new slab, which is in order, only the first object is in
  -- use, and the pages are those that the allocator left.
  pub kmem_cache_alloc-SlabOk :
      (s : Slabs G) (cachep page : ℕ) (pages : G)
      → (s.caches cachep).slabs_partial ≡ []
      → (s.caches cachep).slabs_free ≡ []
      → occurrences (addr_to_slab page) (s.caches cachep).slabs_full ≡ 0
      → source.alloc_zeroed_page s.pages ≡ ok (page, pages)
      → page % 4096 ≡ 0
      → 0 < page
      → addr_to_slab cachep ≢ addr_to_slab page
      → check_cache cachep s ≡ ok tt
      → 0 < (s.caches cachep).objsz
      → (s.caches cachep).objcnt ≡ objects_of (s.caches cachep).objsz
      → 0 < (s.caches cachep).objcnt
      → (s' : Slabs G) × (kmem_cache_alloc source cachep s ≡ ok (page, s'))
        × SlabOk s' (addr_to_slab page) (from ((s.caches cachep).objcnt - 1) 1) (0 ∷ [])
        × (s'.pages ≡ pages)
  unfolding kmem_cache_alloc choose_slab from occurrences
  kmem_cache_alloc-SlabOk s cachep page pages no_partial no_free no_full alloc aligned mapped apart
        known size fits some =
      let slab : ℕ = addr_to_slab page in
      let (s1, run, good, lists, _, given) =
        create_slab-SlabOk s cachep page pages alloc aligned mapped apart known size fits some in
      let n : ℕ = (s.caches cachep).objcnt in
      let none_before : in_lists slab (s.caches cachep) ≡ 0 =
        ground (arith, no_partial, no_free, no_full) in
      let (s2, run', good', _, _, kept) =
        slab_alloc-SlabOk s1 slab 0 (from (n - 1) 1) []
          (subst (λ l. SlabOk s1 slab l []) (from_first n some) good)
          (omega (arith, lists, none_before)) in
      let first : (s1.slabs slab).first ≡ page = omega (arith, good.holds.place, aligned) in
      (
        s2,
        ground (arith, known, no_partial, no_free, run, run', first),
        good',
        kept.same_pages ∙ given,
      )
    where
      from_first : (n : ℕ) → 0 < n → from n 0 ≡ 0 ∷ from (n - 1) 1
      from_first zero h = absurd (omega (arith, h))
      from_first (suc k) h = let e : suc k - 1 ≡ k = omega arith in ap (λ m. 0 ∷ from m 1) (sym e)
