-- ===== src/Slab/Steps.antt =====
-- mm/slab.c: `_slab_alloc`, `_slab_free` and `_create_slab` as steps of a slab.
use mathlib.Core.Path.{subst}
use rxd_os.Chains.{occurrences, list_del, occurrences-length}
use rxd_os.Prelude.{
  ℕ, ◌+◌, ◌-◌, ◌*◌, ◌/◌, ◌%◌, ◌^◌, ◌≤◌, ◌<◌, ◌≡◌, ◌≢◌, refl, sym, ◌∙◌, ap, List, [], ◌∷◌, ok, arith,
  load, store, load-ok, store-ok, length, get_or, set, ==_ne,
}
use rxd_os.Slab.{
  Slab, KmemCache, Slabs, bufctl_end, addr_to_slab, put_slab, put_cache, check_cache, check_slab,
  slab_alloc, slab_free, free_object,
}
use rxd_os.Slab.FreeList.{Chain}
use rxd_os.Slab.Lists.{
  in_lists, OnlyIn, SameLists, OthersKept, after_alloc, after_alloc-sizes, after_alloc-full,
  after_alloc-partial, after_alloc-others, after_free, after_free-sizes, after_free-free,
  after_free-partial, after_free-others,
}
use rxd_os.Slab.Check.{SlabHolds, SlabOk, check_slab-ok, check_cache-changed, few_objects}
use rxd_os.Slab.Objects.{object_bound, object_place, object_number, alloc-SlabHolds, free-SlabHolds}

module _ {G : Type 0} where
  abbrev pub cache_of : Slabs G → (slab : ℕ) → KmemCache
  cache_of s slab = s.caches (s.slabs slab).cache

  -- The list that a slab is in, and no other.
  abbrev pub FullOnly : Slabs G → (slab : ℕ) → Type 0
  FullOnly s slab = let c = cache_of s slab in OnlyIn slab c.slabs_full c.slabs_partial c.slabs_free

  abbrev pub PartialOnly : Slabs G → (slab : ℕ) → Type 0
  PartialOnly s slab =
      let c = cache_of s slab in OnlyIn slab c.slabs_partial c.slabs_full c.slabs_free

  abbrev pub FreeOnly : Slabs G → (slab : ℕ) → Type 0
  FreeOnly s slab = let c = cache_of s slab in OnlyIn slab c.slabs_free c.slabs_partial c.slabs_full

  -- A step that keeps the slab's cache and the sizes of that cache.
  changed-SlabOk :
      (s : Slabs G) (slab : ℕ) (v : Slab) (c : KmemCache) (xs ys : List ℕ)
      → check_cache (s.slabs slab).cache s ≡ ok tt
      → v.cache ≡ (s.slabs slab).cache
      → c.objsz ≡ (cache_of s slab).objsz
      → c.objcnt ≡ (cache_of s slab).objcnt
      → SlabHolds v slab (cache_of s slab).objsz (cache_of s slab).objcnt xs ys
      → SlabOk (put_cache (s.slabs slab).cache c (put_slab slab v s)) slab xs ys
  changed-SlabOk s slab v c xs ys known same size count holds =
      let s' : Slabs G = put_cache (s.slabs slab).cache c (put_slab slab v s) in
      let here : s'.slabs slab ≡ v = ground arith in
      let owner : (s'.slabs slab).cache ≡ (s.slabs slab).cache = ap (λ q. q.cache) here ∙ same in
      let there : s'.caches (s'.slabs slab).cache ≡ c = ap s'.caches owner ∙ ground arith in
      record {
        known =
            ap (λ a. check_cache a s') owner
            ∙ check_cache-changed s slab (s.slabs slab).cache (s.slabs slab).cache v c known same
                size count;
        holds =
            subst
              (λ q.
                SlabHolds q slab (s'.caches (s'.slabs slab).cache).objsz
                  (s'.caches (s'.slabs slab).cache).objcnt xs ys)
              (sym here)
              (subst (λ q. SlabHolds v slab q (s'.caches (s'.slabs slab).cache).objcnt xs ys)
                (sym (ap (λ q. q.objsz) there ∙ size))
                (subst (λ q. SlabHolds v slab (cache_of s slab).objsz q xs ys)
                  (sym (ap (λ q. q.objcnt) there ∙ count)) holds));
      }

  -- Such a step keeps the others, if the new lists do.
  changed-OthersKept :
      (s : Slabs G) (slab : ℕ) (v : Slab) (c : KmemCache)
      → ((b : ℕ) → b ≢ slab → SameLists b (cache_of s slab) c)
      → OthersKept slab s (put_cache (s.slabs slab).cache c (put_slab slab v s))
  changed-OthersKept s slab v c lists =
      let s' : Slabs G = put_cache (s.slabs slab).cache c (put_slab slab v s) in
      let there : s'.caches (s.slabs slab).cache ≡ c = ground arith in
      record {
        same_pages = refl;
        same_slabs = λ a ne. ground (arith, ne);
        same_caches = λ a ne. ground (arith, ne);
        same_lists = λ b ne. subst (SameLists b (cache_of s slab)) (sym there) (lists b ne);
      }

  slab_alloc-run :
      (s : Slabs G) (slab x next : ℕ)
      → check_slab slab s ≡ ok tt
      → (s.slabs slab).free ≡ x
      → x ≢ bufctl_end
      → load (s.slabs slab).bufctl x ≡ ok next
      → slab_alloc slab s
        ≡ ok (
          (s.slabs slab).first + x * (cache_of s slab).objsz,
          put_cache (s.slabs slab).cache (after_alloc slab next (cache_of s slab)) (
              put_slab slab
                (record (s.slabs slab) { free = next; inuse = (s.slabs slab).inuse + 1 })
                s),
        )
  unfolding slab_alloc
  slab_alloc-run s slab x next check here ne run =
      let size : (after_alloc slab next (cache_of s slab)).objsz ≡ (cache_of s slab).objsz =
        (after_alloc-sizes slab next (cache_of s slab)).0 in
      ground (arith, check, here, ne, run, size)

  -- _slab_alloc of a slab that is in order, has a free object and is once in the lists of its cache returns
  -- the address of the first free object, which is then in use; the slab stays in order, and it is in the
  -- list of full slabs and no other if this was its last free object, else in the list of partial slabs and
  -- no other. The pages, the other slabs and caches, and the places of other slabs are kept.
  pub slab_alloc-SlabOk :
      (s : Slabs G) (slab x : ℕ) (xs ys : List ℕ)
      → SlabOk s slab (x ∷ xs) ys
      → in_lists slab (cache_of s slab) ≡ 1
      → (s' : Slabs G) × (slab_alloc slab s
          ≡ ok ((s.slabs slab).first + x * (cache_of s slab).objsz, s'))
        × SlabOk s' slab xs (x ∷ ys)
        × (xs ≡ [] → FullOnly s' slab)
        × (0 < length xs → PartialOnly s' slab)
        × OthersKept slab s s'
  unfolding Chain
  slab_alloc-SlabOk s slab x xs ys u once =
      let v : Slab = s.slabs slab in
      let (here, inside, rest) = u.holds.chain in
      let few = few_objects (cache_of s slab).objsz (cache_of s slab).objcnt u.holds.fits in
      let next : ℕ = get_or v.bufctl x 0 in
      let v' : Slab = record v { free = next; inuse = v.inuse + 1 } in
      let c : KmemCache = after_alloc slab next (cache_of s slab) in
      let s' : Slabs G = put_cache v.cache c (put_slab slab v' s) in
      let (size, count) = after_alloc-sizes slab next (cache_of s slab) in
      let there : cache_of s' slab ≡ c = ground arith in
      (
        s',
        slab_alloc-run s slab x next (check_slab-ok s slab (x ∷ xs) ys u) here
            (λ e. absurd (omega (arith, e, inside, u.holds.array, few)))
            (load-ok v.bufctl x 0 inside),
        changed-SlabOk s slab v' c xs (x ∷ ys) u.known refl size count (
            alloc-SlabHolds v slab (cache_of s slab).objsz (cache_of s slab).objcnt x xs ys
              u.holds),
        λ e.
            subst (λ q. OnlyIn slab q.slabs_full q.slabs_partial q.slabs_free) (sym there)
              (after_alloc-full slab next (cache_of s slab) once
                (last_next xs next v.bufctl rest e)),
        λ h.
            subst (λ q. OnlyIn slab q.slabs_partial q.slabs_full q.slabs_free) (sym there)
              (after_alloc-partial slab next (cache_of s slab) once
                (λ e. more_next xs next v.bufctl rest (omega (arith, few, u.holds.array)) h e)),
        changed-OthersKept s slab v' c (after_alloc-others slab next (cache_of s slab)),
      )
    where
      last_next :
          (xs : List ℕ) (next : ℕ) (bufctl : List ℕ)
          → Chain bufctl next xs
          → xs ≡ []
          → next ≡ bufctl_end
      last_next xs next bufctl chain e = subst (Chain bufctl next) e chain

      more_next :
          (xs : List ℕ) (next : ℕ) (bufctl : List ℕ)
          → Chain bufctl next xs
          → length bufctl ≤ 1018
          → 0 < length xs
          → next ≢ bufctl_end
      more_next [] next bufctl chain few h = absurd (omega (arith, h))
      more_next (y ∷ ys) next bufctl (here, inside, _) few h =
          λ e. absurd (omega (arith, here, inside, few, e))

  free_object-run :
      (s : Slabs G) (slab objp x : ℕ) (bufctl : List ℕ)
      → check_slab slab s ≡ ok tt
      → 0 < (cache_of s slab).objsz
      → (objp - (s.slabs slab).first) / (cache_of s slab).objsz ≡ x
      → store (s.slabs slab).bufctl x (s.slabs slab).free ≡ ok bufctl
      → free_object slab objp s
        ≡ ok (
            put_cache
              (s.slabs slab).cache
              (after_free slab (((s.slabs slab).inuse + (2 ^ 32 - 1)) % 2 ^ 32) (cache_of s slab))
              (put_slab slab
                (record (s.slabs slab) {
                  free = x;
                  inuse = ((s.slabs slab).inuse + (2 ^ 32 - 1)) % 2 ^ 32;
                  bufctl = bufctl;
                })
                s))
  unfolding free_object
  free_object-run s slab objp x bufctl check some number run =
      let ne : (cache_of s slab).objsz ≢ 0 = λ e. absurd (omega (arith, e, some)) in
      rw (check, ==_ne ne, number, run) refl

  -- _slab_free of an object in use, by its address, on a slab that is in order and once in the lists of its
  -- cache: the object is then the first free one, the slab stays in order, and it is in the list of free
  -- slabs and no other if none of its objects is in use any more, else in the list of partial slabs and no
  -- other. The pages, the other slabs and caches, and the places of other slabs are kept.
  pub slab_free-SlabOk :
      (s : Slabs G) (slab x : ℕ) (xs ys : List ℕ)
      → SlabOk s slab xs ys
      → in_lists slab (cache_of s slab) ≡ 1
      → 0 < occurrences x ys
      → x < (cache_of s slab).objcnt
      → (s' : Slabs G) × (slab_free ((s.slabs slab).first + x * (cache_of s slab).objsz) s ≡ ok s')
        × SlabOk s' slab (x ∷ xs) (list_del x ys)
        × (length ys ≡ 1 → FreeOnly s' slab)
        × (1 < length ys → PartialOnly s' slab)
        × OthersKept slab s s'
  unfolding slab_free
  slab_free-SlabOk s slab x xs ys u once used inside =
      let v : Slab = s.slabs slab in
      let objsz : ℕ = (cache_of s slab).objsz in
      let few = few_objects objsz (cache_of s slab).objcnt u.holds.fits in
      let inuse : ℕ = (v.inuse + (2 ^ 32 - 1)) % 2 ^ 32 in
      let less : inuse + 1 ≡ length ys =
        omega (arith, few, u.holds.free_count, u.holds.used_count, used, occurrences-length x ys) in
      let bufctl : List ℕ = set v.bufctl x v.free in
      let v' : Slab = record v { free = x; inuse = inuse; bufctl = bufctl } in
      let c : KmemCache = after_free slab inuse (cache_of s slab) in
      let s' : Slabs G = put_cache v.cache c (put_slab slab v' s) in
      let (size, count) = after_free-sizes slab inuse (cache_of s slab) in
      let there : cache_of s' slab ≡ c = ground arith in
      let place : addr_to_slab (v.first + x * objsz) ≡ slab =
        object_place objsz x v.first u.holds.page u.holds.mapped
          (object_bound objsz (cache_of s slab).objcnt x u.holds.fits inside)
        ∙ sym u.holds.place in
      (
        s',
        ap (λ a. free_object a (v.first + x * objsz) s) place
            ∙ free_object-run s slab (v.first + x * objsz) x bufctl (check_slab-ok s slab xs ys u)
                u.holds.some_size (object_number objsz x v.first u.holds.some_size)
                (store-ok v.bufctl x v.free (omega (arith, inside, u.holds.array))),
        changed-SlabOk s slab v' c (x ∷ xs) (list_del x ys) u.known refl size count (
            free-SlabHolds v slab objsz (cache_of s slab).objcnt x xs ys u.holds used inside
              (omega (arith, few, u.holds.free_count))),
        λ e.
            subst (λ q. OnlyIn slab q.slabs_free q.slabs_partial q.slabs_full) (sym there)
              (after_free-free slab inuse (cache_of s slab) once (omega (arith, e, less))),
        λ h.
            subst (λ q. OnlyIn slab q.slabs_partial q.slabs_full q.slabs_free) (sym there)
              (after_free-partial slab inuse (cache_of s slab) once
                (λ e. absurd (omega (arith, e, h, less)))),
        changed-OthersKept s slab v' c (after_free-others slab inuse (cache_of s slab)),
      )
