-- ===== src/Slab/Check.antt =====
-- mm/slab.c: the state of one slab, with which `__check_slab` is content.
use native.Mathlib.Nat.{div-le_of_le-mul}
use native.Mathlib.Decide.{ℕ_discrete}
use rxd_os.Chains.{occurrences}
use rxd_os.Prelude.{ℕ, ◌+◌, ◌/◌, ◌%◌, ◌≤◌, ◌<◌, ◌≡◌, ap, List, ok, arith, length}
use rxd_os.Slab.{
  Slab, KmemCache, Slabs, objects_of, addr_to_slab, put_slab, put_cache, check_cache, check_slab,
}
use rxd_os.Slab.FreeList.{Chain, count_free-Chain}

-- A slab at address `slab` with objects of `objsz` bytes: those in `xs` are free, in the order of its
-- list, and those in `ys` are in use, and each of the `objcnt` objects is in one of them once.
pub record SlabHolds (v : Slab) (slab objsz objcnt : ℕ) (xs ys : List ℕ) : Type 0 where
  pub place : slab ≡ v.first + 4072
  pub page : v.first % 4096 ≡ 0
  pub mapped : 0 < v.first
  pub some_size : 0 < objsz
  pub fits : objcnt ≡ objects_of objsz
  pub array : length v.bufctl ≡ objcnt
  pub chain : Chain v.bufctl v.free xs
  pub once : (x : ℕ) → x < objcnt → occurrences x xs + occurrences x ys ≡ 1
  pub other : (x : ℕ) → objcnt ≤ x → occurrences x xs + occurrences x ys ≡ 0
  pub free_count : length xs + v.inuse ≡ objcnt
  pub used_count : length ys ≡ v.inuse

pub few_objects : (objsz objcnt : ℕ) → objcnt ≡ objects_of objsz → objcnt ≤ 1018
few_objects objsz objcnt e =
    let most : 4072 / (objsz + 4) ≤ 1018 = div-le_of_le-mul (objsz + 4) (omega arith) in
    omega (arith, e, most)

module _ {G : Type 0} where
  -- The same of a slab of the state, whose cache is a cache.
  pub record SlabOk (s : Slabs G) (slab : ℕ) (xs ys : List ℕ) : Type 0 where
    pub known : check_cache (s.slabs slab).cache s ≡ ok tt
    pub holds :
        SlabHolds
          (s.slabs slab)
          slab
          (s.caches (s.slabs slab).cache).objsz
          (s.caches (s.slabs slab).cache).objcnt
          xs
          ys

  pub check_slab-ok :
      (s : Slabs G) (slab : ℕ) (xs ys : List ℕ) → SlabOk s slab xs ys → check_slab slab s ≡ ok tt
  unfolding check_slab
  check_slab-ok s slab xs ys u =
      let v : Slab = s.slabs slab in
      let h = u.holds in
      let few = few_objects (s.caches v.cache).objsz (s.caches v.cache).objcnt h.fits in
      let count =
        count_free-Chain (length v.bufctl) v.free v.bufctl xs (omega (arith, h.array, few)) h.chain
          (omega (arith, h.array, h.free_count)) in
      let aligned : (slab + 24) % 4096 ≡ 0 = omega (arith, h.place, h.page) in
      let total : length xs + v.inuse ≡ (s.caches v.cache).objcnt = h.free_count in
      ground (arith, u.known, count, aligned, h.page, h.mapped, h.place, total)

  -- A cache stays one when a slab changes but not its cache, and a cache changes but not its sizes.
  pub check_cache-changed :
      (s : Slabs G) (slab cachep cachep' : ℕ) (v : Slab) (c : KmemCache)
      → check_cache cachep s ≡ ok tt
      → v.cache ≡ (s.slabs slab).cache
      → c.objsz ≡ (s.caches cachep').objsz
      → c.objcnt ≡ (s.caches cachep').objcnt
      → check_cache cachep (put_cache cachep' c (put_slab slab v s)) ≡ ok tt
  unfolding check_cache
  check_cache-changed s slab cachep cachep' v c known same size count =
      let s' : Slabs G = put_cache cachep' c (put_slab slab v s) in
      let a : ℕ = addr_to_slab cachep in
      let owner : (s'.slabs a).cache ≡ (s.slabs a).cache = elim (ℕ_discrete a slab) [
        | yes here ↦ ground (arith, here, same, ap (λ x. (s.slabs x).cache) here)
        | no other ↦ ground (arith, other)
      ] in
      let objsz : (s'.caches cachep).objsz ≡ (s.caches cachep).objsz =
        elim (ℕ_discrete cachep cachep') [
          | yes here ↦ ground (arith, here, size, ap (λ x. (s.caches x).objsz) here)
          | no other ↦ ground (arith, other)
        ] in
      let objcnt : (s'.caches cachep).objcnt ≡ (s.caches cachep).objcnt =
        elim (ℕ_discrete cachep cachep') [
          | yes here ↦ ground (arith, here, count, ap (λ x. (s.caches x).objcnt) here)
          | no other ↦ ground (arith, other)
        ] in
      rw (owner, objsz, objcnt) known
