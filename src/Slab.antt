-- ===== src/Slab.antt =====
-- mm/slab.c: caches of objects of one size, in pages that a slab divides. A cache and a slab are known by
-- their addresses, a list holds such addresses, and what the objects hold is not modelled; nor is the
-- constructor of a cache, which the client gives and which changes only objects. The allocator of pages
-- is a parameter.
pub mod FreeList
pub mod Check
pub mod Objects
pub mod Lists
pub mod Steps
pub mod Create
pub mod Source
pub mod Sizes
mod Tests
use rxd_os.Chains.{list_del}
use rxd_os.Prelude.{
  ℕ, zero, suc, ◌+◌, ◌-◌, ◌*◌, ◌/◌, ◌%◌, ◌^◌, Bool, true, false, not, ◌&&◌, ◌||◌, List, [], ◌∷◌,
  Outcome, ok, panic, fault, out_of_fuel, ◌>>=◌, ◌>>◌, assert, load, store, ltb, leb, ◌==◌,
  if◌then◌else◌, length,
}

abbrev pub page_size : ℕ
page_size = 4096

abbrev pub bufctl_end : ℕ
bufctl_end = 0xffffffff

-- The size of `struct slab`: six words.
abbrev pub slab_size : ℕ
slab_size = 24

-- `struct slab` without its links. `bufctl` is the array in front of it, by the number of the object.
pub record Slab : Type 0 where
  pub cache : ℕ
  pub first : ℕ
  pub inuse : ℕ
  pub free : ℕ
  pub bufctl : List ℕ

-- `struct kmem_cache` without its constructor, name and links.
pub record KmemCache : Type 0 where
  pub slabs_partial : List ℕ
  pub slabs_full : List ℕ
  pub slabs_free : List ℕ
  pub objsz : ℕ
  pub objcnt : ℕ

-- `alloc_zeroed_page` and `free_page` on a state `G` of the page allocator.
pub record PageSource (G : Type 0) : Type 0 where
  pub alloc_zeroed_page : G → Outcome (ℕ × G)
  pub free_page : ℕ → G → Outcome G

pub record Slabs (G : Type 0) : Type 0 where
  pub caches : ℕ → KmemCache
  pub slabs : ℕ → Slab
  pub cache_chain : List ℕ
  pub cache_cache : ℕ
  pub pages : G

abbrev pub put_slab : {G : Type 0} → ℕ → Slab → Slabs G → Slabs G
put_slab a v s = record s { slabs = λ x. if x == a then v else s.slabs x }

abbrev pub put_cache : {G : Type 0} → ℕ → KmemCache → Slabs G → Slabs G
put_cache a v s = record s { caches = λ x. if x == a then v else s.caches x }

-- `ADDR_TO_SLAB`
abbrev pub addr_to_slab : ℕ → ℕ
addr_to_slab addr = addr / page_size * page_size + page_size - slab_size

-- `__align`
pub align : (addr order : ℕ) → ℕ
align addr order = addr / 2 ^ order * 2 ^ order

-- How many objects of a size a page has room for.
abbrev pub objects_of : ℕ → ℕ
objects_of objsz = (page_size - slab_size) / (objsz + 4)

-- `__check_cache`
pub check_cache : {G : Type 0} → ℕ → Slabs G → Outcome (Unit {0})
check_cache cachep s = do
  assert (not (cachep == 0))
  assert (cachep == s.cache_cache || (s.slabs (addr_to_slab cachep)).cache == s.cache_cache)
  assert ((s.caches cachep).objcnt == objects_of (s.caches cachep).objsz)
  ok tt

-- The walk of `__check_slab` along the free list, from `next` on: how many entries it has. A list that has
-- more entries than the array is a cycle, on which the loop does not end.
pub count_free : (fuel next : ℕ) → List ℕ → Outcome ℕ
count_free zero next bufctl = if next == bufctl_end then ok 0 else out_of_fuel
count_free (suc fuel) next bufctl = elim (next == bufctl_end) [
  | true ↦ ok 0
  | false ↦ do next ← load bufctl next; freecnt ← count_free fuel next bufctl; ok (freecnt + 1)
]

-- `__check_slab`
pub check_slab : {G : Type 0} → ℕ → Slabs G → Outcome (Unit {0})
unfolding check_cache count_free
check_slab slab s = do
  assert (not (slab == 0))
  assert ((slab + slab_size) % page_size == 0)
  let v = s.slabs slab
  assert (not (v.first == 0) && v.first % page_size == 0)
  _ ← check_cache v.cache s
  freecnt ← count_free (length v.bufctl) v.free v.bufctl
  assert (freecnt + v.inuse == (s.caches v.cache).objcnt)
  ok tt

-- The entries that the loop of `_create_slab` writes: the number of the next object for each.
pub count_up : (rounds i : ℕ) → List ℕ
count_up zero i = []
count_up (suc rounds) i = (i + 1) ∷ count_up rounds (i + 1)

-- The list of a slab that it is in, without it.
abbrev pub unlink : ℕ → KmemCache → KmemCache
unlink slab c = record c {
  slabs_partial = list_del slab c.slabs_partial;
  slabs_full = list_del slab c.slabs_full;
  slabs_free = list_del slab c.slabs_free;
}

-- `_slab_alloc`
pub slab_alloc : {G : Type 0} → ℕ → Slabs G → Outcome (ℕ × Slabs G)
slab_alloc slab s = do
  let v = s.slabs slab
  assert (not (v.free == bufctl_end))
  _ ← check_slab slab s
  let objnr = v.free
  free ← load v.bufctl v.free
  let s = put_slab slab (record v { free = free; inuse = v.inuse + 1 }) s
  let c = unlink slab (s.caches v.cache)
  let c =
      (if free == bufctl_end
        then record c { slabs_full = slab ∷ c.slabs_full }
        else record c { slabs_partial = slab ∷ c.slabs_partial })
  ok (v.first + objnr * c.objsz, put_cache v.cache c s)

-- `_slab_free` behind its first assignment. It divides by the size of an object.
pub free_object : {G : Type 0} → (slab objp : ℕ) → Slabs G → Outcome (Slabs G)
free_object slab objp s = do
  _ ← check_slab slab s
  let v = s.slabs slab
  let c = s.caches v.cache
  if c.objsz == 0 then fault else (do
    let objnr = (objp - v.first) / c.objsz
    bufctl ← store v.bufctl objnr v.free
    let inuse = (v.inuse + (2 ^ 32 - 1)) % 2 ^ 32
    let s = put_slab slab (record v { free = objnr; inuse = inuse; bufctl = bufctl }) s
    let c = unlink slab c
    let c =
        (if inuse == 0
          then record c { slabs_free = slab ∷ c.slabs_free }
          else record c { slabs_partial = slab ∷ c.slabs_partial })
    ok (put_cache v.cache c s))

-- `_slab_free`
pub slab_free : {G : Type 0} → ℕ → Slabs G → Outcome (Slabs G)
unfolding free_object
slab_free objp s = free_object (addr_to_slab objp) objp s

-- The entry of `generic_cachep` for a size, from `_4B`, which is 0, to `_128B`.
abbrev pub generic_size : ℕ → ℕ
generic_size size =
    if leb size 32
    then (if leb size 8 then (if leb size 4 then 0 else 1) else (if leb size 16 then 2 else 3))
    else (if leb size 64 then 4 else 5)

module _ {G : Type 0} (source : PageSource G) where
  -- `_create_slab`
  pub create_slab : ℕ → Slabs G → Outcome (ℕ × Slabs G)
  unfolding count_up
  create_slab cachep s = do
    _ ← check_cache cachep s
    (page, pages) ← source.alloc_zeroed_page s.pages
    let c = s.caches cachep
    let slab = addr_to_slab page
    bufctl ← store (count_up c.objcnt 0) (c.objcnt - 1) bufctl_end
    let v : Slab = record { cache = cachep; first = page; inuse = 0; free = 0; bufctl = bufctl }
    let s = put_slab slab v (record s { pages = pages })
    let s = put_cache cachep (record c { slabs_free = slab ∷ c.slabs_free }) s
    _ ← check_slab slab s
    ok (slab, s)

  -- `_destroy_slab`
  pub destroy_slab : ℕ → Slabs G → Outcome (Slabs G)
  destroy_slab slab s = do
    let v = s.slabs slab
    assert (v.inuse == 0)
    _ ← check_slab slab s
    pages ← source.free_page v.first s.pages
    ok (put_cache v.cache (unlink slab (s.caches v.cache)) (record s { pages = pages }))

  -- The slab that `kmem_cache_alloc` takes an object from.
  pub choose_slab : ℕ → Slabs G → Outcome (ℕ × Slabs G)
  unfolding create_slab
  choose_slab cachep s = elim (s.caches cachep).slabs_partial [
    | slab ∷ _ ↦ ok (slab, s)
    | [] ↦ elim (s.caches cachep).slabs_free [ slab ∷ _ ↦ ok (slab, s) | [] ↦ create_slab cachep s ]
  ]

  pub kmem_cache_alloc : ℕ → Slabs G → Outcome (ℕ × Slabs G)
  kmem_cache_alloc cachep s = do
    _ ← check_cache cachep s
    (slab, s) ← choose_slab cachep s
    slab_alloc slab s

  pub kmem_cache_free : (cachep objp : ℕ) → Slabs G → Outcome (Slabs G)
  kmem_cache_free cachep objp s = do assert (not (cachep == 0) && not (objp == 0)); slab_free objp s

  -- `kmem_cache_createx` behind its assertion on the name.
  pub kmem_cache_createx : (objsize : ℕ) → Slabs G → Outcome (ℕ × Slabs G)
  kmem_cache_createx objsize s = do
    assert (ltb 0 objsize)
    (cachep, s) ← kmem_cache_alloc s.cache_cache s
    let objsz = align objsize 2
    let c : KmemCache = record {
      slabs_partial = [];
      slabs_full = [];
      slabs_free = [];
      objsz = objsz;
      objcnt = objects_of objsz;
    }
    ok (cachep, record (put_cache cachep c s) { cache_chain = cachep ∷ s.cache_chain })

  -- The loop of `kmem_cache_destroy`, with a round for each slab that is free at its start.
  pub destroy_slabs : (rounds : List ℕ) → Slabs G → Outcome (Slabs G)
  destroy_slabs [] s = ok s
  destroy_slabs (slab ∷ rest) s = do s ← destroy_slab slab s; destroy_slabs rest s

  pub kmem_cache_destroy : ℕ → Slabs G → Outcome (Slabs G)
  kmem_cache_destroy cachep s = do
    assert (not (cachep == 0))
    let c = s.caches cachep
    elim c.slabs_partial [
      | _ ∷ _ ↦ panic
      | [] ↦ elim c.slabs_full [
        | _ ∷ _ ↦ panic
        | [] ↦ do
          s ← destroy_slabs c.slabs_free s
          ok (record s { cache_chain = list_del cachep s.cache_chain })
      ]
    ]

  pub kmalloc : (size : ℕ) (generic_cachep : List ℕ) → Slabs G → Outcome (ℕ × Slabs G)
  kmalloc size generic_cachep s = do
    assert (ltb 0 size && leb size 128)
    cachep ← load generic_cachep (generic_size size)
    kmem_cache_alloc cachep s

  pub kfree : ℕ → Slabs G → Outcome (Slabs G)
  kfree ptr s = do
    assert (not (ptr == 0))
    _ ← check_slab (addr_to_slab ptr) s
    kmem_cache_free (s.slabs (addr_to_slab ptr)).cache ptr s

  -- The six caches of `cache_init`, in the order of their sizes.
  pub create_generic : (sizes : List ℕ) → Slabs G → Outcome (List ℕ × Slabs G)
  create_generic [] s = ok ([], s)
  create_generic (size ∷ sizes) s = do
    (cachep, s) ← kmem_cache_createx size s
    (rest, s) ← create_generic sizes s
    ok (cachep ∷ rest, s)

  pub cache_init : Slabs G → Outcome (List ℕ × Slabs G)
  unfolding create_generic
  cache_init s =
      create_generic (4 ∷ 8 ∷ 16 ∷ 32 ∷ 64 ∷ 128 ∷ [])
        (record s { cache_chain = s.cache_cache ∷ s.cache_chain })
