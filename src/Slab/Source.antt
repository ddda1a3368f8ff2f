-- ===== src/Slab/Source.antt =====
-- mm/slab.c over mm/memory.c: the page allocator as the source of pages.
use mathlib.Core.Path.{subst}
use native.Mathlib.Decide.{dec_lt}
use rxd_os.Chains.{occurrences}
use rxd_os.Prelude.{
  ℕ, ◌+◌, ◌-◌, ◌*◌, ◌≤◌, ◌<◌, ◌≡◌, ◌≢◌, sym, ◌∙◌, ap, [], ◌∷◌, ok, arith, ◌>>=◌, length,
}
use rxd_os.Memory.{Memory}
use rxd_os.Pages.{Pages, nr_pages, low_mem, alloc_zeroed_page, free_page}
use rxd_os.Pages.Scan.{Run}
use rxd_os.Pages.Blocks.{Allocated}
use rxd_os.Pages.Zeroed.{alloc_zeroed_page-Allocated}
use rxd_os.Slab.{
  KmemCache, Slabs, PageSource, objects_of, addr_to_slab, check_cache, kmem_cache_alloc,
}
use rxd_os.Slab.FreeList.{from}
use rxd_os.Slab.Check.{SlabOk}
use rxd_os.Slab.Create.{kmem_cache_alloc-SlabOk}

abbrev pub page_source : PageSource (Pages × Memory)
page_source = record {
  alloc_zeroed_page = λ g. do
    (addr, s, m) ← alloc_zeroed_page g.0 g.1
    ok (addr, (s, m));
  free_page = λ addr g. do
    s ← free_page addr g.0
    ok (s, g.1);
}

-- The slab lies in no free page.
abbrev pub InUse : Pages → (slab : ℕ) → Type 0
InUse pages slab =
    (page : ℕ) → Run pages.mem_map page 1 → slab ≢ addr_to_slab (low_mem + page * 4096)

not_full :
    (c : KmemCache) (pages : Pages) (page slab : ℕ)
    → ((slab : ℕ) → 0 < occurrences slab c.slabs_full → InUse pages slab)
    → Run pages.mem_map page 1
    → slab ≡ addr_to_slab (low_mem + page * 4096)
    → occurrences slab c.slabs_full ≡ 0
not_full c pages page slab used free place = elim (dec_lt 0 (occurrences slab c.slabs_full)) [
  | yes there ↦ absurd (used slab there page free place)
  | no absent ↦ omega (arith, absent)
]

-- Let page `low` of a map of all the pages be free, at an address below `high_memory`, and let the cache be
-- one without partial and free slabs, of which neither a full slab nor the page that the cache itself is in
-- lies in a free page, with objects of at least 1 byte of which a page has room for one. Then
-- kmem_cache_alloc over the page allocator returns the lowest free page, whose first object alone is in use
-- in a slab that is in order, and that page is taken in the map that it leaves.
pub kmem_cache_alloc-Allocated :
    (low cachep : ℕ) (s : Slabs (Pages × Memory))
    → length s.pages.0.mem_map ≡ nr_pages
    → low + 1 ≤ nr_pages
    → Run s.pages.0.mem_map low 1
    → low_mem + low * 4096 < s.pages.0.high_memory
    → (s.caches cachep).slabs_partial ≡ []
    → (s.caches cachep).slabs_free ≡ []
    → ((slab : ℕ) → 0 < occurrences slab (s.caches cachep).slabs_full → InUse s.pages.0 slab)
    → InUse s.pages.0 (addr_to_slab cachep)
    → check_cache cachep s ≡ ok tt
    → 0 < (s.caches cachep).objsz
    → (s.caches cachep).objcnt ≡ objects_of (s.caches cachep).objsz
    → 0 < (s.caches cachep).objcnt
    → (addr : ℕ) × (s' : Slabs (Pages × Memory)) × (kmem_cache_alloc page_source cachep s
        ≡ ok (addr, s'))
      × Allocated 1 s.pages.0 addr s'.pages.0
      × SlabOk s' (addr_to_slab addr) (from ((s.caches cachep).objcnt - 1) 1) (0 ∷ [])
kmem_cache_alloc-Allocated low cachep s size fits run high no_partial no_free full apart known
      some_size count some =
    let (addr, pages, m, alloc, allocated, _) =
      alloc_zeroed_page-Allocated low s.pages.0 s.pages.1 size fits run high in
    let given : page_source.alloc_zeroed_page s.pages ≡ ok (addr, (pages, m)) =
      ground (arith, alloc) in
    let place : addr_to_slab addr ≡ addr_to_slab (low_mem + allocated.first * 4096) =
      ap addr_to_slab allocated.address in
    let (s', run', good, left) =
      kmem_cache_alloc-SlabOk page_source s cachep addr (pages, m) no_partial no_free
        (not_full (s.caches cachep) s.pages.0 allocated.first (addr_to_slab addr) full
          allocated.free place)
        given (omega (arith, allocated.address)) (omega (arith, allocated.address))
        (λ e. apart allocated.first allocated.free (e ∙ place)) known some_size count some in
    (addr, s', run', subst (λ g. Allocated 1 s.pages.0 addr g.0) (sym left) allocated, good)
