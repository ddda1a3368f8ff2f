-- ===== src/Slab/Tests.antt =====
-- mm/slab.c: the theorems at a cache of 32-byte objects, and a source of pages that counts.
use rxd_os.Chains.{occurrences, list_del}
use rxd_os.Prelude.{
  ℕ, zero, suc, ◌+◌, ◌-◌, ◌*◌, ◌≤◌, ◌<◌, ◌≡◌, refl, List, [], ◌∷◌, ok, arith, length,
}
use rxd_os.Slab.{
  KmemCache, Slabs, PageSource, addr_to_slab, check_cache, kmem_cache_alloc, slab_alloc, slab_free,
}
use rxd_os.Memory.{Memory}
use rxd_os.Pages.{Pages}
use rxd_os.Pages.Scan.{Run}
use rxd_os.Pages.Blocks.{Allocated}
use rxd_os.Slab.Source.{InUse, page_source, kmem_cache_alloc-Allocated}
use rxd_os.Prelude.{ap, replicate, get_or}
use rxd_os.Slab.FreeList.{Chain, from}
use rxd_os.Slab.Check.{SlabOk}
use rxd_os.Slab.Lists.{in_lists, OthersKept}
use rxd_os.Slab.Steps.{
  cache_of, FullOnly, PartialOnly, FreeOnly, slab_alloc-SlabOk, slab_free-SlabOk,
}

abbrev only_0 : List ℕ
only_0 = 0 ∷ []

abbrev only_1 : List ℕ
only_1 = 1 ∷ []

abbrev source : PageSource ℕ
source = record {
  alloc_zeroed_page = λ next. ok (next, next + 4096);
  free_page = λ page next. ok next;
}

-- Objects of 1350 bytes, of which a page has room for three, in a slab at 8192 of which objects 2 and 1 are
-- free and object 0 is in use. The cache is at 100.
abbrev cache : KmemCache
cache = record {
  slabs_partial = 12264 ∷ [];
  slabs_full = [];
  slabs_free = [];
  objsz = 1350;
  objcnt = 3;
}

abbrev state : Slabs ℕ
state = record {
  caches = λ a. cache;
  slabs = λ a. record {
    cache = 100;
    first = 8192;
    inuse = 1;
    free = 2;
    bufctl = 7 ∷ 0xffffffff ∷ 1 ∷ [];
  };
  cache_chain = 100 ∷ [];
  cache_cache = 100;
  pages = 0x100000;
}

state-known : check_cache 100 state ≡ ok tt
unfolding check_cache
state-known = refl

state-SlabOk : SlabOk state 12264 (2 ∷ 1 ∷ []) (0 ∷ [])
unfolding Chain occurrences
state-SlabOk = record {
  known = state-known;
  holds = record {
    place = refl;
    page = refl;
    mapped = omega arith;
    some_size = omega arith;
    fits = refl;
    array = refl;
    chain = (refl, omega arith, (refl, omega arith, refl));
    once = λ x h. below_3 x h;
    other = λ x h. above_3 x h;
    free_count = refl;
    used_count = refl;
  };
}
  where
    below_3 : (x : ℕ) → x < 3 → occurrences x (2 ∷ 1 ∷ []) + occurrences x (0 ∷ []) ≡ 1
    below_3 zero h = refl
    below_3 (suc zero) h = refl
    below_3 (suc (suc zero)) h = refl
    below_3 (suc (suc (suc x))) h = absurd (omega (arith, h))

    above_3 : (x : ℕ) → 3 ≤ x → occurrences x (2 ∷ 1 ∷ []) + occurrences x (0 ∷ []) ≡ 0
    above_3 x h = ground (arith, h)

state-once : in_lists 12264 (cache_of state 12264) ≡ 1
unfolding occurrences
state-once = refl

slab_alloc-SlabOk_example :
    (s' : Slabs ℕ) × (slab_alloc 12264 state ≡ ok (8192 + 2 * 1350, s'))
    × SlabOk s' 12264 (1 ∷ []) (2 ∷ 0 ∷ [])
    × (only_1 ≡ [] → FullOnly s' 12264)
    × (0 < length only_1 → PartialOnly s' 12264)
    × OthersKept 12264 state s'
slab_alloc-SlabOk_example =
    slab_alloc-SlabOk state 12264 2 (1 ∷ []) (0 ∷ []) state-SlabOk state-once

used_0 : 0 < occurrences 0 (0 ∷ [])
unfolding occurrences
used_0 = ground arith

slab_free-SlabOk_example :
    (s' : Slabs ℕ) × (slab_free (8192 + 0 * 1350) state ≡ ok s')
    × SlabOk s' 12264 (0 ∷ 2 ∷ 1 ∷ []) (list_del 0 (0 ∷ []))
    × (length only_0 ≡ 1 → FreeOnly s' 12264)
    × (1 < length only_0 → PartialOnly s' 12264)
    × OthersKept 12264 state s'
slab_free-SlabOk_example =
    slab_free-SlabOk state 12264 0 (2 ∷ 1 ∷ []) (0 ∷ []) state-SlabOk state-once used_0
      (omega arith)

abbrev empty_state : Slabs ℕ
empty_state = record state { caches = λ a. record cache { slabs_partial = [] } }

empty_state-known : check_cache 100 empty_state ≡ ok tt
unfolding check_cache
empty_state-known = refl

-- Only the first page is in use.
abbrev first_used : Pages
first_used = record { high_memory = 0xffffff; mem_map = 1 ∷ replicate 3839 0 }

abbrev page_state : Slabs (Pages × Memory)
page_state = record {
  caches = empty_state.caches;
  slabs = empty_state.slabs;
  cache_chain = 100 ∷ [];
  cache_cache = 100;
  pages = (first_used, λ a. 5);
}

page_state-known : check_cache 100 page_state ≡ ok tt
unfolding check_cache
page_state-known = refl

second-Run : Run first_used.mem_map 1 1
second-Run i a b =
    let one : i ≡ 1 = omega (arith, a, b) in ap (λ k. get_or first_used.mem_map k 1) one

-- No cache has a full slab there, and the cache lies below all pages.
none_full :
    (slab : ℕ) → 0 < occurrences slab (page_state.caches 100).slabs_full → InUse first_used slab
unfolding occurrences
none_full slab h = absurd (omega (arith, h))

cache-InUse : InUse first_used (addr_to_slab 100)
cache-InUse page free = λ e. absurd (omega (arith, e))

kmem_cache_alloc-Allocated_example :
    (addr : ℕ) × (s' : Slabs (Pages × Memory)) × (kmem_cache_alloc page_source 100 page_state
      ≡ ok (addr, s'))
    × Allocated 1 first_used addr s'.pages.0
    × SlabOk s' (addr_to_slab addr) (from (3 - 1) 1) (0 ∷ [])
kmem_cache_alloc-Allocated_example =
    kmem_cache_alloc-Allocated 1 100 page_state refl (omega arith) second-Run (omega arith) refl
      refl none_full cache-InUse page_state-known (omega arith) refl (omega arith)
