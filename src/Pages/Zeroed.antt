-- ===== src/Pages/Zeroed.antt =====
-- mm/memory.c: `alloc_zeroed_page`.
use rxd_os.Prelude.{ℕ, ◌+◌, ◌*◌, ◌≤◌, ◌<◌, ◌≡◌, ok, arith, length}
use rxd_os.Memory.{Memory}
use rxd_os.Str.Copy.{filled, memset-filled}
use rxd_os.Pages.{Pages, nr_pages, low_mem, alloc_zeroed_page}
use rxd_os.Pages.Scan.{Run}
use rxd_os.Pages.Blocks.{Allocated, alloc_pages-Allocated}

-- On a map of all the pages of which page `low` is free, at an address below `high_memory`,
-- alloc_zeroed_page returns the lowest free page, which is then in use, and its 4096 bytes are 0; no other
-- page and no other byte is changed.
pub alloc_zeroed_page-Allocated :
    (low : ℕ) (s : Pages) (m : Memory)
    → length s.mem_map ≡ nr_pages
    → low + 1 ≤ nr_pages
    → Run s.mem_map low 1
    → low_mem + low * 4096 < s.high_memory
    → (addr : ℕ) × (s' : Pages) × (m' : Memory) × (alloc_zeroed_page s m ≡ ok (addr, s', m'))
      × Allocated 1 s addr s'
      × ((a : ℕ) → m' a ≡ filled addr 0 4096 m a)
unfolding alloc_zeroed_page
alloc_zeroed_page-Allocated low s m size fits run high =
    let ((addr, s'), alloc, allocated) = alloc_pages-Allocated 0 low s size fits run high in
    let (m', set, bytes) =
      memset-filled addr 0 4096 m (λ e. absurd (omega (arith, e, allocated.address))) in
    (addr, s', m', ground (arith, alloc, set), allocated, bytes)
