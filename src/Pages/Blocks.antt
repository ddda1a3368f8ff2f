-- ===== src/Pages/Blocks.antt =====
-- mm/memory.c: `alloc_pages` takes the lowest block that fits, and `free_pages` gives it back.
use native.Mathlib.Decide.{dec_lt}
use rxd_os.Prelude.{
  ℕ, zero, suc, ◌+◌, ◌-◌, ◌*◌, ◌^◌, ◌≤◌, ◌<◌, ◌≡◌, refl, ◌∙◌, ap, inl, inr, List, ok, panic, arith,
  length,
}
use rxd_os.Pages.{Pages, nr_pages, low_mem, scan, mark, alloc_pages}
use rxd_os.Pages.Scan.{Run, NoRun, scan-first_fit}
use rxd_os.Pages.Alloc.{Changed, mark-Changed}

pub pow_pos : (order : ℕ) → 0 < 2 ^ order
pow_pos zero = omega arith
pow_pos (suc order) = omega (arith, pow_pos order)

-- What a successful `alloc_pages` of `n` pages does.
pub record Allocated (n : ℕ) (s : Pages) (addr : ℕ) (s' : Pages) : Type 0 where
  pub first : ℕ
  pub address : addr ≡ low_mem + first * 4096
  pub fits : first + n ≤ nr_pages
  pub free : Run s.mem_map first n
  pub lowest : NoRun s.mem_map n (first + n - 1)
  pub same_high : s'.high_memory ≡ s.high_memory
  pub taken : Changed first n 1 s.mem_map s'.mem_map

alloc_pages-found :
    (order i : ℕ) (s : Pages) (map : List ℕ)
    → scan nr_pages 0 0 (2 ^ order) s.mem_map ≡ ok (i, 2 ^ order)
    → i < nr_pages
    → 2 ^ order ≤ i + 1
    → mark (2 ^ order) (i + 1) s.mem_map ≡ ok (i + 1 - 2 ^ order, map)
    → low_mem + (i + 1 - 2 ^ order) * 4096 < s.high_memory
    → alloc_pages order s ≡ ok (low_mem + (i + 1 - 2 ^ order) * 4096, record s { mem_map = map })
unfolding alloc_pages
alloc_pages-found order i s map e lt le m high = ground (arith, e, m)

alloc_pages-none :
    (order accum : ℕ) (s : Pages)
    → scan nr_pages 0 0 (2 ^ order) s.mem_map ≡ ok (nr_pages, accum)
    → alloc_pages order s ≡ panic
unfolding alloc_pages
alloc_pages-none order accum s e = ground (arith, e)

scan-all :
    {n size i accum : ℕ} (map : List ℕ)
    → scan (length map) 0 0 n map ≡ ok (i, accum)
    → length map ≡ size
    → accum ≡ n
    → scan size 0 0 n map ≡ ok (i, n)
scan-all map e h full = cc

Allocated-at :
    (order i : ℕ) (s : Pages)
    → length s.mem_map ≡ nr_pages
    → i < nr_pages
    → 2 ^ order ≤ i + 1
    → scan nr_pages 0 0 (2 ^ order) s.mem_map ≡ ok (i, 2 ^ order)
    → Run s.mem_map (i + 1 - 2 ^ order) (2 ^ order)
    → NoRun s.mem_map (2 ^ order) i
    → low_mem + (i + 1 - 2 ^ order) * 4096 < s.high_memory
    → (out : ℕ × Pages) × (alloc_pages order s ≡ ok out) × Allocated (2 ^ order) s out.0 out.1
Allocated-at order i s size lt le e free none high =
    let next : i + 1 ≡ i + 1 - 2 ^ order + 2 ^ order = omega arith in
    let (map, m, c) = mark-Changed (2 ^ order) (i + 1 - 2 ^ order) s.mem_map (omega arith) free in
    (
      (low_mem + (i + 1 - 2 ^ order) * 4096, record s { mem_map = map }),
      alloc_pages-found order i s map e lt le (ap (λ z. mark (2 ^ order) z s.mem_map) next ∙ m)
          high,
      record {
        first = i + 1 - 2 ^ order;
        address = refl;
        fits = omega arith;
        free = free;
        lowest = λ a b. none a (omega arith);
        same_high = refl;
        taken = c;
      },
    )

-- A map of all the pages with a block of `2 ^ order` free pages in a row, the first at `low`, whose
-- address is below `high_memory`: `alloc_pages` returns the address of the lowest such block. The
-- counts of its pages were 0 and are 1, and nothing else is changed.
pub alloc_pages-Allocated :
    (order low : ℕ) (s : Pages)
    → length s.mem_map ≡ nr_pages
    → low + 2 ^ order ≤ nr_pages
    → Run s.mem_map low (2 ^ order)
    → low_mem + low * 4096 < s.high_memory
    → (out : ℕ × Pages) × (alloc_pages order s ≡ ok out) × Allocated (2 ^ order) s out.0 out.1
alloc_pages-Allocated order low s size fits run high =
    let ((i, accum), e, found) = scan-first_fit (2 ^ order) s.mem_map (pow_pos order) in
    elim found [
      | inl (end, none) ↦ absurd (none low (omega (arith, size)) run)
      | inr (lt, full, le, free, none) ↦
          Allocated-at order i s size (omega arith) le (scan-all s.mem_map e size full) free none
            (elim (dec_lt i (low + 2 ^ order)) [
              | yes a ↦ omega arith
              | no a ↦ absurd (none low (omega arith) run)
            ])
    ]

-- On a map of all the pages without `2 ^ order` free pages in a row `alloc_pages` panics.
pub alloc_pages-panic :
    (order : ℕ) (s : Pages)
    → length s.mem_map ≡ nr_pages
    → NoRun s.mem_map (2 ^ order) nr_pages
    → alloc_pages order s ≡ panic
alloc_pages-panic order s size none =
    let ((i, accum), e, found) = scan-first_fit (2 ^ order) s.mem_map (pow_pos order) in
    elim found [
      | inl (end, _) ↦ alloc_pages-none order accum s cc
      | inr (lt, full, le, free, _) ↦ absurd (none (i + 1 - 2 ^ order) (omega (arith, size)) free)
    ]
