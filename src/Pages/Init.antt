-- ===== src/Pages/Init.antt =====
-- mm/memory.c: what `mem_init` makes of the map.
use rxd_os.Prelude.{
  ℕ, zero, suc, ◌+◌, ◌-◌, ◌≤◌, ◌<◌, ◌≡◌, refl, ◌∙◌, ◌⊎◌, inl, inr, List, ok, arith, length, get_or,
  set, store-ok, length-set,
}
use rxd_os.Pages.{Pages, nr_pages, reserved_page, total_mem, low_mem, mmi, fill_map, mem_init}
use rxd_os.Pages.Scan.{Free}
use rxd_os.Pages.Alloc.{Changed, Changed-first}

fill_map-step :
    (n i v : ℕ) (map : List ℕ)
    → i < length map
    → fill_map (suc n) i v map ≡ fill_map n (i + 1) v (set map i v)
unfolding fill_map
fill_map-step n i v map h = ground (arith, store-ok map i v h)

fill_map-Changed :
    (n i v : ℕ) (map : List ℕ)
    → i + n ≤ length map
    → (map' : List ℕ) × (fill_map n i v map ≡ ok map') × Changed i n v map map'
unfolding fill_map
fill_map-Changed zero i v map h = (
  map,
  refl,
  record { same_length = refl; inside = λ j a b. absurd (omega arith); outside = λ j a. refl },
)
fill_map-Changed (suc n) i v map h =
    let (map', e, c) =
      fill_map-Changed n (i + 1) v (set map i v) (omega (arith, length-set map i v)) in
    (map', fill_map-step n i v map (omega arith) ∙ e, Changed-first (omega arith) c)

fill_map-range :
    (first last v : ℕ) (map : List ℕ)
    → first ≤ last
    → last < length map
    → (map' : List ℕ) × (fill_map (last + 1 - first) first v map ≡ ok map')
      × (length map' ≡ length map)
      × ((i : ℕ) → first ≤ i → i ≤ last → get_or map' i 1 ≡ v)
      × ((i : ℕ) → i < first ⊎ last < i → get_or map' i 1 ≡ get_or map i 1)
fill_map-range first last v map le lt =
    let (map', e, c) = fill_map-Changed (last + 1 - first) first v map (omega arith) in
    (
      map',
      e,
      c.same_length,
      λ i a b. c.inside i a (omega arith),
      λ i out. c.outside i (elim out [ inl a ↦ inl a | inr a ↦ inr (omega (arith, le)) ]),
    )

mem_init-fill :
    (mem_start mem_end : ℕ) (s : Pages) (reserved map : List ℕ)
    → low_mem ≤ mem_start
    → mem_start < mem_end
    → mem_end < low_mem + total_mem
    → fill_map nr_pages 0 reserved_page s.mem_map ≡ ok reserved
    → fill_map (mmi mem_end + 1 - mmi mem_start) (mmi mem_start) 0 reserved ≡ ok map
    → mem_init mem_start mem_end s ≡ ok (record { high_memory = mem_end; mem_map = map })
unfolding mem_init
mem_init-fill mem_start mem_end s reserved map low lt high e f = ground (arith, e, f)

mmi_bound : (addr : ℕ) → low_mem ≤ addr → addr < low_mem + total_mem → mmi addr < nr_pages
mmi_bound addr low high = omega (arith, low, high)

mmi_mono : (a b : ℕ) → low_mem ≤ a → a ≤ b → b < low_mem + total_mem → mmi a ≤ mmi b
mmi_mono a b low le high = omega (arith, low, le, high)

-- `mem_init` on a map of all the pages and a range above 1 MB and below the end of the memory
-- returns: the pages from that of the first address to that of the last one, included, are free,
-- every other page has the count 100, and `high_memory` is the last address.
pub mem_init-counts :
    (mem_start mem_end : ℕ) (s : Pages)
    → length s.mem_map ≡ nr_pages
    → low_mem ≤ mem_start
    → mem_start < mem_end
    → mem_end < low_mem + total_mem
    → (s' : Pages) × (mem_init mem_start mem_end s ≡ ok s')
      × (s'.high_memory ≡ mem_end)
      × (length s'.mem_map ≡ nr_pages)
      × ((i : ℕ) → mmi mem_start ≤ i → i ≤ mmi mem_end → Free s'.mem_map i)
      × ((i : ℕ)
          → i < nr_pages
          → i < mmi mem_start ⊎ mmi mem_end < i
          → get_or s'.mem_map i 1 ≡ reserved_page)
mem_init-counts mem_start mem_end s size low lt high =
    let end_bound : mmi mem_end < nr_pages = mmi_bound mem_end (omega arith) high in
    let start_bound : mmi mem_start ≤ mmi mem_end =
      mmi_mono mem_start mem_end low (omega arith) high in
    let (reserved, e, c) =
      fill_map-Changed nr_pages 0 reserved_page s.mem_map (omega (arith, size)) in
    let enough : mmi mem_end < length reserved = omega (arith, end_bound, c.same_length, size) in
    let (map, f, same, inside, outside) =
      fill_map-range (mmi mem_start) (mmi mem_end) 0 reserved start_bound enough in
    (
      record { high_memory = mem_end; mem_map = map },
      mem_init-fill mem_start mem_end s reserved map low lt high e f,
      refl,
      same ∙ c.same_length ∙ size,
      inside,
      λ i a out. outside i out ∙ c.inside i (omega arith) a,
    )
