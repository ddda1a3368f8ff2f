-- ===== src/Pages/Free.antt =====
-- mm/memory.c: `free_pages` undoes `alloc_pages`.
use native.Mathlib.Decide.{dec_lt}
use rxd_os.Prelude.{
  ℕ, suc, ◌+◌, ◌*◌, ◌%◌, ◌^◌, ◌≤◌, ◌<◌, ◌≡◌, refl, sym, ◌∙◌, ap, inl, inr, List, [], ◌∷◌, Outcome,
  ok, panic, arith, length, get_or, set, load-ok, store-ok, ltb, if◌then◌else◌, lt→ltb, le→ltb,
}
use rxd_os.Pages.{Pages, nr_pages, low_mem, mmi, release, free_pages, free_page}
use rxd_os.Pages.Scan.{Run}
use rxd_os.Pages.Alloc.{Changed, release-Changed}
use rxd_os.Pages.Blocks.{pow_pos, Allocated}

-- Two maps of the same length with the same counts.
same-counts :
    (xs ys : List ℕ) → length xs ≡ length ys → ((i : ℕ) → get_or xs i 1 ≡ get_or ys i 1) → xs ≡ ys
same-counts [] [] e h = refl
same-counts [] (y ∷ ys) e h = absurd (omega (arith, e))
same-counts (x ∷ xs) [] e h = absurd (omega (arith, e))
same-counts (x ∷ xs) (y ∷ ys) e h =
    let head : x ≡ y = h 0 in
    let tail : xs ≡ ys = same-counts xs ys (omega (arith, e)) (λ i. h (suc i)) in cc (head, tail)

mmi-page : (first : ℕ) → first < nr_pages → mmi (low_mem + first * 4096) ≡ first
mmi-page first h = omega (arith, h)

free_pages-release :
    (order first : ℕ) (s : Pages) (map : List ℕ)
    → first + 2 ^ order < nr_pages
    → mmi (low_mem + first * 4096) ≡ first
    → release (2 ^ order) first s.mem_map ≡ ok map
    → free_pages (low_mem + first * 4096) order s ≡ ok (record s { mem_map = map })
unfolding free_pages
free_pages-release order first s map h e r = ground (arith, e, r)

free_pages-past :
    (order first : ℕ) (s : Pages)
    → nr_pages ≤ first + 2 ^ order
    → mmi (low_mem + first * 4096) ≡ first
    → free_pages (low_mem + first * 4096) order s ≡ panic
unfolding free_pages
free_pages-past order first s h e = ground (arith, e)

release-page :
    (i : ℕ) (map : List ℕ)
    → i < length map
    → release 1 i map ≡ ok (set map i ((get_or map i 1 + 255) % 256))
unfolding release
release-page i map h =
    ground (arith, load-ok map i 1 h, store-ok map i ((get_or map i 1 + 255) % 256) h)

-- Giving the taken pages back restores the map.
restored :
    {n first : ℕ} (map taken map' : List ℕ)
    → Run map first n
    → Changed first n 1 map taken
    → Changed first n 0 taken map'
    → map' ≡ map
restored {n} {first} map taken map' run c d =
    same-counts map' map (d.same_length ∙ c.same_length) (λ i. elim (dec_lt i first) [
      | yes lt ↦ d.outside i (inl lt) ∙ c.outside i (inl lt)
      | no ge ↦ elim (dec_lt i (first + n)) [
        | yes lt ↦ d.inside i (omega arith) lt ∙ sym (run i (omega arith) lt)
        | no past ↦ d.outside i (inr (omega arith)) ∙ c.outside i (inr (omega arith))
      ]
    ])

abbrev pages : ℕ → List ℕ → Outcome Pages
pages high map = ok (record { high_memory = high; mem_map = map })

same-pages : {h h' : ℕ} {map map' : List ℕ} → h ≡ h' → map ≡ map' → pages h map ≡ pages h' map'
same-pages e f = cc

-- On a map of all the pages, `free_pages` of a block that `alloc_pages` took gives the state
-- before `alloc_pages` again, if the block ends before the last page. If it ends with the last
-- page `free_pages` panics.
pub free_pages-Allocated :
    (order addr : ℕ) (s s' : Pages)
    → length s.mem_map ≡ nr_pages
    → (a : Allocated (2 ^ order) s addr s')
    → free_pages addr order s' ≡ (if ltb (a.first + 2 ^ order) nr_pages then ok s else panic)
free_pages-Allocated order addr s s' size a = elim (dec_lt (a.first + 2 ^ order) nr_pages) [
  | yes h ↦ undone h
  | no past ↦ stopped (omega arith)
]
  where
    undone :
        a.first + 2 ^ order < nr_pages
        → free_pages addr order s' ≡ (if ltb (a.first + 2 ^ order) nr_pages then ok s else panic)
    undone h =
        let long : a.first + 2 ^ order ≤ length s'.mem_map =
          omega (arith, size, h, a.taken.same_length) in
        let (map, r, d) = release-Changed (2 ^ order) a.first s'.mem_map long a.taken.inside in
        let same : map ≡ s.mem_map = restored s.mem_map s'.mem_map map a.free a.taken d in
        ap (λ z. free_pages z order s') a.address
        ∙ free_pages-release order a.first s' map h (mmi-page a.first (omega (arith, h))) r
        ∙ same-pages a.same_high same
        ∙ sym (ap (λ b. if b then ok s else panic) (lt→ltb h))

    stopped :
        nr_pages ≤ a.first + 2 ^ order
        → free_pages addr order s' ≡ (if ltb (a.first + 2 ^ order) nr_pages then ok s else panic)
    stopped past =
        ap (λ z. free_pages z order s') a.address
        ∙ free_pages-past order a.first s' past
            (mmi-page a.first (omega (arith, a.fits, pow_pos order)))
        ∙ sym (ap (λ b. if b then ok s else panic) (le→ltb past))

-- On a map of all the pages, `free_page` of any page but the last takes 1 from its count. On a
-- page whose count is 0 it makes the count 255: the assertion does not stop it.
pub free_page-count :
    (i : ℕ) (s : Pages)
    → length s.mem_map ≡ nr_pages
    → i + 1 < nr_pages
    → free_page (low_mem + i * 4096) s
      ≡ ok (record s { mem_map = set s.mem_map i ((get_or s.mem_map i 1 + 255) % 256) })
unfolding free_page
free_page-count i s size h =
    free_pages-release 0 i s (set s.mem_map i ((get_or s.mem_map i 1 + 255) % 256)) h
      (mmi-page i (omega (arith, h))) (release-page i s.mem_map (omega (arith, size, h)))
