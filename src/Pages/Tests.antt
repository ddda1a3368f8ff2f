-- ===== src/Pages/Tests.antt =====
-- mm/memory.c: the theorems at concrete maps.
use rxd_os.Prelude.{
  ℕ, zero, suc, ◌≤◌, ◌<◌, ◌≡◌, ◌⊎◌, refl, List, ◌∷◌, ok, arith, length, get_or, replicate,
}
use rxd_os.Pages.{Pages, nr_pages, alloc_pages, free_pages}
use rxd_os.Pages.Scan.{Run, NoRun}
use rxd_os.Pages.Alloc.{Changed}
use rxd_os.Pages.Blocks.{Allocated, alloc_pages-Allocated}
use rxd_os.Pages.Free.{free_pages-Allocated}

get_or-copies : (n v i : ℕ) → i < n → get_or (replicate n v) i 1 ≡ v
get_or-copies zero v i h = absurd (omega arith)
get_or-copies (suc n) v zero h = refl
get_or-copies (suc n) v (suc i) h = get_or-copies n v i (omega arith)

abbrev memory : List ℕ → Pages
memory map = record { high_memory = 0xffffff; mem_map = map }

-- Only the first page is in use.
abbrev first_used : Pages
first_used = memory (1 ∷ replicate 3839 0)

abbrev two_used : Pages
two_used = memory (1 ∷ 1 ∷ replicate 3838 0)

abbrev all_used : Pages
all_used = memory (replicate 3840 100)

first_used-length : length first_used.mem_map ≡ nr_pages
first_used-length = refl

first_used-Run : (n : ℕ) → n ≤ 3839 → Run first_used.mem_map 1 n
first_used-Run n h zero a b = absurd (omega arith)
first_used-Run n h (suc i) a b = get_or-copies 3839 0 i (omega arith)

alloc_pages-Allocated_example :
    (out : ℕ × Pages) × (alloc_pages 2 first_used ≡ ok out) × Allocated 4 first_used out.0 out.1
alloc_pages-Allocated_example =
    alloc_pages-Allocated 2 1 first_used first_used-length (omega arith)
      (first_used-Run 4 (omega arith)) (omega arith)

all_used-NoRun : NoRun all_used.mem_map 2 nr_pages
all_used-NoRun s h run =
    omega (arith, run s (omega arith) (omega arith), get_or-copies 3840 100 s (omega arith))

two_used-Changed : Changed 1 1 1 first_used.mem_map two_used.mem_map
two_used-Changed = record { same_length = refl; inside = ins; outside = outs }
  where
    ins : (i : ℕ) → 1 ≤ i → i < 2 → get_or two_used.mem_map i 1 ≡ 1
    ins zero a b = refl
    ins (suc zero) a b = refl
    ins (suc (suc i)) a b = absurd (omega arith)

    outs : (i : ℕ) → i < 1 ⊎ 2 ≤ i → get_or two_used.mem_map i 1 ≡ get_or first_used.mem_map i 1
    outs zero o = refl
    outs (suc zero) o = absurd (omega arith)
    outs (suc (suc i)) o = refl

two_used-Allocated : Allocated 1 first_used 0x101000 two_used
two_used-Allocated = record {
  first = 1;
  address = refl;
  fits = omega arith;
  free = first_used-Run 1 (omega arith);
  lowest = lowest_first;
  same_high = refl;
  taken = two_used-Changed;
}
  where
    lowest_first : NoRun first_used.mem_map 1 1
    lowest_first zero h run = omega (arith, run 0 (omega arith) (omega arith))
    lowest_first (suc s) h run = omega arith

free_pages-Allocated_example : free_pages 0x101000 0 two_used ≡ ok first_used
unfolding two_used-Allocated
free_pages-Allocated_example =
    free_pages-Allocated 0 0x101000 first_used two_used first_used-length two_used-Allocated
