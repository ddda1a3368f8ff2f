-- ===== src/Pages/Borrow.antt =====
-- mm/memory.c: a page that is taken and given back.
use native.Mathlib.Decide.{dec_lt}
use rxd_os.Prelude.{
  ℕ, suc, ◌+◌, ◌*◌, ◌≤◌, ◌<◌, ◌≡◌, ◌∷◌, ok, arith, length, replicate, length-replicate, ap, get_or,
}
use rxd_os.Pages.{Pages, nr_pages, low_mem, alloc_page, free_page}
use rxd_os.Pages.Scan.{Run}
use rxd_os.Pages.Blocks.{alloc_pages-Allocated}
use rxd_os.Pages.Free.{free_pages-Allocated}

-- A page can be taken, and is given back as it was.
pub record CanBorrow (pages : Pages) : Type 0 where
  pub buffer : ℕ
  pub rest : Pages
  pub alloc : alloc_page pages ≡ ok (buffer, rest)
  pub free : free_page buffer rest ≡ ok pages

-- A free page that is not the last one can be borrowed.
pub Run-CanBorrow :
    (low : ℕ) (s : Pages)
    → length s.mem_map ≡ nr_pages
    → low + 1 < nr_pages
    → Run s.mem_map low 1
    → low_mem + low * 4096 < s.high_memory
    → CanBorrow s
unfolding alloc_page free_page
Run-CanBorrow low s size inside run high =
    let ((addr, s'), alloc, a) =
      alloc_pages-Allocated 0 low s size (omega (arith, inside)) run high in
    let first : a.first ≤ low = elim (dec_lt low a.first) [
      | yes before ↦ absurd (a.lowest low (omega (arith, before)) run)
      | no here ↦ omega (arith, here)
    ] in
    record {
      buffer = addr;
      rest = s';
      alloc = alloc;
      free = ground (arith, free_pages-Allocated 0 addr s s' size a, first, inside);
    }

-- All pages are free.
abbrev pub all_free : Pages
all_free = record { high_memory = 0xffffff; mem_map = 0 ∷ replicate 3839 0 }

pub all_free-CanBorrow : CanBorrow all_free
all_free-CanBorrow =
    Run-CanBorrow 0 all_free (ap suc (length-replicate {A = ℕ} 3839 0)) (omega arith)
      (λ i a b. ap (λ j. get_or all_free.mem_map j 1) (only i b)) (omega arith)
  where
    only : (i : ℕ) → i < 1 → i ≡ 0
    only i h = omega (arith, h)
