-- ===== src/Pages.antt =====
-- mm/memory.c: the map of the physical pages above 1 MB and the allocation of blocks of pages. The
-- page tables of the same file are not part of this module.
pub mod Scan
pub mod Alloc
pub mod Blocks
pub mod Free
pub mod Init
pub mod Zeroed
pub mod Borrow
mod Tests
use rxd_os.Prelude.{
  ℕ, zero, suc, ◌+◌, ◌-◌, ◌*◌, ◌/◌, ◌%◌, ◌^◌, not, ◌&&◌, List, Outcome, ok, panic, ◌>>=◌, ◌>>◌,
  assert, load, store, ltb, leb, ◌==◌, if◌then◌else◌,
}
use rxd_os.Memory.{Memory}
use rxd_os.Str.{memset}

abbrev pub page_size : ℕ
page_size = 4096

abbrev pub low_mem : ℕ
low_mem = 0x100000

abbrev pub total_mem : ℕ
total_mem = 15 * 1024 * 1024

-- `TOTAL_MEM >> 12`
abbrev pub nr_pages : ℕ
nr_pages = 3840

abbrev pub reserved_page : ℕ
reserved_page = 100

-- `mmi(addr)` on a 32-bit unsigned long.
abbrev pub mmi : ℕ → ℕ
mmi addr = (addr + 2 ^ 32 - low_mem) % 2 ^ 32 / 4096

-- `HIGH_MEMORY`, and the count of users of each page in an unsigned char.
pub record Pages : Type 0 where
  pub high_memory : ℕ
  pub mem_map : List ℕ

pub fill_map : (rounds i v : ℕ) → List ℕ → Outcome (List ℕ)
fill_map zero i v map = ok map
fill_map (suc rounds) i v map = do map ← store map i v; fill_map rounds (i + 1) v map

pub mem_init : (mem_start mem_end : ℕ) → Pages → Outcome Pages
mem_init mem_start mem_end s = do
  assert (leb low_mem mem_start && (ltb mem_start mem_end && ltb mem_end (low_mem + total_mem)))
  map ← fill_map nr_pages 0 reserved_page s.mem_map
  map ← fill_map (mmi mem_end + 1 - mmi mem_start) (mmi mem_start) 0 map
  ok (record { high_memory = mem_end; mem_map = map })

-- The search of `alloc_pages`: the `i` and the `accum` with which it ends. At the end of the map
-- `i` is `nr_pages`.
pub scan : (rounds i accum require : ℕ) → List ℕ → Outcome (ℕ × ℕ)
scan zero i accum require map = ok (i, accum)
scan (suc rounds) i accum require map = do
  b ← load map i
  let accum = (if b == 0 then accum + 1 else 0)
  if accum == require then ok (i, accum) else scan rounds (i + 1) accum require map

-- The loop that takes the pages, downwards. `next` is `i + 1`, as `i` ends one below the block.
pub mark : (accum next : ℕ) → List ℕ → Outcome (ℕ × List ℕ)
mark zero next map = ok (next, map)
mark (suc accum) next map = do
  b ← load map (next - 1)
  assert (b == 0)
  map ← store map (next - 1) ((b + 1) % 256)
  mark accum (next - 1) map

-- The result is the address of the block. C leaves the shift open for an `order` of 32 or more.
pub alloc_pages : (order : ℕ) → Pages → Outcome (ℕ × Pages)
alloc_pages order s = do
  (i, accum) ← scan nr_pages 0 0 (2 ^ order) s.mem_map
  if i == nr_pages then panic else (do
    (i, map) ← mark accum (i + 1) s.mem_map
    let page = low_mem + i * 4096
    assert (leb low_mem page && ltb page s.high_memory)
    ok (page, record s { mem_map = map }))

pub alloc_page : Pages → Outcome (ℕ × Pages)
alloc_page s = alloc_pages 0 s

pub alloc_zeroed_page : Pages → Memory → Outcome (ℕ × Pages × Memory)
alloc_zeroed_page s m = do
  (addr, s) ← alloc_pages 0 s
  m ← memset addr 0 page_size m
  ok (addr, s, m)

-- `--mem_map[start]` on an unsigned char, which the assertion behind it takes to be signed: an
-- unsigned char is never below 0.
pub release : (require start : ℕ) → List ℕ → Outcome (List ℕ)
release zero start map = ok map
release (suc require) start map = do
  b ← load map start
  let b = (b + 255) % 256
  map ← store map start b
  assert (leb 0 b)
  release require (start + 1) map

pub free_pages : (addr order : ℕ) → Pages → Outcome Pages
free_pages addr order s = do
  let require = 2 ^ order
  let start = mmi addr
  assert (ltb (start + require) nr_pages)
  map ← release require start s.mem_map
  ok (record s { mem_map = map })

pub free_page : (addr : ℕ) → Pages → Outcome Pages
free_page addr s = free_pages addr 0 s
