-- ===== src/Buffer/Sample.antt =====
-- kernel/blk_drv/buffer.c: a drive that keeps its bytes in a function, and caches on it. They show that
-- the laws of a disk and the conditions of the theorems can hold.
use native.Mathlib.Decide.{ℕ_discrete}
use rxd_os.Chains.{occurrences}
use rxd_os.Prelude.{
  ℕ, ◌+◌, ◌*◌, ◌^◌, ◌≤◌, ◌<◌, ◌≡◌, refl, false, List, [], ◌∷◌, ok, arith, ◌==◌, if◌then◌else◌,
  replicate, length-replicate,
}
use rxd_os.Blk.{Drive, Blk, no_dev, bio_read}
use rxd_os.Blk.Slots.{spare, Ready}
use rxd_os.Blk.Transfer.{cmd_of}
use rxd_os.Buffer.{Heads, Cache}
use rxd_os.Buffer.Disk.{DiskLaws, slice, overwritten}
use rxd_os.Buffer.Coherence.{Valid}
use rxd_os.Buffer.Read.{users}
use rxd_os.Buffer.Session.{Idle}

abbrev pub ram : Drive (ℕ → ℕ)
ram = record {
  handle = λ cmd buffer d.
      if cmd.rw == bio_read
      then ok (slice d (512 * cmd.sector) (512 * cmd.count), d)
      else ok (buffer, overwritten d (512 * cmd.sector) buffer);
}

abbrev pub ram_laws_of : (capacity : ℕ) → capacity ≤ 2 ^ 28 → DiskLaws ram
ram_laws_of capacity bound = record {
  byte = λ d. d;
  capacity = capacity;
  capacity_bound = bound;
  read_lem = λ sector count buffer d some few h size. (d, refl, λ a. refl);
  write_lem = λ sector count buffer d some few h size.
      (overwritten d (512 * sector) buffer, refl, λ a. refl);
}

pub small_bound : 2880 ≤ 2 ^ 28
small_bound = omega arith

abbrev pub ram_laws : DiskLaws ram
ram_laws = ram_laws_of 2880 small_bound

pub big_bound : 8192 ≤ 2 ^ 28
big_bound = omega arith

-- A disk that has the 4096 blocks of a map.
abbrev pub big_laws : DiskLaws ram
big_laws = ram_laws_of 8192 big_bound

-- No request was made of a disk with these bytes.
abbrev pub table_of : (ℕ → ℕ) → Blk (ℕ → ℕ)
table_of bytes = record {
  request = replicate 32 (record { cmd = cmd_of 0 0 0; dev = no_dev });
  busy = replicate 4 false;
  disk = bytes;
}

abbrev pub empty_table : Blk (ℕ → ℕ)
empty_table = table_of (λ a. 0)

table_of-Ready : (bytes : ℕ → ℕ) (n : ℕ) → n ≤ 22 → Ready n (table_of bytes)
unfolding spare
table_of-Ready bytes n h = record { size = refl; devices = refl; idle = refl; room = room_of refl }
  where
    room_of : {m : ℕ} → m ≡ 22 → n ≤ m
    room_of e = omega (arith, e, h)

pub empty_table-Ready : Ready 4 empty_table
empty_table-Ready = table_of-Ready (λ a. 0) 4 (omega arith)

abbrev zeros : List ℕ
zeros = replicate 1024 0

abbrev pub sevens : List ℕ
sevens = replicate 1024 7

-- Memory with an unused buffer at every address.
abbrev pub blank : Heads
blank x = record {
  b_dev = 0;
  b_blocknr = 0;
  b_uptodate = 0;
  b_dirty = 0;
  b_count = 0;
  b_data = replicate 1024 0;
}

-- Two buffers, both free.
abbrev pub cache_of : (ℕ → ℕ) → Cache (ℕ → ℕ)
cache_of bytes = record {
  heads = blank;
  cached_list = [];
  free_list = 1 ∷ 2 ∷ [];
  blk = table_of bytes;
}

abbrev pub fresh : Cache (ℕ → ℕ)
fresh = cache_of (λ a. 0)

once : (c : ℕ) → occurrences c (1 ∷ 2 ∷ []) ≤ 1
unfolding occurrences
once c = elim (ℕ_discrete 1 c) [ yes e ↦ ground (arith, e) | no ne ↦ ground (arith, ne) ]

module _ (capacity : ℕ) (bound : capacity ≤ 2 ^ 28) (bytes : ℕ → ℕ) where
  cache_of-Valid_at : Valid (ram_laws_of capacity bound) (cache_of bytes)
  unfolding occurrences
  cache_of-Valid_at = record {
    apart = λ c. omega (arith, once c);
    size = λ c h. length-replicate {A = ℕ} 1024 0;
    resting = λ c h. refl;
    device = λ c h. absurd (omega (arith, h));
    uptodate = λ c h. absurd (omega (arith, h));
    inside = λ c h. absurd (omega (arith, h));
    keys = λ c d h. absurd (omega (arith, h));
    counted = λ c h. absurd (omega (arith, h));
    synced = λ c h. absurd (omega (arith, h));
    clean = λ c h. absurd (omega (arith, h));
  }

  cache_of-Idle_at : (n : ℕ) → n ≤ 22 → Idle (ram_laws_of capacity bound) n (cache_of bytes)
  unfolding occurrences users
  cache_of-Idle_at n h = record {
    valid = cache_of-Valid_at;
    ready = table_of-Ready bytes n h;
    no_users = λ x. refl;
    some_buffer = (1, ground arith);
  }

pub cache_of-Valid : (bytes : ℕ → ℕ) → Valid ram_laws (cache_of bytes)
cache_of-Valid bytes = cache_of-Valid_at 2880 small_bound bytes

pub cache_of-Idle : (bytes : ℕ → ℕ) (n : ℕ) → n ≤ 22 → Idle ram_laws n (cache_of bytes)
cache_of-Idle bytes n h = cache_of-Idle_at 2880 small_bound bytes n h

pub big-Valid : (bytes : ℕ → ℕ) → Valid big_laws (cache_of bytes)
big-Valid bytes = cache_of-Valid_at 8192 big_bound bytes

pub big-Idle : (bytes : ℕ → ℕ) (n : ℕ) → n ≤ 22 → Idle big_laws n (cache_of bytes)
big-Idle bytes n h = cache_of-Idle_at 8192 big_bound bytes n h

pub fresh-Valid : Valid ram_laws fresh
fresh-Valid = cache_of-Valid (λ a. 0)

pub fresh-Idle : Idle ram_laws 4 fresh
fresh-Idle = cache_of-Idle (λ a. 0) 4 (omega arith)

-- Buffer 1 holds block 5, changed and with one user; buffer 2 is free.
abbrev pub in_use : Cache (ℕ → ℕ)
in_use = record {
  heads = λ x. record {
    b_dev = 3;
    b_blocknr = 5;
    b_uptodate = 1;
    b_dirty = 1;
    b_count = if x == 1 then 1 else 0;
    b_data = replicate 1024 7;
  };
  cached_list = 1 ∷ [];
  free_list = 2 ∷ [];
  blk = empty_table;
}

only : (c : ℕ) → 0 < occurrences c (1 ∷ []) → c ≡ 1
unfolding occurrences
only c h = ground (arith, h)

only_free : (c : ℕ) → 0 < occurrences c (2 ∷ []) → c ≡ 2
unfolding occurrences
only_free c h = ground (arith, h)

apart_lists : (c : ℕ) → occurrences c (1 ∷ []) + occurrences c (2 ∷ []) ≤ 1
unfolding occurrences
apart_lists c = elim (ℕ_discrete 1 c) [ yes e ↦ ground (arith, e) | no ne ↦ ground (arith, ne) ]

pub in_use-Valid : Valid ram_laws in_use
in_use-Valid = record {
  apart = apart_lists;
  size = λ c h. length-replicate {A = ℕ} 1024 7;
  resting = λ c h. ground (arith, only_free c h);
  device = λ c h. refl;
  uptodate = λ c h. refl;
  inside = λ c h. omega arith;
  keys = λ c d h h' e. omega (arith, only c h, only d h');
  counted = λ c h. ground (arith, only c h);
  synced = λ c h e. absurd (ground (arith, only c h, e));
  clean = λ c h ne. absurd (ne refl);
}
