-- ===== src/Buffer/Init.antt =====
-- kernel/blk_drv/buffer.c: the cache that `buffer_init` makes.
use mathlib.Core.Path.{subst}
use rxd_os.Chains.{occurrences}
use rxd_os.Prelude.{
  ℕ, ◌+◌, ◌-◌, ◌*◌, ◌/◌, ◌≤◌, ◌<◌, ◌≡◌, ◌≢◌, ◌⊎◌, inl, inr, refl, ◌∙◌, ap, List, [], ◌∷◌, ok, arith,
  length,
}
use rxd_os.Blk.{Drive, Blk}
use rxd_os.Buffer.{Heads, Cache, Area, bytes_at, buffer_init}
use rxd_os.Buffer.Disk.{DiskLaws}
use rxd_os.Buffer.Coherence.{Valid}
use rxd_os.Buffer.Miss.{Room, one_free}
use rxd_os.Buffer.Rounds.{Placed, Made, blank_area, length-bytes_at, buffer_init-Made}

-- The free buffers lie one behind the other from `start` on, each has a block of 1024 bytes of its own below
-- `end` and behind all buffers, and it holds what is there in memory.
pub record OwnBlocks (memory : ℕ → ℕ) (start end n : ℕ) (s : Area) : Type 0 where
  pub heads_inside : (x : ℕ) → 0 < occurrences x s.free → (start ≤ x) × (x + 56 ≤ start + 56 * n)
  pub heads_apart :
      (x y : ℕ)
      → 0 < occurrences x s.free
      → 0 < occurrences y s.free
      → x ≢ y
      → (x + 56 ≤ y) ⊎ (y + 56 ≤ x)
  pub blocks_inside :
      (x : ℕ) → 0 < occurrences x s.free → (start + 56 * n ≤ s.blocks x) × (s.blocks x + 1024 ≤ end)
  pub blocks_apart :
      (x y : ℕ)
      → 0 < occurrences x s.free
      → 0 < occurrences y s.free
      → x ≢ y
      → (s.blocks x + 1024 ≤ s.blocks y) ⊎ (s.blocks y + 1024 ≤ s.blocks x)
  pub bytes :
      (x : ℕ) → 0 < occurrences x s.free → (s.heads x).b_data ≡ bytes_at memory (s.blocks x) 1024

-- What is in the free list of an area that was blank is one of its buffers.
free-Placed :
    (memory : ℕ → ℕ) (buffer block k : ℕ) (heads : Heads) (s : Area) (x : ℕ)
    → Made memory buffer block (blank_area heads) s k
    → 0 < occurrences x s.free
    → Placed memory buffer block k x s
unfolding occurrences
free-Placed memory buffer block k heads s x made h = elim (made.placed x h) [
  | inl before ↦ absurd (omega (arith, before))
  | inr placed ↦ placed
]

Made-OwnBlocks :
    (memory : ℕ → ℕ) (start end k : ℕ) (heads : Heads) (s : Area)
    → 1024 ≤ end
    → Made memory start (end - 1024) (blank_area heads) s k
    → OwnBlocks memory start end k s
Made-OwnBlocks memory start end k heads s h made = record {
  heads_inside = λ x p.
      let a = free-Placed memory start (end - 1024) k heads s x made p in
      (omega (arith, a.place), omega (arith, a.place, a.inside));
  heads_apart = λ x y p q ne.
      let a = free-Placed memory start (end - 1024) k heads s x made p in
      let b = free-Placed memory start (end - 1024) k heads s y made q in
      omega (arith, a.place, b.place, ne);
  blocks_inside = λ x p.
      let a = free-Placed memory start (end - 1024) k heads s x made p in
      elim made.fits [
        | inl none ↦ absurd (omega (arith, none, a.inside))
        | inr some ↦ (omega (arith, some, a.here, a.inside, h), omega (arith, a.here, h))
      ];
  blocks_apart = λ x y p q ne.
      let a = free-Placed memory start (end - 1024) k heads s x made p in
      let b = free-Placed memory start (end - 1024) k heads s y made q in
      omega (arith, a.place, b.place, a.here, b.here, ne);
  bytes = λ x p. (free-Placed memory start (end - 1024) k heads s x made p).bytes;
}

buffer_count :
    (memory : ℕ → ℕ) (start end k : ℕ) (heads : Heads) (s : Area)
    → 1024 ≤ end
    → Made memory start (end - 1024) (blank_area heads) s k
    → k ≡ (end - start) / 1080
buffer_count memory start end k heads s h made = elim made.fits [
  | inl still ↦ omega (arith, still, made.full, h)
  | inr some ↦ omega (arith, some, made.full, h)
]

-- The cache that an area makes, with no block in it.
abbrev pub cache_on : {D : Type 0} → Area → Blk D → Cache D
cache_on s blk = record { heads = s.heads; cached_list = []; free_list = s.free; blk = blk }

module _ {D : Type 0} {drive : Drive D} (laws : DiskLaws drive) where
  -- If the counts in the memory at `start` are zero (buffer_init writes none), buffer_init of an area of at
  -- least 1080 bytes that ends at 1024 or behind returns the number of buffers, one for each 1080 bytes.
  -- The buffers do not overlap, each has 1024 bytes in the area for itself, behind all buffers, and they are
  -- a valid cache with room, for every request table and disk.
  pub buffer_init-Valid :
      (memory : ℕ → ℕ) (start end : ℕ) (heads : Heads) (blk : Blk D)
      → 1024 ≤ end
      → start + 1080 ≤ end
      → ((x : ℕ) → (heads x).b_count ≡ 0)
      → (s : Area) × (buffer_init memory start end heads ≡ ok (s, (end - start) / 1080))
        × (length s.free ≡ (end - start) / 1080)
        × OwnBlocks memory start end ((end - start) / 1080) s
        × Valid laws (cache_on s blk)
        × Room (cache_on s blk)
  unfolding occurrences
  buffer_init-Valid memory start end heads blk h large zeros =
      let (s, k, run, made) = buffer_init-Made memory start end heads h in
      let count : k ≡ (end - start) / 1080 = buffer_count memory start end k heads s h made in
      let own : OwnBlocks memory start end k s = Made-OwnBlocks memory start end k heads s h made in
      (
        s,
        run ∙ ap (λ n. ok (s, n)) count,
        made.many ∙ omega (arith, count),
        subst (λ n. OwnBlocks memory start end n s) count own,
        record {
          apart = λ x. omega (arith, made.once x (omega arith) (λ p. absurd (omega (arith, p))));
          size = λ x p.
              ap length (own.bytes x (omega (arith, p))) ∙ length-bytes_at memory (s.blocks x) 1024;
          resting = λ x p. made.counts x ∙ zeros x;
          device = λ x p. absurd (omega (arith, p));
          uptodate = λ x p. absurd (omega (arith, p));
          inside = λ x p. absurd (omega (arith, p));
          keys = λ x y p q e. absurd (omega (arith, p));
          counted = λ x p. absurd (omega (arith, p));
          synced = λ x p e. absurd (omega (arith, p));
          clean = λ x p e. absurd (omega (arith, p));
        },
        some_free (cache_on s blk) s.free refl (omega (arith, made.many, made.full, large, h)),
      )
    where
      some_free : (s : Cache D) (l : List ℕ) → s.free_list ≡ l → 0 < length l → Room s
      some_free s [] e h = absurd (omega (arith, h))
      some_free s (b ∷ rest) e h = one_free b rest e
