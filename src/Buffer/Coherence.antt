-- ===== src/Buffer/Coherence.antt =====
-- kernel/blk_drv/buffer.c: the block that the cache shows, which is that of a cached buffer or else that
-- of the disk, and the invariant that makes the two agree.
use native.Mathlib.Decide.{ℕ_discrete}
use rxd_os.Chains.{occurrences}
use rxd_os.Prelude.{
  ℕ, ◌+◌, ◌^◌, ◌≤◌, ◌<◌, ◌≡◌, ◌≢◌, ◌⊎◌, inl, inr, refl, sym, ◌∙◌, ap, true, false, List, none, some,
  arith, length,
}
use rxd_os.Blk.{Drive, blk_dev_hd}
use rxd_os.Buffer.{BufferHead, Heads, Cache, put, find_hit, is_hit}
use rxd_os.Buffer.Lists.{find_hit-cases}
use rxd_os.Buffer.Disk.{DiskLaws, disk_block, InDisk}

pub put-cases :
    (heads : Heads) (c : ℕ) (h : BufferHead) (x : ℕ)
    → ((x ≡ c) × (put heads c h x ≡ h)) ⊎ ((x ≢ c) × (put heads c h x ≡ heads x))
put-cases heads c h x = elim (ℕ_discrete x c) [
  | yes same ↦ inl (same, ground (arith, same))
  | no other ↦ inr (other, ground (arith, other))
]

module _ {D : Type 0} where
  abbrev pub Cached : Cache D → ℕ → Type 0
  Cached s c = 0 < occurrences c s.cached_list

  -- A buffer of the cache, in use or not.
  abbrev pub Pooled : Cache D → ℕ → Type 0
  Pooled s c = 0 < occurrences c s.cached_list + occurrences c s.free_list

  -- Fewer than 2 ^ 31 - 1 users have the buffer.
  abbrev pub CanShare : Cache D → Type 0
  CanShare s = (c : ℕ) → Cached s c → (s.heads c).b_count + 1 < 2 ^ 31

module _ {D : Type 0} {drive : Drive D} (laws : DiskLaws drive) where
  -- No buffer is in the lists twice; the cached buffers hold blocks of the disk, each of them one of
  -- its own; what is not dirty or not in use is what the disk has.
  pub record Valid (s : Cache D) : Type 0 where
    pub apart : (c : ℕ) → occurrences c s.cached_list + occurrences c s.free_list ≤ 1
    pub size : (c : ℕ) → Pooled s c → length (s.heads c).b_data ≡ 1024
    pub resting : (c : ℕ) → 0 < occurrences c s.free_list → (s.heads c).b_count ≡ 0
    pub device : (c : ℕ) → Cached s c → (s.heads c).b_dev ≡ blk_dev_hd
    pub uptodate : (c : ℕ) → Cached s c → (s.heads c).b_uptodate ≡ 1
    pub inside : (c : ℕ) → Cached s c → InDisk laws (s.heads c).b_blocknr
    pub keys :
        (c d : ℕ) → Cached s c → Cached s d → (s.heads c).b_blocknr ≡ (s.heads d).b_blocknr → c ≡ d
    pub counted : (c : ℕ) → Cached s c → (s.heads c).b_count < 2 ^ 31
    pub synced :
        (c : ℕ)
        → Cached s c
        → (s.heads c).b_count ≡ 0
        → (s.heads c).b_data ≡ disk_block laws s.blk.disk (s.heads c).b_blocknr
    pub clean :
        (c : ℕ)
        → Cached s c
        → (s.heads c).b_dirty ≢ 1
        → (s.heads c).b_data ≡ disk_block laws s.blk.disk (s.heads c).b_blocknr

  -- What a read of block `b` of the disk gives.
  unfoldable pub view : Cache D → ℕ → List ℕ
  view s b = elim (find_hit blk_dev_hd b s.heads s.cached_list) [
    | none ↦ disk_block laws s.blk.disk b
    | some c ↦ (s.heads c).b_data
  ]

  -- A cached buffer is hit exactly by its own block.
  hit-blocknr : (b : ℕ) (h : BufferHead) → is_hit blk_dev_hd b h ≡ true → h.b_blocknr ≡ b
  hit-blocknr b h e = ground (arith, e)

  blocknr-hit :
      (b : ℕ) (h : BufferHead)
      → h.b_dev ≡ blk_dev_hd
      → h.b_uptodate ≡ 1
      → h.b_blocknr ≡ b
      → is_hit blk_dev_hd b h ≡ true
  blocknr-hit b h dev up e = ground (arith, dev, up, e)

  true≢false : true ≢ false
  true≢false e = ground (arith, e)

  pub search-cases :
      (b : ℕ) (s : Cache D)
      → Valid s
      → ((c : ℕ) × (find_hit blk_dev_hd b s.heads s.cached_list ≡ some c)
          × Cached s c
          × ((s.heads c).b_blocknr ≡ b))
        ⊎ ((find_hit blk_dev_hd b s.heads s.cached_list ≡ none)
            × ((c : ℕ) → Cached s c → (s.heads c).b_blocknr ≢ b))
  search-cases b s valid = elim (find_hit-cases s.heads blk_dev_hd b s.cached_list) [
    | inl (c, run, h, hit) ↦ inl (c, run, h, hit-blocknr b (s.heads c) hit)
    | inr (run, all) ↦ inr (
      run,
      λ c h e.
          true≢false
            (sym (blocknr-hit b (s.heads c) (valid.device c h) (valid.uptodate c h) e) ∙ all c h),
    )
  ]

  pub view-Cached :
      (s : Cache D) (c : ℕ)
      → Valid s
      → Cached s c
      → view s (s.heads c).b_blocknr ≡ (s.heads c).b_data
  unfolding view
  view-Cached s c valid h = elim (search-cases (s.heads c).b_blocknr s valid) [
    | inl (d, run, h', same) ↦
        rw (run, view) (ap (λ x. (s.heads x).b_data) (valid.keys d c h' h same))
    | inr (run, absent) ↦ absurd (absent c h refl)
  ]

  pub view-other :
      (b : ℕ) (s : Cache D)
      → Valid s
      → ((c : ℕ) → Cached s c → (s.heads c).b_blocknr ≢ b)
      → view s b ≡ disk_block laws s.blk.disk b
  unfolding view
  view-other b s valid absent = elim (search-cases b s valid) [
    | inl (d, run, h, same) ↦ absurd (absent d h same)
    | inr (run, all) ↦ rw (run, view) refl
  ]

  -- What shows that a state has a given block.
  pub view-is :
      (b : ℕ) (s : Cache D) (bytes : List ℕ)
      → Valid s
      → ((c : ℕ) → Cached s c → (s.heads c).b_blocknr ≡ b → (s.heads c).b_data ≡ bytes)
      → (((c : ℕ) → Cached s c → (s.heads c).b_blocknr ≢ b) → disk_block laws s.blk.disk b ≡ bytes)
      → view s b ≡ bytes
  unfolding view
  view-is b s bytes valid here there = elim (search-cases b s valid) [
    | inl (d, run, h, same) ↦ rw (run, view) (here d h same)
    | inr (run, all) ↦ rw (run, view) (there all)
  ]
