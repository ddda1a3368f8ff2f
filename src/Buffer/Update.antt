-- ===== src/Buffer/Update.antt =====
-- kernel/blk_drv/buffer.c: a change of one cached buffer, which keeps its block.
use native.Mathlib.Decide.{ℕ_discrete}
use mathlib.Core.Path.{subst}
use rxd_os.Chains.{occurrences}
use rxd_os.Prelude.{ℕ, ◌<◌, ◌^◌, ◌≡◌, ◌≢◌, inl, inr, refl, sym, ◌∙◌, ap, arith, length}
use rxd_os.Blk.{Drive, Blk, blk_dev_hd}
use rxd_os.Buffer.{BufferHead, Cache, put}
use rxd_os.Buffer.Disk.{DiskLaws, disk_block}
use rxd_os.Buffer.Coherence.{put-cases, Cached, Valid, view, view-Cached, view-other, view-is}

module _ {D : Type 0} {drive : Drive D} (laws : DiskLaws drive) where
  -- `h` is what buffer `c` becomes, and `blk` the disk then.
  pub record Update (s : Cache D) (c : ℕ) (h : BufferHead) (blk : Blk D) : Type 0 where
    pub cached : Cached s c
    pub same_dev : h.b_dev ≡ blk_dev_hd
    pub same_block : h.b_blocknr ≡ (s.heads c).b_blocknr
    pub same_uptodate : h.b_uptodate ≡ 1
    pub bytes : length h.b_data ≡ 1024
    pub users : h.b_count < 2 ^ 31
    pub rests : h.b_count ≡ 0 → h.b_data ≡ disk_block laws blk.disk h.b_blocknr
    pub is_clean : h.b_dirty ≢ 1 → h.b_data ≡ disk_block laws blk.disk h.b_blocknr
    pub others :
        (b : ℕ)
        → b ≢ (s.heads c).b_blocknr
        → disk_block laws blk.disk b ≡ disk_block laws s.blk.disk b

  abbrev pub updated : Cache D → ℕ → BufferHead → Blk D → Cache D
  updated s c h blk = record s { heads = put s.heads c h; blk = blk }

  module _ (s : Cache D) (c : ℕ) (h : BufferHead) (blk : Blk D) where
    -- A property of the new buffer, and of the old others, holds of every buffer.
    each : (P : BufferHead → Type 0) (x : ℕ) → P h → (x ≢ c → P (s.heads x)) → P (put s.heads c h x)
    each P x new old = elim (put-cases s.heads c h x) [
      | inl (_, e) ↦ subst P (sym e) new
      | inr (ne, e) ↦ subst P (sym e) (old ne)
    ]

    block_of :
        Valid laws s
        → Update s c h blk
        → (x : ℕ) → (put s.heads c h x).b_blocknr ≡ (s.heads x).b_blocknr
    block_of valid u x = elim (put-cases s.heads c h x) [
      | inl (same, e) ↦
          ap (λ q. q.b_blocknr) e ∙ u.same_block ∙ ap (λ y. (s.heads y).b_blocknr) (sym same)
      | inr (ne, e) ↦ ap (λ q. q.b_blocknr) e
    ]

    pub Update-Valid : Valid laws s → Update s c h blk → Valid laws (updated s c h blk)
    Update-Valid valid u = record {
      apart = valid.apart;
      size = λ x p. each (λ q. length q.b_data ≡ 1024) x u.bytes (λ _. valid.size x p);
      resting = λ x p. elim (put-cases s.heads c h x) [
        | inl (same, e) ↦ absurd (twice x p same)
        | inr (ne, e) ↦ ap (λ q. q.b_count) e ∙ valid.resting x p
      ];
      device = λ x p. each (λ q. q.b_dev ≡ blk_dev_hd) x u.same_dev (λ _. valid.device x p);
      uptodate = λ x p. each (λ q. q.b_uptodate ≡ 1) x u.same_uptodate (λ _. valid.uptodate x p);
      inside = λ x p. omega (arith, block_of valid u x, valid.inside x p);
      keys = λ x y p q e. valid.keys x y p q (sym (block_of valid u x) ∙ e ∙ block_of valid u y);
      counted = λ x p. each (λ q. q.b_count < 2 ^ 31) x u.users (λ _. valid.counted x p);
      synced = λ x p.
          each (λ q. q.b_count ≡ 0 → q.b_data ≡ disk_block laws blk.disk q.b_blocknr) x u.rests
            (λ ne zero. valid.synced x p zero ∙ kept x p ne);
      clean = λ x p.
          each (λ q. q.b_dirty ≢ 1 → q.b_data ≡ disk_block laws blk.disk q.b_blocknr) x u.is_clean
            (λ ne dirty. valid.clean x p dirty ∙ kept x p ne);
    }
      where
        twice : (x : ℕ) → 0 < occurrences x s.free_list → x ≢ c
        twice x p same =
            let here : occurrences x s.cached_list ≡ occurrences c s.cached_list =
              ap (λ y. occurrences y s.cached_list) same in
            omega (arith, here, u.cached, p, valid.apart x)

        kept :
            (x : ℕ)
            → Cached s x
            → x ≢ c
            → disk_block laws s.blk.disk (s.heads x).b_blocknr
              ≡ disk_block laws blk.disk (s.heads x).b_blocknr
        kept x p ne = sym (u.others (s.heads x).b_blocknr (λ e. ne (valid.keys x c p u.cached e)))

    -- The block of the buffer is what the buffer then holds.
    pub Update-view_here :
        Valid laws s
        → Update s c h blk
        → view laws (updated s c h blk) (s.heads c).b_blocknr ≡ h.b_data
    Update-view_here valid u =
        let here = elim (put-cases s.heads c h c) as (λ _. put s.heads c h c ≡ h) [
          | inl (_, e) ↦ e
          | inr (ne, e) ↦ absurd (ne refl)
        ] in
        let block : (s.heads c).b_blocknr ≡ (put s.heads c h c).b_blocknr =
          sym (block_of valid u c) in
        ap (view laws (updated s c h blk)) block
        ∙ view-Cached laws (updated s c h blk) c (Update-Valid valid u) u.cached
        ∙ ap (λ q. q.b_data) here

    pub Update-view_other :
        (b : ℕ)
        → Valid laws s
        → Update s c h blk
        → b ≢ (s.heads c).b_blocknr
        → view laws (updated s c h blk) b ≡ view laws s b
    Update-view_other b valid u ne =
        view-is laws b (updated s c h blk) (view laws s b) (Update-Valid valid u)
          (λ x p e. elim (put-cases s.heads c h x) [
            | inl (same, f) ↦ absurd (ne (sym e ∙ ap (λ q. q.b_blocknr) f ∙ u.same_block))
            | inr (other, f) ↦
                ap (λ q. q.b_data) f
                ∙ sym (view-Cached laws s x valid p)
                ∙ ap (view laws s) (sym (ap (λ q. q.b_blocknr) f) ∙ e)
          ])
          (λ absent.
            u.others b ne
            ∙ sym (view-other laws b s valid (λ x p e. absent x p (block_of valid u x ∙ e))))

    -- No block is changed, when the buffer shows what it showed.
    pub Update-view_same :
        (b : ℕ)
        → Valid laws s
        → Update s c h blk
        → h.b_data ≡ (s.heads c).b_data
        → view laws (updated s c h blk) b ≡ view laws s b
    Update-view_same b valid u e = elim (ℕ_discrete b (s.heads c).b_blocknr) [
      | yes same ↦
          ap (view laws (updated s c h blk)) same
          ∙ Update-view_here valid u
          ∙ e
          ∙ sym (view-Cached laws s c valid u.cached)
          ∙ ap (view laws s) (sym same)
      | no ne ↦ Update-view_other b valid u ne
    ]
