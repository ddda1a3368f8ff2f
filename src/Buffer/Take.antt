-- ===== src/Buffer/Take.antt =====
-- kernel/blk_drv/buffer.c: the state of the cache after `bread` has put a block into a buffer it got.
use native.Mathlib.Decide.{ℕ_discrete}
use mathlib.Core.Path.{subst}
use rxd_os.Chains.{occurrences, list_del-occurrences, list_del_self, list_del}
use rxd_os.Prelude.{
  ℕ, ◌+◌, ◌*◌, ◌≤◌, ◌<◌, ◌^◌, ◌≡◌, ◌≢◌, ◌⊎◌, inl, inr, refl, sym, ◌∙◌, ap, List, ◌∷◌, arith, length,
}
use rxd_os.Blk.{Drive, Blk, blk_dev_hd}
use rxd_os.Buffer.{BufferHead, Cache, put}
use rxd_os.Buffer.Disk.{DiskLaws, disk_block, InDisk, length-slice}
use rxd_os.Buffer.Coherence.{
  put-cases, Cached, Pooled, Valid, view, view-Cached, view-other, view-is,
}
use rxd_os.Buffer.Miss.{Got}

module _ {D : Type 0} {drive : Drive D} (laws : DiskLaws drive) where
  -- What `bread` makes of the buffer.
  abbrev pub head_of : Cache D → (cur b : ℕ) → BufferHead
  head_of s cur b = record (s.heads cur) {
    b_count = 1;
    b_dev = blk_dev_hd;
    b_blocknr = b;
    b_data = disk_block laws s.blk.disk b;
    b_uptodate = 1;
  }

  abbrev pub taken : Cache D → (b cur : ℕ) (cached free : List ℕ) → Blk D → Cache D
  taken s b cur cached free blk = record {
    heads = put s.heads cur (head_of s cur b);
    cached_list = cur ∷ cached;
    free_list = list_del cur free;
    blk = blk;
  }

  -- Block `b` is not cached, and its buffer comes from the lists.
  pub record Absent (s : Cache D) (b cur : ℕ) (cached free : List ℕ) (blk : Blk D) : Type 0 where
    pub valid : Valid laws s
    pub got : Got s cur cached free
    pub absent : (c : ℕ) → Cached s c → (s.heads c).b_blocknr ≢ b
    pub on_disk : InDisk laws b
    pub keep : (a : ℕ) → disk_block laws blk.disk a ≡ disk_block laws s.blk.disk a

  module _ (s : Cache D) (b cur : ℕ) (cached free : List ℕ) (blk : Blk D)
      (u : Absent s b cur cached free blk) where
    abbrev now : Cache D
    now = taken s b cur cached free blk

    abbrev made : BufferHead
    made = head_of s cur b

    not_cached : occurrences cur cached ≡ 0
    not_cached = omega (arith, u.got.is_free, u.got.pooled cur, u.valid.apart cur)

    pub cur-count : (s.heads cur).b_count ≡ 0
    cur-count = elim (u.got.unused_free cur u.got.is_free) [
      | inl h ↦ u.valid.resting cur h
      | inr e ↦ e
    ]

    pub cur-Pooled : Pooled s cur
    cur-Pooled = omega (arith, u.got.is_free, u.got.pooled cur)

    Cached-cases :
        (c : ℕ)
        → Cached now c
        → ((c ≡ cur) × (now.heads c ≡ made)) ⊎ ((c ≢ cur) × (now.heads c ≡ s.heads c) × Cached s c)
    unfolding occurrences
    Cached-cases c h = elim (put-cases s.heads cur made c) [
      | inl (same, e) ↦ inl (same, e)
      | inr (ne, e) ↦ inr (ne, e, ground (arith, ne, h, u.got.fewer c))
    ]

    -- A property of the new buffer and of those that were cached holds of all that are cached.
    each :
        (P : BufferHead → Type 0) (c : ℕ)
        → Cached now c
        → P made
        → (Cached s c → P (s.heads c))
        → P (now.heads c)
    each P c h new old = elim (Cached-cases c h) [
      | inl (_, e) ↦ subst P (sym e) new
      | inr (_, e, before) ↦ subst P (sym e) (old before)
    ]

    freed : (c : ℕ) → 0 < occurrences c (list_del cur free) → (c ≢ cur) × (0 < occurrences c free)
    freed c h = elim (list_del-occurrences cur c free) [
      | inl e ↦ (
        λ same.
            let here : occurrences c free ≡ occurrences cur free =
              ap (λ x. occurrences x free) same in
            let here' : occurrences c (list_del cur free) ≡ occurrences cur (list_del cur free) =
              ap (λ x. occurrences x (list_del cur free)) same in
            omega (arith, e, here, here', list_del_self cur free u.got.is_free),
        omega (arith, h, e),
      )
      | inr (same, e) ↦
          let here : occurrences c free ≡ occurrences cur free =
            ap (λ x. occurrences x free) same in
          absurd (omega (arith, h, e, here, u.got.pooled cur, u.valid.apart cur))
    ]

    now-apart : (c : ℕ) → occurrences c (cur ∷ cached) + occurrences c (list_del cur free) ≤ 1
    unfolding occurrences
    now-apart c = elim (ℕ_discrete cur c) [
      | yes same ↦
          let one = list_del_self cur free u.got.is_free in
          let here : occurrences c cached + occurrences c (list_del cur free) ≡ 0 =
            ap (λ x. occurrences x cached + occurrences x (list_del cur free)) (sym same)
            ∙ omega (arith, one, not_cached, u.got.pooled cur, u.valid.apart cur) in
          ground (arith, same, here)
      | no other ↦ elim (list_del-occurrences cur c free) [
        | inl e ↦ ground (arith, other, e, u.got.pooled c, u.valid.apart c)
        | inr (same, e) ↦ absurd (other (sym same))
      ]
    ]

    now-keys :
        (c d : ℕ)
        → Cached now c
        → Cached now d
        → (now.heads c).b_blocknr ≡ (now.heads d).b_blocknr
        → c ≡ d
    now-keys c d h h' e = elim (Cached-cases c h) [
      | inl (same, f) ↦ elim (Cached-cases d h') [
        | inl (same', _) ↦ same ∙ sym same'
        | inr (_, f', before') ↦ absurd (
            u.absent d before' (sym (ap (λ q. q.b_blocknr) (sym f) ∙ e ∙ ap (λ q. q.b_blocknr) f')))
      ]
      | inr (_, f, before) ↦ elim (Cached-cases d h') [
        | inl (_, f') ↦
            absurd
              (u.absent c before (ap (λ q. q.b_blocknr) (sym f) ∙ e ∙ ap (λ q. q.b_blocknr) f'))
        | inr (_, f', before') ↦
            u.valid.keys c d before before'
              (ap (λ q. q.b_blocknr) (sym f) ∙ e ∙ ap (λ q. q.b_blocknr) f')
      ]
    ]

    now-size : (c : ℕ) → Pooled now c → length (now.heads c).b_data ≡ 1024
    unfolding occurrences
    now-size c h = elim (put-cases s.heads cur made c) [
      | inl (_, e) ↦
          ap (λ q. length q.b_data) e ∙ length-slice (laws.byte s.blk.disk) (1024 * b) 1024
      | inr (ne, e) ↦
          ap (λ q. length q.b_data) e
          ∙ u.valid.size c (elim (list_del-occurrences cur c free) [
            | inl f ↦ ground (arith, ne, h, f, u.got.pooled c)
            | inr (same, _) ↦ absurd (ne same)
          ])
    ]

    pub taken-Valid : Valid laws now
    taken-Valid = record {
      apart = now-apart;
      size = now-size;
      resting = λ c h.
          let (ne, before) = freed c h in
          elim (put-cases s.heads cur made c) [
            | inl (same, _) ↦ absurd (ne same)
            | inr (_, e) ↦
                ap (λ q. q.b_count) e
                ∙ elim (u.got.unused_free c before) [ inl p ↦ u.valid.resting c p | inr p ↦ p ]
          ];
      device = λ c h. each (λ q. q.b_dev ≡ blk_dev_hd) c h refl (u.valid.device c);
      uptodate = λ c h. each (λ q. q.b_uptodate ≡ 1) c h refl (u.valid.uptodate c);
      inside = λ c h. each (λ q. InDisk laws q.b_blocknr) c h u.on_disk (u.valid.inside c);
      keys = now-keys;
      counted = λ c h. each (λ q. q.b_count < 2 ^ 31) c h (omega arith) (u.valid.counted c);
      synced = λ c h.
          each (λ q. q.b_count ≡ 0 → q.b_data ≡ disk_block laws blk.disk q.b_blocknr) c h
            (λ _. sym (u.keep b))
            (λ p e. u.valid.synced c p e ∙ sym (u.keep (s.heads c).b_blocknr));
      clean = λ c h.
          each (λ q. q.b_dirty ≢ 1 → q.b_data ≡ disk_block laws blk.disk q.b_blocknr) c h
            (λ _. sym (u.keep b)) (λ p e. u.valid.clean c p e ∙ sym (u.keep (s.heads c).b_blocknr));
    }

    -- A buffer that was cached and is no longer shows nothing but the disk.
    gone :
        (a : ℕ)
        → ((c : ℕ) → Cached now c → (now.heads c).b_blocknr ≢ a)
        → view laws s a ≡ disk_block laws s.blk.disk a
    unfolding occurrences
    gone a none_now =
        view-is laws a s (disk_block laws s.blk.disk a) u.valid
          (λ c h e.
            let out : occurrences c cached ≡ 0 = elim (ℕ_discrete (occurrences c cached) 0) [
              | yes zero ↦ zero
              | no there ↦ absurd (elim (put-cases s.heads cur made c) [
                | inl (same, _) ↦ there (ap (λ x. occurrences x cached) same ∙ not_cached)
                | inr (_, f) ↦ none_now c (ground (arith, there)) (ap (λ q. q.b_blocknr) f ∙ e)
              ])
            ] in
            u.valid.synced c h (u.got.dropped c h out) ∙ ap (disk_block laws s.blk.disk) e)
          (λ _. refl)

    pub taken-view : (a : ℕ) → view laws now a ≡ view laws s a
    taken-view a =
        view-is laws a now (view laws s a) taken-Valid
          (λ c h e. elim (Cached-cases c h) [
            | inl (_, f) ↦
                ap (λ q. q.b_data) f
                ∙ sym (view-other laws b s u.valid u.absent)
                ∙ ap (view laws s) (ap (λ q. q.b_blocknr) (sym f) ∙ e)
            | inr (_, f, before) ↦
                ap (λ q. q.b_data) f
                ∙ sym (view-Cached laws s c u.valid before)
                ∙ ap (view laws s) (ap (λ q. q.b_blocknr) (sym f) ∙ e)
          ])
          (λ none_now. u.keep a ∙ sym (gone a none_now))
