-- ===== src/Buffer/Release.antt =====
-- kernel/blk_drv/buffer.c: `brelease`, and `bwrite` behind a change of the data.
use native.Mathlib.Decide.{ℕ_discrete}
use mathlib.Core.Path.{subst, fun_ext}
use rxd_os.Prelude.{
  ℕ, suc, ◌+◌, ◌-◌, ◌<◌, ◌^◌, ◌%◌, ◌≡◌, ◌≢◌, refl, sym, ◌∙◌, ap, List, ok, arith, length,
}
use rxd_os.Blk.{Drive}
use rxd_os.Blk.Slots.{Ready}
use rxd_os.Buffer.{BufferHead, Cache, put, brelease, bwrite, set_data}
use rxd_os.Buffer.Disk.{DiskLaws, disk_block, transfer-write}
use rxd_os.Buffer.Coherence.{Cached, Valid, view}
use rxd_os.Buffer.Update.{
  Update, updated, Update-Valid, Update-view_here, Update-view_other, Update-view_same,
}
use rxd_os.Buffer.Read.{Ready-less, users}

module _ {D : Type 0} {drive : Drive D} (laws : DiskLaws drive) where
  -- Buffer `c` of `s` has one user less in `s'`; the disk has its data if that was the last one.
  pub record Released (n : ℕ) (s : Cache D) (c : ℕ) (s' : Cache D) : Type 0 where
    pub valid : Valid laws s'
    pub ready : Ready n s'.blk
    pub cached_same : s'.cached_list ≡ s.cached_list
    pub free_same : s'.free_list ≡ s.free_list
    pub same : (a : ℕ) → view laws s' a ≡ view laws s a
    pub on_disk :
        users s c ≡ 1 → disk_block laws s'.blk.disk (s.heads c).b_blocknr ≡ (s.heads c).b_data
    pub count : users s' c + 1 ≡ users s c
    pub counts : (x : ℕ) → x ≢ c → users s' x ≡ users s x

  module _ (n : ℕ) (s : Cache D) (c : ℕ) (valid : Valid laws s) (ready : Ready (suc n) s.blk)
      (h : Cached s c) where
    abbrev head : BufferHead
    head = s.heads c

    users-count : users s c ≡ head.b_count
    unfolding users
    users-count = ground (arith, h)

    brelease_written :
        head.b_count ≡ 1
        → head.b_dirty ≡ 1
        → (s' : Cache D) × (brelease drive c s ≡ ok s') × Released n s c s'
    unfolding brelease users
    brelease_written one dirty =
        let (blk, run, here, others, ready') =
          transfer-write laws n head s.blk ready (valid.device c h) (valid.inside c h)
            (valid.size c (omega (arith, h))) in
        let next : BufferHead = record head { b_count = 0; b_dirty = 0 } in
        let u : Update laws s c next blk = record {
          cached = h;
          same_dev = valid.device c h;
          same_block = refl;
          same_uptodate = valid.uptodate c h;
          bytes = valid.size c (omega (arith, h));
          users = omega arith;
          rests = λ _. sym here;
          is_clean = λ _. sym here;
          others = others;
        } in
        (
          updated laws s c next blk,
          ground (arith, one, dirty, run),
          record {
            valid = Update-Valid laws s c next blk valid u;
            ready = ready';
            cached_same = refl;
            free_same = refl;
            same = λ a. Update-view_same laws s c next blk a valid u refl;
            on_disk = λ _. here;
            count = ground (arith, one, h);
            counts = λ x ne. ground (arith, ne);
          },
        )

    brelease_kept :
        0 < head.b_count
        → (head.b_count ≡ 1 → head.b_dirty ≢ 1)
        → (s' : Cache D) × (brelease drive c s ≡ ok s') × Released n s c s'
    unfolding brelease users
    brelease_kept some clean =
        let few = valid.counted c h in
        let next : BufferHead = record head { b_count = (head.b_count + (2 ^ 32 - 1)) % 2 ^ 32 } in
        let less : next.b_count + 1 ≡ head.b_count = omega (arith, some, few) in
        let u : Update laws s c next s.blk = record {
          cached = h;
          same_dev = valid.device c h;
          same_block = refl;
          same_uptodate = valid.uptodate c h;
          bytes = valid.size c (omega (arith, h));
          users = omega (arith, less, few);
          rests = λ e. valid.clean c h (clean (omega (arith, less, e)));
          is_clean = valid.clean c h;
          others = λ a ne. refl;
        } in
        (
          updated laws s c next s.blk,
          ground (arith, less, few, clean),
          record {
            valid = Update-Valid laws s c next s.blk valid u;
            ready = Ready-less n s.blk ready;
            cached_same = refl;
            free_same = refl;
            same = λ a. Update-view_same laws s c next s.blk a valid u refl;
            on_disk = λ e. sym (valid.clean c h (clean (sym users-count ∙ e)));
            count = ground (arith, less, h);
            counts = λ x ne. ground (arith, ne);
          },
        )

    -- Let the cache be valid, with a drive that obeys the laws and a request table with a slot for a
    -- write. brelease of a cached buffer with at least one user returns with one user less and a valid
    -- cache, changes no block that the cache shows and no other buffer's users; after the last user the
    -- disk holds the data of the buffer.
    pub brelease-Released :
        0 < users s c → (s' : Cache D) × (brelease drive c s ≡ ok s') × Released n s c s'
    brelease-Released some =
        let some' : 0 < head.b_count = omega (arith, some, users-count) in
        elim (ℕ_discrete head.b_dirty 1) [
          | yes dirty ↦ elim (ℕ_discrete head.b_count 1) [
            | yes one ↦ brelease_written one dirty
            | no more ↦ brelease_kept some' (λ e. absurd (more e))
          ]
          | no clean ↦ brelease_kept some' (λ _. clean)
        ]

  -- A client's store of 1024 bytes into a buffer that it uses, and `bwrite` of it: the cache stays valid
  -- and shows these bytes as the buffer's block, and every other block as before.
  pub bwrite-view :
      (s : Cache D) (c : ℕ) (bytes : List ℕ)
      → Valid laws s
      → Cached s c
      → 0 < users s c
      → length bytes ≡ 1024
      → Valid laws (bwrite c (set_data c bytes s))
        × (view laws (bwrite c (set_data c bytes s)) (s.heads c).b_blocknr ≡ bytes)
        × ((a : ℕ)
            → a ≢ (s.heads c).b_blocknr
            → view laws (bwrite c (set_data c bytes s)) a ≡ view laws s a)
  unfolding bwrite set_data users
  bwrite-view s c bytes valid h some size =
      let head : BufferHead = s.heads c in
      let next : BufferHead = record head { b_data = bytes; b_dirty = 1 } in
      let used : 0 < head.b_count = ground (arith, some, h) in
      let u : Update laws s c next s.blk = record {
        cached = h;
        same_dev = valid.device c h;
        same_block = refl;
        same_uptodate = valid.uptodate c h;
        bytes = size;
        users = valid.counted c h;
        rests = λ e. absurd (omega (arith, e, used));
        is_clean = λ ne. absurd (ne refl);
        others = λ a ne. refl;
      } in
      let twice : bwrite c (set_data c bytes s) ≡ updated laws s c next s.blk =
        ap (λ f. record s { heads = f }) (fun_ext (λ x. put_twice s c bytes x)) in
      (
        subst (Valid laws) (sym twice) (Update-Valid laws s c next s.blk valid u),
        ap (λ t. view laws t (s.heads c).b_blocknr) twice
            ∙ Update-view_here laws s c next s.blk valid u,
        λ a ne. ap (λ t. view laws t a) twice ∙ Update-view_other laws s c next s.blk a valid u ne,
      )
    where
      put_twice :
          (s : Cache D) (c : ℕ) (bytes : List ℕ) (x : ℕ)
          → (bwrite c (set_data c bytes s)).heads x
            ≡ put s.heads c (record (s.heads c) { b_data = bytes; b_dirty = 1 }) x
      put_twice s c bytes x = elim (ℕ_discrete x c) [
        | yes same ↦ ground (arith, same)
        | no ne ↦ ground (arith, ne)
      ]
