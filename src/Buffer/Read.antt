-- ===== src/Buffer/Read.antt =====
-- kernel/blk_drv/buffer.c: `bread`.
use rxd_os.Chains.{occurrences}
use rxd_os.Prelude.{
  ℕ, suc, ◌+◌, ◌^◌, ◌%◌, ◌≡◌, ◌≢◌, inl, inr, refl, sym, ◌∙◌, ap, List, none, some, ok, arith, ◌==◌,
  if◌then◌else◌,
}
use rxd_os.Blk.{Drive, Blk, blk_dev_hd, bio_read}
use rxd_os.Blk.Slots.{Ready}
use rxd_os.Buffer.{BufferHead, Cache, put, find_hit, bread, bread_miss, transfer}
use rxd_os.Buffer.Disk.{DiskLaws, disk_block, InDisk, transfer-read}
use rxd_os.Buffer.Coherence.{
  Cached, Pooled, CanShare, Valid, view, view-Cached, view-other, search-cases,
}
use rxd_os.Buffer.Update.{Update, updated, Update-Valid, Update-view_same}
use rxd_os.Buffer.Miss.{Room, Got, get_free-Got}
use rxd_os.Buffer.Take.{head_of, taken, Absent, cur-count, taken-Valid, taken-view}

pub Ready-less : {D : Type 0} (n : ℕ) (s : Blk D) → Ready (suc n) s → Ready n s
Ready-less n s r = record {
  size = r.size;
  devices = r.devices;
  idle = r.idle;
  room = omega (arith, r.room);
}

-- How many users a buffer has, where a buffer that is not cached has none.
unfoldable pub users : {D : Type 0} → Cache D → ℕ → ℕ
users s c = if occurrences c s.cached_list == 0 then 0 else (s.heads c).b_count

module _ {D : Type 0} {drive : Drive D} (laws : DiskLaws drive) where
  -- Buffer `c` of `s'` holds what `s` shows of block `b`, and everything else is shown as before.
  pub record ReadOf (n : ℕ) (s : Cache D) (b c : ℕ) (s' : Cache D) : Type 0 where
    pub valid : Valid laws s'
    pub ready : Ready n s'.blk
    pub cached : Cached s' c
    pub block : (s'.heads c).b_blocknr ≡ b
    pub bytes_of : (s'.heads c).b_data ≡ view laws s b
    pub same : (a : ℕ) → view laws s' a ≡ view laws s a
    pub count : users s' c ≡ users s c + 1
    pub counts : (x : ℕ) → x ≢ c → users s' x ≡ users s x

  module _ (n : ℕ) (s : Cache D) (b : ℕ) (valid : Valid laws s) (ready : Ready (suc n) s.blk) where
    bread_hit :
        (c : ℕ)
        → CanShare s
        → find_hit blk_dev_hd b s.heads s.cached_list ≡ some c
        → Cached s c
        → (s.heads c).b_blocknr ≡ b
        → (s' : Cache D) × (bread drive blk_dev_hd b s ≡ ok (c, s')) × ReadOf n s b c s'
    unfolding bread users
    bread_hit c share hit h same =
        let few = share c h in
        let more : BufferHead = record (s.heads c) {
          b_count = ((s.heads c).b_count + 1) % 2 ^ 32;
        } in
        let u : Update laws s c more s.blk = record {
          cached = h;
          same_dev = valid.device c h;
          same_block = refl;
          same_uptodate = valid.uptodate c h;
          bytes = valid.size c (omega (arith, h));
          users = omega (arith, few);
          rests = λ e. absurd (omega (arith, few, e));
          is_clean = valid.clean c h;
          others = λ a ne. refl;
        } in
        (
          updated laws s c more s.blk,
          ground (arith, hit),
          record {
            valid = Update-Valid laws s c more s.blk valid u;
            ready = Ready-less n s.blk ready;
            cached = h;
            block = ground (arith, same);
            bytes_of =
                let kept : (put s.heads c more c).b_data ≡ (s.heads c).b_data = ground arith in
                kept ∙ sym (view-Cached laws s c valid h) ∙ ap (view laws s) same;
            same = λ a. Update-view_same laws s c more s.blk a valid u refl;
            count = ground (arith, few, h);
            counts = λ x ne. ground (arith, ne);
          },
        )

    bread_miss-run :
        (cur : ℕ) (cached free : List ℕ) (blk : Blk D)
        → find_hit blk_dev_hd b s.heads s.cached_list ≡ none
        → Got s cur cached free
        → (s.heads cur).b_count ≡ 0
        → transfer drive bio_read
            (record (s.heads cur) { b_count = 1; b_dev = blk_dev_hd; b_blocknr = b })
            s.blk
          ≡ ok (disk_block laws s.blk.disk b, blk)
        → bread drive blk_dev_hd b s ≡ ok (cur, taken laws s b cur cached free blk)
    unfolding bread bread_miss
    bread_miss-run cur cached free blk miss got idle run = ground (arith, miss, got.run, idle, run)

    bread_absent :
        Room s
        → InDisk laws b
        → find_hit blk_dev_hd b s.heads s.cached_list ≡ none
        → ((c : ℕ) → Cached s c → (s.heads c).b_blocknr ≢ b)
        → (c : ℕ) × (s' : Cache D) × (bread drive blk_dev_hd b s ≡ ok (c, s')) × ReadOf n s b c s'
    unfolding users occurrences
    bread_absent room inside miss absent =
        let (cur, cached, free, got) = get_free-Got s room in
        let h : BufferHead = record (s.heads cur) {
          b_count = 1;
          b_dev = blk_dev_hd;
          b_blocknr = b;
        } in
        let pooled : Pooled s cur = omega (arith, got.is_free, got.pooled cur) in
        let (blk, run, keep, ready') =
          transfer-read laws n h s.blk ready refl inside (valid.size cur pooled) in
        let u : Absent laws s b cur cached free blk = record {
          valid = valid;
          got = got;
          absent = absent;
          on_disk = inside;
          keep = keep;
        } in
        let zero : (s.heads cur).b_count ≡ 0 = cur-count laws s b cur cached free blk u in
        let made : put s.heads cur (head_of laws s cur b) cur ≡ head_of laws s cur b =
          ground arith in
        (
          cur,
          taken laws s b cur cached free blk,
          bread_miss-run cur cached free blk miss got zero run,
          record {
            valid = taken-Valid laws s b cur cached free blk u;
            ready = ready';
            cached = ground arith;
            block = ap (λ q. q.b_blocknr) made;
            bytes_of = ap (λ q. q.b_data) made ∙ sym (view-other laws b s valid absent);
            same = taken-view laws s b cur cached free blk u;
            count = ground (arith, zero);
            counts = λ x ne. ground (arith, ne, got.fewer x, got.dropped x);
          },
        )

    -- Let the cache be valid, with fewer than 2 ^ 31 - 1 users of every buffer, a drive that obeys the
    -- laws and a request table with a slot for a write. If block `b` is on the disk and a buffer is free
    -- or the oldest cached buffer is not in use, then bread of it returns a buffer with one user more
    -- that holds what the cache shows of the block; it changes no block that the cache shows and no other
    -- buffer's users, and the cache is valid again.
    pub bread-ReadOf :
        CanShare s
        → Room s
        → InDisk laws b
        → (c : ℕ) × (s' : Cache D) × (bread drive blk_dev_hd b s ≡ ok (c, s')) × ReadOf n s b c s'
    bread-ReadOf share room inside = elim (search-cases laws b s valid) [
      | inl (c, hit, h, same) ↦ let (s', run, of) = bread_hit c share hit h same in (c, s', run, of)
      | inr (miss, absent) ↦ bread_absent room inside miss absent
    ]
