-- ===== src/Zone/Fresh.antt =====
-- fs/fs.c: `_get_blk` takes a free block and clears it.
use native.Mathlib.Decide.{ℕ_discrete}
use rxd_os.Prelude.{
  ℕ, suc, ◌+◌, ◌-◌, ◌*◌, ◌≤◌, ◌<◌, ◌≡◌, ◌≢◌, ◌⊎◌, inl, inr, refl, sym, ◌∙◌, ap, ok, panic, arith,
  ◌==◌, if◌then◌else◌, get_or, replicate, length-replicate,
}
use mathlib.Core.Path.{subst}
use rxd_os.Blk.{Drive}
use rxd_os.Buffer.{Cache}
use rxd_os.Buffer.Disk.{DiskLaws, InDisk}
use rxd_os.Buffer.Coherence.{view}
use rxd_os.Buffer.Session.{Idle}
use rxd_os.Bitmap.Bits.{AreBytes}
use rxd_os.Blockmap.{blk_nr}
use rxd_os.Blockmap.Change.{map_bit, OnDisk}
use rxd_os.Blockmap.Next.{Taken, IsFull}
use rxd_os.Blockmap.Alloc.{bitmap_alloc-Taken}
use rxd_os.Blockmap.Keeps.{OnDisk-same, map_bit-same}
use rxd_os.Image.Access.{change_block-Shown}
use rxd_os.Super.{SuperBlock}
use rxd_os.Super.Layout.{Layout}
use rxd_os.Zone.{clear_block, get_blk}

module _ {D : Type 0} {drive : Drive D} (laws : DiskLaws drive) where
  -- Block `t` is taken in the map of blocks.
  abbrev pub block_bit : Cache D → SuperBlock → ℕ → ℕ
  block_bit s sb t = map_bit laws s sb.s_zmap_start t

  -- The map of blocks is on the disk and holds bytes, and every block that it calls free is a block of
  -- the disk behind the tables.
  pub record HasZmap (s : Cache D) (sb : SuperBlock) : Type 0 where
    pub on_disk : OnDisk laws s sb.s_zmap_start (sb.s_zmap_start + sb.s_zmap_count)
    pub free :
        (t : ℕ)
        → t < sb.s_zmap_count * 4096
        → block_bit s sb t ≡ 0
        → (sb.s_data_start ≤ t) × InDisk laws t

  -- Block `t` was free, and is now taken and filled with zeros; no other block of the data, of the
  -- map of inodes or of the table of inodes has changed.
  pub record Got (n : ℕ) (sb : SuperBlock) (s : Cache D) (t : ℕ) (s' : Cache D) : Type 0 where
    pub idle : Idle laws n s'
    pub in_map : t < sb.s_zmap_count * 4096
    pub was_free : block_bit s sb t ≡ 0
    pub behind : sb.s_data_start ≤ t
    pub on_disk : InDisk laws t
    pub bits :
        (j : ℕ)
        → j < sb.s_zmap_count * 4096
        → block_bit s' sb j ≡ (if j == t then 1 else block_bit s sb j)
    pub zeros : view laws s' t ≡ replicate 1024 0
    pub others :
        (b : ℕ)
        → b ≢ t
        → b < sb.s_zmap_start ⊎ sb.s_zmap_start + sb.s_zmap_count ≤ b
        → view laws s' b ≡ view laws s b
    pub zmap : HasZmap s' sb

  module _ (n : ℕ) (sb : SuperBlock) (s : Cache D) (layout : Layout laws sb)
      (zmap : HasZmap s sb) where
    -- The map after a bit was taken.
    Taken-OnDisk :
        (m t : ℕ) (s1 : Cache D)
        → Taken laws m s sb.s_zmap_start sb.s_zmap_count t s1
        → OnDisk laws s1 sb.s_zmap_start (sb.s_zmap_start + sb.s_zmap_count)
    Taken-OnDisk m t s1 taken = record {
      inside = zmap.on_disk.inside;
      bytes = λ b p q. elim (ℕ_discrete b (blk_nr sb.s_zmap_start t)) [
        | yes e ↦ subst (λ a. AreBytes (view laws s1 a)) (sym e) taken.marked.are_bytes
        | no ne ↦ λ i.
            omega
              (arith, ap (λ l. get_or l i 0) (taken.marked.others b ne), zmap.on_disk.bytes b p q i)
      ];
    }

    Taken-Got :
        (t : ℕ) (s1 s' : Cache D)
        → Taken laws (suc (suc n)) s sb.s_zmap_start sb.s_zmap_count t s1
        → InDisk laws t
        → sb.s_data_start ≤ t
        → Idle laws n s'
        → view laws s' t ≡ replicate 1024 0
        → ((b : ℕ) → b ≢ t → view laws s' b ≡ view laws s1 b)
        → Got n sb s t s'
    Taken-Got t s1 s' taken on_disk behind idle zeros others =
        let kept : (b : ℕ)
            → sb.s_zmap_start ≤ b
            → b < sb.s_zmap_start + sb.s_zmap_count
            → view laws s' b ≡ view laws s1 b =
          λ b p q.
            others b (λ e. absurd (omega (arith, e, q, layout.zmap, layout.itable, behind))) in
        let map_block : blk_nr sb.s_zmap_start t < sb.s_zmap_start + sb.s_zmap_count =
          omega (arith, taken.inside) in
        let bits : (j : ℕ)
            → j < sb.s_zmap_count * 4096
            → block_bit s' sb j ≡ (if j == t then 1 else block_bit s sb j) =
          λ j h.
            map_bit-same laws s1 s' sb.s_zmap_start (sb.s_zmap_start + sb.s_zmap_count) kept j
              (omega (arith, h))
            ∙ taken.marked.bits j in
        record {
          idle = idle;
          in_map = taken.inside;
          was_free = taken.clear;
          behind = behind;
          on_disk = on_disk;
          bits = bits;
          zeros = zeros;
          others = λ b ne out.
              others b ne
              ∙ taken.marked.others b (λ e. elim out [
                | inl h ↦ absurd (omega (arith, e, h))
                | inr h ↦ absurd (omega (arith, e, h, map_block))
              ]);
          zmap = record {
            on_disk =
                OnDisk-same laws s1 s' sb.s_zmap_start (sb.s_zmap_start + sb.s_zmap_count) kept
                  (Taken-OnDisk (suc (suc n)) t s1 taken);
            free = λ j h clear. zmap.free j h (ground (arith, bits j h, clear));
          };
        }

    -- Let the parts of the file system follow each other on a disk that obeys the laws, the map of blocks
    -- hold bytes and call free only blocks of the disk behind the tables, nobody use a buffer, and slots
    -- for two transfers for each block of the map and two more be free. When the map has a free block,
    -- _get_blk returns one that was free; it is then taken and holds zeros, the bits of all other blocks are
    -- as before, and so is every block outside the map but this one. When it has none, _get_blk panics.
    pub get_blk-Got :
        Idle laws (suc (suc n) + 2 * sb.s_zmap_count) s
        → ((t : ℕ) × (s' : Cache D) × (get_blk drive sb s ≡ ok (t, s')) × Got n sb s t s')
          ⊎ ((get_blk drive sb s ≡ panic) × IsFull laws s sb.s_zmap_start sb.s_zmap_count)
    unfolding get_blk clear_block
    get_blk-Got idle =
        let count : sb.s_zmap_start + sb.s_zmap_count - sb.s_zmap_start ≡ sb.s_zmap_count =
          omega arith in
        let enough = subst (λ c. Idle laws (suc (suc n) + 2 * c) s) (sym count) idle in
        elim (bitmap_alloc-Taken laws (suc (suc n)) sb.s_zmap_start
          (sb.s_zmap_start + sb.s_zmap_count) s (omega arith) enough zmap.on_disk) [
            | inl (t, s1, run1, taken0) ↦
                let taken =
                  subst (λ c. Taken laws (suc (suc n)) s sb.s_zmap_start c t s1) count taken0 in
                let (behind, on_disk) = zmap.free t taken.inside taken.clear in
                let positive : 0 < t =
                  omega
                    (arith, behind, layout.behind_super, layout.imap, layout.zmap, layout.itable) in
                let (s', run2, shown) =
                  change_block-Shown laws n s1 t clear_block (replicate 1024 0) taken.marked.idle
                    on_disk refl (length-replicate {A = ℕ} 1024 0) in
                inl (
                  t,
                  s',
                  ground (arith, layout.device, run1, positive, run2),
                  Taken-Got t s1 s' taken on_disk behind shown.idle shown.here shown.others,
                )
            | inr (run, full) ↦ inr (
              ground (arith, layout.device, run),
              subst (IsFull laws s sb.s_zmap_start) count full,
            )
          ]
