-- ===== src/Inode/Stored.antt =====
-- fs/fs.c: `read_inode` and `write_inode` on the table of inodes that the cache shows.
use native.Mathlib.Decide.{ℕ_discrete, dec_lt}
use rxd_os.Prelude.{
  ℕ, suc, ◌+◌, ◌-◌, ◌*◌, ◌/◌, ◌≤◌, ◌<◌, ◌≡◌, ◌≢◌, ◌⊎◌, inl, inr, sym, ◌∙◌, ap, List, ok, panic,
  arith, length,
}
use rxd_os.Blk.{Drive}
use rxd_os.Buffer.{Cache}
use rxd_os.Buffer.Disk.{DiskLaws, InDisk}
use rxd_os.Buffer.Coherence.{view}
use rxd_os.Buffer.Session.{Idle, Shown}
use rxd_os.Blockmap.Change.{map_bit, OnDisk, bitmap_test-map_bit}
use rxd_os.Image.{part, patch, copy_in}
use rxd_os.Image.Bytes.{length-patch, part-patch, part-patch_apart}
use rxd_os.Image.Access.{Same, read_part-Same, change_block-Shown, view-length}
use rxd_os.Super.{SuperBlock}
use rxd_os.Super.Layout.{Layout, HasPlace}
use rxd_os.Inode.{
  Inode, inode_bytes, inode_blknr, inode_blkoff, test_inode_nr, read_inode, write_inode,
}
use rxd_os.Inode.Codec.{IsInode, length-inode_bytes, word_at-inode_bytes, take_inode-inode_bytes}

module _ {D : Type 0} {drive : Drive D} (laws : DiskLaws drive) where
  -- The bytes of inode `k` in the table.
  abbrev pub stored : Cache D → SuperBlock → (k : ℕ) → List ℕ
  stored s sb k = part (view laws s (inode_blknr sb k)) (inode_blkoff k) 72

  -- The map of inodes is on the disk and holds bytes.
  abbrev pub HasImap : Cache D → SuperBlock → Type 0
  HasImap s sb = OnDisk laws s sb.s_imap_start (sb.s_imap_start + sb.s_imap_count)

  -- The state after inode `i` was written, and nothing else.
  pub record Stored (n : ℕ) (sb : SuperBlock) (s : Cache D) (i : Inode) (s' : Cache D)
      : Type 0 where
    pub idle : Idle laws n s'
    pub here : stored s' sb i.i_inum ≡ inode_bytes i
    pub others : (k : ℕ) → k ≢ i.i_inum → stored s' sb k ≡ stored s sb k
    pub blocks : (b : ℕ) → b ≢ inode_blknr sb i.i_inum → view laws s' b ≡ view laws s b

  module _ (n : ℕ) (s : Cache D) (sb : SuperBlock) (layout : Layout laws sb)
      (imap : HasImap s sb) where
    test_inode_nr-map_bit :
        (inum : ℕ)
        → HasPlace sb inum
        → Idle laws (suc (suc n)) s
        → (s' : Cache D) × (test_inode_nr drive sb inum s
            ≡ ok (map_bit laws s sb.s_imap_start inum, s'))
          × Same laws n s s'
    unfolding test_inode_nr
    test_inode_nr-map_bit inum place idle =
        let bound : inum < (sb.s_imap_start + sb.s_imap_count - sb.s_imap_start) * 4096 =
          omega (arith, place.in_map) in
        let (s', run, idle', same) =
          bitmap_test-map_bit laws n s sb.s_imap_start (sb.s_imap_start + sb.s_imap_count) inum idle
            imap bound in
        (s', ground (arith, layout.device, run), record { idle = idle'; views = same })

    place-inside : (inum : ℕ) → HasPlace sb inum → InDisk laws (inode_blknr sb inum)
    place-inside inum place =
        layout.inside (inode_blknr sb inum) (omega (arith, place.in_table, layout.itable))

  block-apart : (sb : SuperBlock) (i k : ℕ) → i / 14 ≢ k / 14 → inode_blknr sb k ≢ inode_blknr sb i
  block-apart sb i k ne e = ne (omega (arith, e))

  place-apart :
      (i k : ℕ)
      → k ≢ i
      → i / 14 ≡ k / 14
      → inode_blkoff k + 72 ≤ inode_blkoff i ⊎ inode_blkoff i + 72 ≤ inode_blkoff k
  place-apart i k ne e = elim (dec_lt i k) [
    | yes h ↦ inr (omega (arith, h, e))
    | no h ↦ inl (omega (arith, h, e, ne))
  ]

  -- The block of the table after the inode was written into it.
  Shown-Stored :
      (n : ℕ) (sb : SuperBlock) (s s' : Cache D) (i : Inode)
      → IsInode i
      → length (view laws s (inode_blknr sb i.i_inum)) ≡ 1024
      → Shown laws n s
          (inode_blknr sb i.i_inum)
          (patch (view laws s (inode_blknr sb i.i_inum)) (inode_blkoff i.i_inum) (inode_bytes i))
          s'
      → Stored n sb s i s'
  Shown-Stored n sb s s' i is size shown =
      let b : ℕ = inode_blknr sb i.i_inum in
      let off : ℕ = inode_blkoff i.i_inum in
      let len = length-inode_bytes i is in
      let fits : off + length (inode_bytes i) ≤ length (view laws s b) = omega (arith, len, size) in
      record {
        idle = shown.idle;
        here =
            ap (λ l. part l off 72) shown.here
            ∙ ap (part (patch (view laws s b) off (inode_bytes i)) off) (sym len)
            ∙ part-patch (view laws s b) off (inode_bytes i) fits;
        others = λ k ne. elim (ℕ_discrete (i.i_inum / 14) (k / 14)) [
          | yes e ↦
              let same : inode_blknr sb k ≡ b = omega (arith, e) in
              ap (λ a. part (view laws s' a) (inode_blkoff k) 72) same
              ∙ ap (λ l. part l (inode_blkoff k) 72) shown.here
              ∙ part-patch_apart (view laws s b) off (inode_bytes i) (inode_blkoff k) 72
                  (elim (place-apart i.i_inum k ne e) [
                    | inl h ↦ inl h
                    | inr h ↦ inr (omega (arith, h, len))
                  ])
              ∙ ap (λ a. part (view laws s a) (inode_blkoff k) 72) (sym same)
          | no other ↦
              ap (λ l. part l (inode_blkoff k) 72)
                (shown.others (inode_blknr sb k) (block-apart sb i.i_inum k other))
        ];
        blocks = shown.others;
      }

  module _ (n : ℕ) (s : Cache D) (sb : SuperBlock) (layout : Layout laws sb) (imap : HasImap s sb)
      (idle : Idle laws (suc (suc (suc (suc n)))) s) where
    -- Let the parts of the file system follow each other on a disk that obeys the laws, the map of inodes
    -- hold bytes, nobody use a buffer, and slots for four transfers be free. write_inode of an inode
    -- whose fields fit their types and whose number has a place and is taken returns; the place of the
    -- inode then holds its bytes, and every other inode of the table and every other block is as before.
    pub write_inode-Stored :
        (i : Inode)
        → IsInode i
        → HasPlace sb i.i_inum
        → map_bit laws s sb.s_imap_start i.i_inum ≡ 1
        → (s' : Cache D) × (write_inode drive sb i s ≡ ok s') × Stored n sb s i s'
    unfolding write_inode copy_in
    write_inode-Stored i is place taken =
        let b : ℕ = inode_blknr sb i.i_inum in
        let off : ℕ = inode_blkoff i.i_inum in
        let inside = place-inside n s sb layout imap i.i_inum place in
        let (s1, run1, same) =
          test_inode_nr-map_bit (suc (suc n)) s sb layout imap i.i_inum place idle in
        let size1 = view-length laws n s1 b same.idle inside in
        let size : length (view laws s b) ≡ 1024 = ap length (sym (same.views b)) ∙ size1 in
        let len = length-inode_bytes i is in
        let small : off ≤ 936 = omega arith in
        let (s', run2, shown) =
          change_block-Shown laws n s1 b (copy_in off (inode_bytes i))
            (patch (view laws s1 b) off (inode_bytes i)) same.idle inside
            (ground (arith, size1, len, small))
            (length-patch (view laws s1 b) off (inode_bytes i) ∙ size1) in
        let done : Stored n sb s1 i s' = Shown-Stored n sb s1 s' i is size1 shown in
        (
          s',
          ground (arith, place.positive, run1, taken, run2, layout.device),
          record {
            idle = done.idle;
            here = done.here;
            others = λ k ne.
                done.others k ne
                ∙ ap (λ l. part l (inode_blkoff k) 72) (same.views (inode_blknr sb k));
            blocks = λ a ne. done.blocks a ne ∙ same.views a;
          },
        )

    -- Under the same conditions read_inode of a number that has a place and is taken, where the table
    -- holds the bytes of an inode with that number, returns this inode's number, size, mode, link count
    -- and zones, with the rest as it was in memory, and every block as before.
    pub read_inode-Stored :
        (j i : Inode)
        → IsInode i
        → HasPlace sb i.i_inum
        → map_bit laws s sb.s_imap_start i.i_inum ≡ 1
        → stored s sb i.i_inum ≡ inode_bytes i
        → (s' : Cache D) × (read_inode drive j i.i_inum sb s
            ≡ ok (
              record j {
                i_inum = i.i_inum;
                i_size = i.i_size;
                i_mode = i.i_mode;
                i_nlink = i.i_nlink;
                i_zone = i.i_zone;
              },
              s',
            ))
          × Same laws n s s'
    unfolding read_inode
    read_inode-Stored j i is place taken there =
        let b : ℕ = inode_blknr sb i.i_inum in
        let off : ℕ = inode_blkoff i.i_inum in
        let inside = place-inside n s sb layout imap i.i_inum place in
        let (s1, run1, same) =
          test_inode_nr-map_bit (suc (suc n)) s sb layout imap i.i_inum place idle in
        let (s', run2, same') = read_part-Same laws n s1 b off 72 same.idle inside (omega arith) in
        let bytes : part (view laws s1 b) off 72 ≡ inode_bytes i =
          ap (λ l. part l off 72) (same.views b) ∙ there in
        let number = word_at-inode_bytes i is in
        let taken_out = take_inode-inode_bytes j i is in
        (
          s',
          ground
              (arith, place.positive, run1, taken, run2, layout.device, bytes, number, taken_out),
          record { idle = same'.idle; views = λ a. same'.views a ∙ same.views a },
        )

    -- Under the same conditions on the file system, read_inode and write_inode of a number that has a
    -- place and whose bit in the map is clear panic.
    pub read_inode-panic :
        (j : Inode) (inum : ℕ)
        → HasPlace sb inum
        → map_bit laws s sb.s_imap_start inum ≡ 0
        → (read_inode drive j inum sb s ≡ panic)
          × (write_inode drive sb (record j { i_inum = inum }) s ≡ panic)
    unfolding read_inode write_inode
    read_inode-panic j inum place clear =
        let (s1, run1, same) =
          test_inode_nr-map_bit (suc (suc n)) s sb layout imap inum place idle in
        (ground (arith, place.positive, run1, clear), ground (arith, place.positive, run1, clear))
