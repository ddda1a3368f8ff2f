-- ===== src/Content/Effect.antt =====
-- fs/fs.c: what `_write` does to the file system, from the zones it reserves to the inode it writes.
use native.Mathlib.Decide.{dec_lt}
use rxd_os.Prelude.{
  ℕ, suc, ◌+◌, ◌*◌, ◌/◌, ◌%◌, ◌≤◌, ◌<◌, ◌≡◌, ◌≢◌, ◌⊎◌, inl, inr, sym, ◌∙◌, ap, List, ok, arith,
  get_or, get_or-replicate, ltb, if◌then◌else◌,
}
use mathlib.Core.Path.{subst}
use rxd_os.Blk.{Drive}
use rxd_os.Buffer.{Cache}
use rxd_os.Buffer.Disk.{DiskLaws, overwritten}
use rxd_os.Buffer.Coherence.{view}
use rxd_os.Buffer.Session.{Idle}
use rxd_os.Blockmap.Change.{map_bit}
use rxd_os.Blockmap.Keeps.{OnDisk-same, map_bit-same}
use rxd_os.Image.{part}
use rxd_os.Super.{SuperBlock}
use rxd_os.Super.Words.{AreWords}
use rxd_os.Super.Layout.{Layout, HasPlace}
use rxd_os.Inode.{Inode, inode_bytes, inode_blknr, inode_blkoff, write_inode}
use rxd_os.Inode.Codec.{IsInode}
use rxd_os.Inode.Stored.{stored, HasImap, write_inode-Stored}
use rxd_os.Inode.RoundTrip.{Stored-before, Stored-HasImap, Stored-map_bit}
use rxd_os.Zone.{zones_of}
use rxd_os.Zone.Fresh.{block_bit, HasZmap}
use rxd_os.Zone.Reserve.{zone, with_zones, HasZones, Reserved}
use rxd_os.Content.Bytes.{file_byte}
use rxd_os.Content.Overwrite.{overwritten-cong}
use rxd_os.Content.Change.{Written, HasZones-same}

module _ {D : Type 0} {drive : Drive D} (laws : DiskLaws drive) where
  -- The content of `i`, and zeros in the zones that it does not have yet.
  abbrev pub old_byte : Cache D → Inode → ℕ → ℕ
  old_byte s i p = if ltb p (zones_of i.i_size * 1024) then file_byte laws s i p else 0

  -- A file system whose maps are in order, with inode `i` in its place and its zones taken.
  pub record HasFile (s : Cache D) (sb : SuperBlock) (i : Inode) : Type 0 where
    pub layout : Layout laws sb
    pub imap : HasImap laws s sb
    pub zmap : HasZmap laws s sb
    pub is_inode : IsInode i
    pub place : HasPlace sb i.i_inum
    pub number : map_bit laws s sb.s_imap_start i.i_inum ≡ 1
    pub zones : HasZones laws s sb i (zones_of i.i_size)

  -- The state after `buf` was written at `pos`, and the inode became `i'`.
  pub record WriteOk (n : ℕ) (sb : SuperBlock) (s : Cache D) (i : Inode) (pos : ℕ) (buf : List ℕ)
      (i' : Inode) (s' : Cache D) : Type 0 where
    pub idle : Idle laws n s'
    pub bytes :
        (p : ℕ)
        → p < zones_of i'.i_size * 1024
        → file_byte laws s' i' p ≡ overwritten (old_byte s i) pos buf p
    pub file : HasFile s' sb i'
    pub here : stored laws s' sb i.i_inum ≡ inode_bytes i'
    pub inodes : (k : ℕ) → k ≢ i.i_inum → HasPlace sb k → stored laws s' sb k ≡ stored laws s sb k
    pub others :
        (b : ℕ)
        → sb.s_data_start ≤ b
        → block_bit laws s sb b ≡ 1
        → ((k : ℕ) → k < zones_of i.i_size → b ≢ zone i k)
        → view laws s' b ≡ view laws s b

  pub HasZmap-same :
      (s s' : Cache D) (sb : SuperBlock)
      → ((b : ℕ)
          → sb.s_zmap_start ≤ b
          → b < sb.s_zmap_start + sb.s_zmap_count
          → view laws s' b ≡ view laws s b)
      → HasZmap laws s sb
      → HasZmap laws s' sb
  HasZmap-same s s' sb same zmap = record {
    on_disk =
        OnDisk-same laws s s' sb.s_zmap_start (sb.s_zmap_start + sb.s_zmap_count) same zmap.on_disk;
    free = λ t h clear. zmap.free t h (
        sym (
          map_bit-same laws s s' sb.s_zmap_start (sb.s_zmap_start + sb.s_zmap_count) same t
            (omega (arith, h)))
        ∙ clear);
  }

  module _ (n : ℕ) (sb : SuperBlock) (s s1 s2 : Cache D) (i : Inode) (m pos : ℕ) (zs buf : List ℕ)
      (file : HasFile s sb i)
      (reserved : Reserved laws
        (suc (suc (suc (suc (suc (suc (suc (suc n))))))))
        sb
        s
        i
        (zones_of i.i_size)
        m
        zs
        s1)
      (written : Written laws (suc (suc (suc (suc n)))) s1 (with_zones i zs) m pos buf s2) where
    -- A block that was taken is none of the new zones.
    not_new :
        (b : ℕ)
        → block_bit laws s sb b ≡ 1
        → (k : ℕ) → zones_of i.i_size ≤ k
        → k < m
        → b ≢ get_or zs k 0
    not_new b taken k p q e =
        omega (arith, ap (block_bit laws s sb) e, taken, reserved.was_free k p q)

    in_front : (k : ℕ) → k < m → sb.s_data_start ≤ get_or zs k 0
    in_front k h = reserved.zones.behind k h

    -- Blocks in front of the data and outside the map of blocks are as before.
    pub before_data :
        (b : ℕ)
        → b < sb.s_data_start
        → b < sb.s_zmap_start ⊎ sb.s_zmap_start + sb.s_zmap_count ≤ b
        → view laws s2 b ≡ view laws s b
    before_data b h out =
        written.others b (λ k q e. absurd (omega (arith, e, h, in_front k q)))
        ∙ reserved.others b (λ k p q e. absurd (omega (arith, e, h, in_front k q))) out

    pub other_data :
        (b : ℕ)
        → sb.s_data_start ≤ b
        → block_bit laws s sb b ≡ 1
        → ((k : ℕ) → k < zones_of i.i_size → b ≢ zone i k)
        → view laws s2 b ≡ view laws s b
    other_data b behind taken ne =
        written.others b (λ k h e. elim (dec_lt k (zones_of i.i_size)) [
          | yes low ↦ ne k low (e ∙ reserved.old k low)
          | no high ↦ not_new b taken k (omega (arith, high)) h e
        ])
        ∙ reserved.others b (not_new b taken)
            (inr (omega (arith, behind, file.layout.zmap, file.layout.itable)))

    -- The content before the bytes are written, with the new zones.
    with_new_zones : (p : ℕ) → p < m * 1024 → file_byte laws s1 (with_zones i zs) p ≡ old_byte s i p
    unfolding file_byte
    with_new_zones p h = elim (dec_lt (p / 1024) (zones_of i.i_size)) [
      | yes low ↦
          let z : ℕ = p / 1024 in
          let same : view laws s1 (zone i z) ≡ view laws s (zone i z) =
            reserved.others (zone i z) (not_new (zone i z) (file.zones.taken z low)) (
              inr (omega (arith, file.zones.behind z low, file.layout.zmap, file.layout.itable))) in
          ap (λ b. get_or (view laws s1 b) (p % 1024) 0) (reserved.old z low)
          ∙ ap (λ l. get_or l (p % 1024) 0) same
          ∙ ground (arith, low)
      | no high ↦
          ap (λ l. get_or l (p % 1024) 0)
            (reserved.fresh (p / 1024) (omega (arith, high)) (omega (arith, h)))
          ∙ get_or-replicate {A = ℕ} 1024 (p % 1024) 0
          ∙ ground (arith, high)
    ]

    pub bytes_before_inode :
        (p : ℕ)
        → p < m * 1024
        → file_byte laws s2 (with_zones i zs) p ≡ overwritten (old_byte s i) pos buf p
    bytes_before_inode p h =
        written.bytes p h
        ∙ overwritten-cong (file_byte laws s1 (with_zones i zs)) (old_byte s i) pos buf p
            (with_new_zones p h)

    new_imap :
        (b : ℕ)
        → sb.s_imap_start ≤ b
        → b < sb.s_imap_start + sb.s_imap_count
        → view laws s2 b ≡ view laws s b
    new_imap b p q =
        before_data b (omega (arith, q, file.layout.imap, file.layout.zmap, file.layout.itable))
          (inl (omega (arith, q, file.layout.imap)))

    new_zmap :
        (b : ℕ)
        → sb.s_zmap_start ≤ b
        → b < sb.s_zmap_start + sb.s_zmap_count
        → view laws s2 b ≡ view laws s1 b
    new_zmap b p q =
        written.others b (λ k h e.
          absurd (omega (arith, e, q, file.layout.zmap, file.layout.itable, in_front k h)))

    words : AreWords zs
    words k = elim (dec_lt k 7) [
      | yes direct ↦
          omega (arith, reserved.zones.inside k (omega (arith, direct)), laws.capacity_bound)
      | no far ↦
          omega
            (arith, reserved.rest k (omega (arith, far, reserved.zones.few)), file.is_inode.zone k)
    ]

    pub new-IsInode : (size : ℕ) → size ≤ 7168 → IsInode (record i { i_size = size; i_zone = zs })
    new-IsInode size h = record {
      inum = file.is_inode.inum;
      size = omega (arith, h);
      mode = file.is_inode.mode;
      nlink = file.is_inode.nlink;
      zones = reserved.zones.size;
      zone = words;
      links = file.is_inode.links;
    }

    with_size : (size : ℕ) → HasZones laws s1 sb (record i { i_size = size; i_zone = zs }) m
    with_size size = record {
      few = reserved.zones.few;
      size = reserved.zones.size;
      inside = reserved.zones.inside;
      in_map = reserved.zones.in_map;
      taken = reserved.zones.taken;
      behind = reserved.zones.behind;
      apart = reserved.zones.apart;
    }

    -- write_inode with the new size ends the call.
    pub ends :
        (size : ℕ)
        → size ≤ 7168
        → zones_of size ≡ m
        → (s' : Cache D) × (write_inode drive sb (record i { i_size = size; i_zone = zs }) s2
            ≡ ok s')
          × WriteOk n sb s i pos buf (record i { i_size = size; i_zone = zs }) s'
    unfolding file_byte
    ends size few count =
        let i' : Inode = record i { i_size = size; i_zone = zs } in
        let imap =
          OnDisk-same laws s s2 sb.s_imap_start (sb.s_imap_start + sb.s_imap_count) new_imap
            file.imap in
        let number =
          map_bit-same laws s s2 sb.s_imap_start (sb.s_imap_start + sb.s_imap_count) new_imap
            i.i_inum (omega (arith, file.place.in_map)) in
        let (s', run, st) =
          write_inode-Stored laws n s2 sb file.layout imap written.idle i' (new-IsInode size few)
            file.place (number ∙ file.number) in
        let table : inode_blknr sb i.i_inum < sb.s_data_start =
          omega (arith, file.place.in_table, file.layout.itable) in
        let kept : (b : ℕ) → sb.s_data_start ≤ b → view laws s' b ≡ view laws s2 b =
          λ b h. st.blocks b (λ e. absurd (omega (arith, e, h, table))) in
        let zmap_same : (b : ℕ)
            → sb.s_zmap_start ≤ b
            → b < sb.s_zmap_start + sb.s_zmap_count
            → view laws s' b ≡ view laws s1 b =
          λ b p q.
            Stored-before laws n sb s2 i' s' st b (omega (arith, q, file.layout.zmap))
            ∙ new_zmap b p q in
        (
          s',
          run,
          record {
            idle = st.idle;
            bytes = λ p h.
                let inside : p < m * 1024 = omega (arith, h, count) in
                ap (λ l. get_or l (p % 1024) 0)
                  (kept (get_or zs (p / 1024) 0) (in_front (p / 1024) (omega (arith, inside))))
                ∙ bytes_before_inode p inside;
            file = record {
              layout = file.layout;
              imap = Stored-HasImap laws n sb s2 i' s' file.layout st imap;
              zmap = HasZmap-same s1 s' sb zmap_same reserved.zmap;
              is_inode = new-IsInode size few;
              place = file.place;
              number =
                  Stored-map_bit laws n sb s2 i' s' file.layout st i.i_inum file.place
                  ∙ number
                  ∙ file.number;
              zones =
                  subst (HasZones laws s' sb i') (sym count)
                    (HasZones-same laws s1 s' sb i' m zmap_same (with_size size));
            };
            here = st.here;
            inodes = λ k ne place.
                st.others k ne
                ∙ ap (λ l. part l (inode_blkoff k) 72)
                    (before_data (inode_blknr sb k)
                      (omega (arith, place.in_table, file.layout.itable))
                      (inr (omega (arith, file.layout.zmap))));
            others = λ b behind taken ne. kept b behind ∙ other_data b behind taken ne;
          },
        )
