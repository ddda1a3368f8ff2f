-- ===== src/Mount/Made.antt =====
-- fs/fs.c: `mkfs` makes a file system that is in order.
use rxd_os.Prelude.{
  ℕ, suc, ◌+◌, ◌≤◌, ◌<◌, ◌≡◌, refl, sym, ◌∙◌, ap, List, ok, arith, ltb, if◌then◌else◌, length,
  get_or, get_or-replicate,
}
use rxd_os.Blk.{Drive}
use rxd_os.Buffer.{Cache}
use rxd_os.Buffer.Disk.{DiskLaws}
use rxd_os.Buffer.Coherence.{view}
use rxd_os.Buffer.Session.{Idle}
use rxd_os.Blockmap.Next.{Idle-less}
use rxd_os.Bitmap.Bits.{AreBytes}
use rxd_os.Bitmap.Fill.{
  low_map, set_n_bit-two, set_n_bit-ten, low_map-AreBytes, low_map-two, low_map-ten,
}
use rxd_os.Blockmap.Change.{map_bit, OnDisk}
use rxd_os.Blockmap.Next.{map_bit-first}
use rxd_os.Image.{part, patch, copy_in}
use rxd_os.Image.Bytes.{length-patch, part-patch}
use rxd_os.Image.Access.{change_block-Shown, view-length}
use rxd_os.Super.{made_super, make_map, super_words, word32s, word32, write_super}
use rxd_os.Super.Layout.{Layout, HasPlace}
use rxd_os.Inode.{Inode, inode_bytes, made_root, mkfs}
use rxd_os.Inode.Codec.{IsInode}
use rxd_os.Inode.Stored.{stored, Stored, write_inode-Stored}
use rxd_os.Inode.RoundTrip.{Stored-before}
use rxd_os.Zone.Fresh.{HasZmap}
use rxd_os.Content.Effect.{HasFile}

-- The inode that `mkfs` writes, for a `root_inode` of this mode.
pub record CanRoot (root : Inode) : Type 0 where
  pub mode : root.i_mode < 65536
  pub links : length root.i_links ≡ 5

pub made_root-IsInode : (root : Inode) → CanRoot root → IsInode (made_root root)
unfolding made_root
made_root-IsInode root can = record {
  inum = omega arith;
  size = omega arith;
  mode = can.mode;
  nlink = omega arith;
  zones = refl;
  zone = λ k. omega (arith, get_or-replicate {A = ℕ} 9 k 0);
  links = can.links;
}

-- What the cache shows of the super block.
abbrev pub super_bytes : List ℕ
super_bytes = word32s (super_words made_super)

length-super_bytes : length super_bytes ≡ 36
unfolding word32s super_words word32
length-super_bytes = refl

module _ {D : Type 0} {drive : Drive D} (laws : DiskLaws drive) where
  -- A new file system: the super block, an empty root, and the maps in order.
  pub record Made (n : ℕ) (root : Inode) (s' : Cache D) : Type 0 where
    pub idle : Idle laws n s'
    pub file : HasFile laws s' made_super (made_root root)
    pub super : part (view laws s' 1) 0 36 ≡ super_bytes
    pub here : stored laws s' made_super 1 ≡ inode_bytes (made_root root)

  module _ (big : 8192 ≤ laws.capacity) where
    made-Layout : Layout laws made_super
    made-Layout = record {
      device = refl;
      behind_super = omega arith;
      imap = omega arith;
      zmap = omega arith;
      itable = omega arith;
      inside = λ b h. omega (arith, h, big);
    }

    map-OnDisk :
        (s : Cache D) (b : ℕ) (bytes : List ℕ)
        → b < 10
        → view laws s b ≡ bytes
        → AreBytes bytes
        → OnDisk laws s b (b + 1)
    map-OnDisk s b bytes low shown are = record {
      inside = λ a p q. omega (arith, q, low, big);
      bytes = λ a p q i.
          let here : a ≡ b = omega (arith, p, q) in
          omega
            (arith, ap (λ c. get_or (view laws s c) i 0) here, ap (λ l. get_or l i 0) shown, are i);
    }

    made-HasZmap : (s : Cache D) → view laws s 3 ≡ low_map 255 3 → HasZmap laws s made_super
    made-HasZmap s shown = record {
      on_disk =
          map-OnDisk s 3 (low_map 255 3) (omega arith) shown
            (low_map-AreBytes 255 3 (omega arith) (omega arith));
      free = λ t h clear.
          let value : map_bit laws s 3 t ≡ (if ltb t 10 then 1 else 0) =
            map_bit-first laws s 3 t (low_map 255 3) (sym shown) h ∙ low_map-ten t in
          (ground (arith, value, clear), omega (arith, h, big));
    }

    root-taken : (s : Cache D) → view laws s 2 ≡ low_map 3 0 → map_bit laws s 2 1 ≡ 1
    root-taken s shown =
        map_bit-first laws s 2 1 (low_map 3 0) (sym shown) (omega arith)
        ∙ low_map-two 1
        ∙ ground arith

    root-HasPlace : HasPlace made_super 1
    root-HasPlace = record { positive = omega arith; in_map = omega arith; in_table = omega arith }

    -- The state behind the last call of mkfs.
    Stored-Made :
        (n : ℕ) (root : Inode) (s s' : Cache D)
        → CanRoot root
        → part (view laws s 1) 0 36 ≡ super_bytes
        → view laws s 2 ≡ low_map 3 0
        → view laws s 3 ≡ low_map 255 3
        → Stored laws n made_super s (made_root root) s'
        → Made n root s'
    unfolding made_root
    Stored-Made n root s s' can super imap zmap st =
        let before : (b : ℕ) → b < 4 → view laws s' b ≡ view laws s b =
          Stored-before laws n made_super s (made_root root) s' st in
        record {
          idle = st.idle;
          file = record {
            layout = made-Layout;
            imap =
                map-OnDisk s' 2 (low_map 3 0) (omega arith) (before 2 (omega arith) ∙ imap)
                  (low_map-AreBytes 3 0 (omega arith) (omega arith));
            zmap = made-HasZmap s' (before 3 (omega arith) ∙ zmap);
            is_inode = made_root-IsInode root can;
            place = root-HasPlace;
            number = root-taken s' (before 2 (omega arith) ∙ imap);
            zones = record {
              few = omega arith;
              size = refl;
              inside = λ k h. omega (arith, get_or-replicate {A = ℕ} 9 k 0, big);
              in_map = λ k h. absurd (omega (arith, h));
              taken = λ k h. absurd (omega (arith, h));
              behind = λ k h. absurd (omega (arith, h));
              apart = λ k l h. absurd (omega (arith, h));
            };
          };
          super = ap (λ l. part l 0 36) (before 1 (omega arith)) ∙ super;
          here = st.here;
        }

    -- Let the disk obey the laws and have the 4096 blocks of the map, nobody use a buffer, slots for ten
    -- transfers be free, and the mode and the links of root_inode fit their places. mkfs returns the
    -- empty root; block 1 then begins with its super block, the table holds the root, and the file system is
    -- in order: both maps have exactly the blocks and inodes in use, as _write and _read need it.
    pub mkfs-Made :
        (n : ℕ) (root : Inode) (s : Cache D)
        → CanRoot root
        → Idle laws (n + 10) s
        → (s' : Cache D) × (mkfs drive root s ≡ ok (made_root root, s')) × Made n root s'
    unfolding mkfs write_super copy_in make_map made_root
    mkfs-Made n root s can idle =
        let n4 : ℕ = suc (suc (suc (suc n))) in
        let n6 : ℕ = suc (suc n4) in
        let n8 : ℕ = suc (suc n6) in
        let idle10 = Idle-less laws (suc (suc n8)) (n + 10) s (omega arith) idle in
        let size1 = view-length laws n8 s 1 idle10 (omega (arith, big)) in
        let len : length super_bytes ≡ 36 = length-super_bytes in
        let (s1, run1, shown1) =
          change_block-Shown laws n8 s 1 (copy_in 0 super_bytes)
            (patch (view laws s 1) 0 super_bytes) idle10 (omega (arith, big))
            (ground (arith, size1, len)) (length-patch (view laws s 1) 0 super_bytes ∙ size1) in
        let (s2, run2, shown2) =
          change_block-Shown laws n6 s1 2 (make_map 2) (low_map 3 0) shown1.idle
            (omega (arith, big)) set_n_bit-two refl in
        let (s3, run3, shown3) =
          change_block-Shown laws n4 s2 3 (make_map 10) (low_map 255 3) shown2.idle
            (omega (arith, big)) set_n_bit-ten refl in
        let imap : view laws s3 2 ≡ low_map 3 0 =
          shown3.others 2 (λ e. absurd (omega (arith, e))) ∙ shown2.here in
        let on_disk : OnDisk laws s3 2 3 =
          map-OnDisk s3 2 (low_map 3 0) (omega arith) imap
            (low_map-AreBytes 3 0 (omega arith) (omega arith)) in
        let (s', run4, st) =
          write_inode-Stored laws n s3 made_super made-Layout on_disk shown3.idle (made_root root)
            (made_root-IsInode root can) root-HasPlace (root-taken s3 imap) in
        let super : part (view laws s3 1) 0 36 ≡ super_bytes =
          ap (λ l. part l 0 36)
            (shown3.others 1 (λ e. absurd (omega (arith, e)))
              ∙ shown2.others 1 (λ e. absurd (omega (arith, e)))
              ∙ shown1.here)
          ∙ ap (part (patch (view laws s 1) 0 super_bytes) 0) (sym len)
          ∙ part-patch (view laws s 1) 0 super_bytes (omega (arith, size1, len)) in
        (
          s',
          ground (arith, run1, run2, run3, run4),
          Stored-Made n root s3 s' can super imap shown3.here st,
        )
