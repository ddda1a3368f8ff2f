-- ===== src/Inode/RoundTrip.antt =====
-- fs/fs.c: an inode that is written and read back.
use rxd_os.Prelude.{ℕ, suc, ◌+◌, ◌≤◌, ◌<◌, ◌≡◌, ◌∙◌, ok, arith}
use rxd_os.Blk.{Drive}
use rxd_os.Buffer.{Cache}
use rxd_os.Buffer.Disk.{DiskLaws}
use rxd_os.Buffer.Coherence.{view}
use rxd_os.Buffer.Session.{Idle}
use rxd_os.Blockmap.Change.{map_bit}
use rxd_os.Blockmap.Keeps.{OnDisk-same, map_bit-same}
use rxd_os.Blockmap.Next.{Idle-less}
use rxd_os.Image.Access.{Same}
use rxd_os.Super.{SuperBlock}
use rxd_os.Super.Layout.{Layout, HasPlace}
use rxd_os.Inode.{Inode, read_inode, write_inode}
use rxd_os.Inode.Codec.{IsInode}
use rxd_os.Inode.Stored.{HasImap, Stored, write_inode-Stored, read_inode-Stored}

module _ {D : Type 0} {drive : Drive D} (laws : DiskLaws drive) where
  -- The table of inodes lies behind the maps.
  pub Stored-before :
      (n : ℕ) (sb : SuperBlock) (s : Cache D) (i : Inode) (s' : Cache D)
      → Stored laws n sb s i s'
      → (b : ℕ) → b < sb.s_itable_start
      → view laws s' b ≡ view laws s b
  Stored-before n sb s i s' st b h = st.blocks b (λ e. absurd (omega (arith, h, e)))

  module _ (n : ℕ) (sb : SuperBlock) (s : Cache D) (i : Inode) (s' : Cache D)
      (layout : Layout laws sb) (st : Stored laws n sb s i s') where
    in_front :
        (b : ℕ)
        → sb.s_imap_start ≤ b
        → b < sb.s_imap_start + sb.s_imap_count
        → view laws s' b ≡ view laws s b
    in_front b p q = Stored-before n sb s i s' st b (omega (arith, q, layout.imap, layout.zmap))

    pub Stored-HasImap : HasImap laws s sb → HasImap laws s' sb
    Stored-HasImap imap =
        OnDisk-same laws s s' sb.s_imap_start (sb.s_imap_start + sb.s_imap_count) in_front imap

    pub Stored-map_bit :
        (k : ℕ)
        → HasPlace sb k
        → map_bit laws s' sb.s_imap_start k ≡ map_bit laws s sb.s_imap_start k
    Stored-map_bit k place =
        map_bit-same laws s s' sb.s_imap_start (sb.s_imap_start + sb.s_imap_count) in_front k
          (omega (arith, place.in_map))

  -- Let the parts of the file system follow each other on a disk that obeys the laws, the map of inodes
  -- hold bytes, nobody use a buffer, and slots for eight transfers be free. An inode whose fields fit
  -- their types and whose number has a place and is taken can be written by write_inode, and read_inode
  -- then gives back its number, size, mode, link count and zones into any inode of the memory.
  pub read_inode-write_inode :
      (n : ℕ) (s : Cache D) (sb : SuperBlock) (i j : Inode)
      → Layout laws sb
      → HasImap laws s sb
      → Idle laws (n + 8) s
      → IsInode i
      → HasPlace sb i.i_inum
      → map_bit laws s sb.s_imap_start i.i_inum ≡ 1
      → (s1 : Cache D) × (s2 : Cache D) × (write_inode drive sb i s ≡ ok s1)
        × (read_inode drive j i.i_inum sb s1
            ≡ ok (
              record j {
                i_inum = i.i_inum;
                i_size = i.i_size;
                i_mode = i.i_mode;
                i_nlink = i.i_nlink;
                i_zone = i.i_zone;
              },
              s2,
            ))
        × Same laws n s1 s2
  read_inode-write_inode n s sb i j layout imap idle is place taken =
      let (s1, run1, st) =
        write_inode-Stored laws (suc (suc (suc (suc n)))) s sb layout imap
          (Idle-less laws (suc (suc (suc (suc (suc (suc (suc (suc n)))))))) (n + 8) s (omega arith)
            idle)
          i is place taken in
      let (s2, run2, same) =
        read_inode-Stored laws n s1 sb layout
          (Stored-HasImap (suc (suc (suc (suc n)))) sb s i s1 layout st imap) st.idle j i is place
          (Stored-map_bit (suc (suc (suc (suc n)))) sb s i s1 layout st i.i_inum place ∙ taken)
          st.here in
      (s1, s2, run1, run2, same)
