-- ===== src/Mount/Init.antt =====
-- fs/fs.c: `fs_init` of a disk with a file system and of one without.
use rxd_os.Prelude.{ℕ, suc, ◌+◌, ◌*◌, ◌≡◌, ok, arith}
use rxd_os.Blk.{Drive}
use rxd_os.Buffer.{Cache}
use rxd_os.Buffer.Disk.{DiskLaws}
use rxd_os.Buffer.Session.{Idle}
use rxd_os.Blockmap.Next.{Idle-less}
use rxd_os.Image.Access.{Same}
use rxd_os.Super.{SuperBlock}
use rxd_os.Inode.{Inode}
use rxd_os.Content.Read.{Same-trans}
use rxd_os.Mount.{fs_init}
use rxd_os.Mount.Made.{Made}
use rxd_os.Mount.Load.{loaded, Formatted, Formatted-same, load_super, load_root, dump_zones-Same}

module _ {D : Type 0} {drive : Drive D} (laws : DiskLaws drive) where
  -- Let a disk that obeys the laws hold a file system in order, its super block with the magic number in
  -- block 1 and its root in the table; let nobody use a buffer and slots for 14 transfers be free. fs_init
  -- returns with the super block and the root of the disk, one user of the root, and every block as it was.
  pub fs_init-Formatted :
      (n : ℕ) (sb : SuperBlock) (root i : Inode) (s : Cache D)
      → Formatted laws sb i s
      → Idle laws (n + 14) s
      → (s' : Cache D) × (fs_init drive root s ≡ ok (sb, loaded root i, s')) × Same laws n s s'
  unfolding fs_init
  fs_init-Formatted n sb root i s f idle =
      let n6 : ℕ = suc (suc (suc (suc (suc (suc n))))) in
      let n12 : ℕ = suc (suc (suc (suc (suc (suc n6))))) in
      let (s1, run1, same1) =
        load_super laws n12 sb i s f
          (Idle-less laws (suc (suc n12)) (n + 14) s (omega arith) idle) in
      let (s2, s3, run2, run3, same3) =
        load_root laws n6 sb root i s1 (Formatted-same laws s s1 same1.views sb i f) same1.idle in
      let (s4, run4, same4) =
        dump_zones-Same laws n 3 0 (loaded root i) s3
          (Idle-less laws (n + 2 * 3) n6 s3 (omega arith) same3.idle) f.file.zones.size
          f.file.zones.inside (omega arith) in
      (
        s4,
        ground (arith, run1, f.magic, run2, run3, f.file.layout.device, run4),
        Same-trans laws n n6 s s3 s4 (Same-trans laws n6 n12 s s1 s3 same1 same3) same4,
      )
