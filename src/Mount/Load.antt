-- ===== src/Mount/Load.antt =====
-- fs/fs.c: how `fs_init` reads the super block and the root of a file system.
use rxd_os.Prelude.{
  ℕ, zero, suc, ◌+◌, ◌*◌, ◌≤◌, ◌≡◌, refl, sym, ◌∙◌, ap, [], ok, arith, length, load-ok, get_or,
}
use native.Mathlib.Decide.{ℕ_discrete}
use mathlib.Core.List.{append-nil}
use rxd_os.Blk.{Drive, blk_dev_hd}
use rxd_os.Buffer.{Cache}
use rxd_os.Buffer.Disk.{DiskLaws, InDisk}
use rxd_os.Buffer.Coherence.{view}
use rxd_os.Buffer.Session.{Idle}
use rxd_os.Blockmap.Next.{Idle-less}
use rxd_os.Blockmap.Keeps.{OnDisk-same, map_bit-same}
use rxd_os.Image.{part}
use rxd_os.Image.Access.{Same, read_part-Same}
use rxd_os.Super.{SuperBlock, super_magic, read_super, super_of, super_words, word32s, words_from}
use rxd_os.Super.Words.{AreWords, words_from-word32s}
use rxd_os.Super.Layout.{Layout}
use rxd_os.Inode.{Inode, inode_bytes, inode_blkoff, inode_blknr, read_inode}
use rxd_os.Inode.Stored.{stored, read_inode-Stored}
use rxd_os.Content.Read.{Same-trans}
use rxd_os.Content.Change.{HasZones-same}
use rxd_os.Content.Effect.{HasFile, HasZmap-same}
use rxd_os.Zone.{zones_of}
use rxd_os.Mount.{dump_zones}

-- The inode `i` in memory with one user, where the lists of `root` were.
abbrev pub loaded : (root i : Inode) → Inode
loaded root i = record i { i_links = root.i_links; i_refcnt = 1 }

super_of-bytes :
    (sb : SuperBlock)
    → AreWords (super_words sb)
    → super_of (words_from 9 (word32s (super_words sb))) ≡ sb
unfolding super_of super_words
super_of-bytes sb are = ap super_of (
    ap (words_from 9) (sym (append-nil (word32s (super_words sb))))
    ∙ words_from-word32s (super_words sb) [] are)

module _ {D : Type 0} {drive : Drive D} (laws : DiskLaws drive) where
  pub read_super-Same :
      (n : ℕ) (s : Cache D)
      → Idle laws (suc (suc n)) s
      → InDisk laws 1
      → (s' : Cache D) × (read_super drive 3 s
          ≡ ok (record (super_of (words_from 9 (part (view laws s 1) 0 36))) { s_dev = 3 }, s'))
        × Same laws n s s'
  unfolding read_super
  read_super-Same n s idle inside =
      let (s', run, same) = read_part-Same laws n s 1 0 36 idle inside (omega arith) in
      (s', ground (arith, run), same)

  -- A file system with the super block `sb` and the root `i`.
  pub record Formatted (sb : SuperBlock) (i : Inode) (s : Cache D) : Type 0 where
    pub file : HasFile laws s sb i
    pub magic : sb.s_magic ≡ super_magic
    pub words : AreWords (super_words sb)
    pub super : part (view laws s 1) 0 36 ≡ word32s (super_words sb)
    pub first : i.i_inum ≡ 1
    pub here : stored laws s sb 1 ≡ inode_bytes i

  module _ (s s' : Cache D) (same : (b : ℕ) → view laws s' b ≡ view laws s b) where
    HasFile-same : (sb : SuperBlock) (i : Inode) → HasFile laws s sb i → HasFile laws s' sb i
    HasFile-same sb i file = record {
      layout = file.layout;
      imap =
          OnDisk-same laws s s' sb.s_imap_start (sb.s_imap_start + sb.s_imap_count)
            (λ b p q. same b) file.imap;
      zmap = HasZmap-same laws s s' sb (λ b p q. same b) file.zmap;
      is_inode = file.is_inode;
      place = file.place;
      number =
          map_bit-same laws s s' sb.s_imap_start (sb.s_imap_start + sb.s_imap_count)
            (λ b p q. same b) i.i_inum (omega (arith, file.place.in_map))
          ∙ file.number;
      zones = HasZones-same laws s s' sb i (zones_of i.i_size) (λ b p q. same b) file.zones;
    }

    pub Formatted-same : (sb : SuperBlock) (i : Inode) → Formatted sb i s → Formatted sb i s'
    Formatted-same sb i f = record {
      file = HasFile-same sb i f.file;
      magic = f.magic;
      words = f.words;
      super = ap (λ l. part l 0 36) (same 1) ∙ f.super;
      first = f.first;
      here = ap (λ l. part l (inode_blkoff 1) 72) (same (inode_blknr sb 1)) ∙ f.here;
    }

  super-inside : (sb : SuperBlock) → Layout laws sb → InDisk laws 1
  super-inside sb layout =
      layout.inside 1 (omega (arith, layout.behind_super, layout.imap, layout.zmap, layout.itable))

  pub load_super :
      (n : ℕ) (sb : SuperBlock) (i : Inode) (s : Cache D)
      → Formatted sb i s
      → Idle laws (suc (suc n)) s
      → (s' : Cache D) × (read_super drive 3 s ≡ ok (sb, s')) × Same laws n s s'
  load_super n sb i s f idle =
      let (s', run, same) = read_super-Same n s idle (super-inside sb f.file.layout) in
      let value : super_of (words_from 9 (part (view laws s 1) 0 36)) ≡ sb =
        ap (λ l. super_of (words_from 9 l)) f.super ∙ super_of-bytes sb f.words in
      let whole : record (super_of (words_from 9 (part (view laws s 1) 0 36))) { s_dev = 3 } ≡ sb =
        ap (λ (b : SuperBlock). record b { s_dev = 3 }) value
        ∙ ap (λ d. record sb { s_dev = d }) (sym f.file.layout.device) in
      (s', run ∙ ap (λ b. ok (b, s')) whole, same)

  -- The second part of fs_init: the super block, and the root.
  pub load_root :
      (n : ℕ) (sb : SuperBlock) (root i : Inode) (s : Cache D)
      → Formatted sb i s
      → Idle laws (suc (suc (suc (suc (suc (suc n)))))) s
      → (s1 : Cache D) × (s2 : Cache D) × (read_super drive 3 s ≡ ok (sb, s1))
        × (read_inode drive root 1 sb s1
            ≡ ok (record i { i_links = root.i_links; i_refcnt = root.i_refcnt }, s2))
        × Same laws n s s2
  load_root n sb root i s f idle =
      let n4 : ℕ = suc (suc (suc (suc n))) in
      let (s1, run1, same1) = load_super n4 sb i s f idle in
      let f1 = Formatted-same s s1 same1.views sb i f in
      let (s2, run2, same2) =
        read_inode-Stored laws n s1 sb f1.file.layout f1.file.imap same1.idle root i
          f1.file.is_inode f1.file.place f1.file.number
          (ap (stored laws s1 sb) f1.first ∙ f1.here) in
      (
        s1,
        s2,
        run1,
        ap (λ k. read_inode drive root k sb s1) (sym f.first) ∙ run2,
        Same-trans laws n n4 s s1 s2 same1 same2,
      )

  pub dump_zones-Same :
      (n rounds j : ℕ) (i : Inode) (s : Cache D)
      → Idle laws (n + 2 * rounds) s
      → length i.i_zone ≡ 9
      → ((k : ℕ) → k ≤ 6 → InDisk laws (get_or i.i_zone k 0))
      → j + rounds ≤ 7
      → (s' : Cache D) × (dump_zones drive blk_dev_hd rounds j i s ≡ ok s') × Same laws n s s'
  unfolding dump_zones
  dump_zones-Same n zero j i s idle size inside few = (
    s,
    refl,
    record { idle = Idle-less laws n (n + 2 * 0) s (omega arith) idle; views = λ b. refl },
  )
  dump_zones-Same n (suc rounds) j i s idle size inside few =
      let m : ℕ = n + 2 * rounds in
      let block : ℕ = get_or i.i_zone j 0 in
      let found = load-ok i.i_zone j 0 (omega (arith, size, few)) in
      elim (ℕ_discrete block 0) [
        | yes none_left ↦ (
          s,
          ground (arith, found, none_left),
          record {
            idle = Idle-less laws n (n + 2 * suc rounds) s (omega arith) idle;
            views = λ b. refl;
          },
        )
        | no more ↦
            let (s1, run1, same1) =
              read_part-Same laws m s block 0 32
                (Idle-less laws (suc (suc m)) (n + 2 * suc rounds) s (omega arith) idle)
                (inside j (omega (arith, few))) (omega arith) in
            let (s2, run2, same2) =
              dump_zones-Same n rounds (j + 1) i s1 same1.idle size inside (omega (arith, few)) in
            (s2, ground (arith, found, more, run1, run2), Same-trans laws n m s s1 s2 same1 same2)
      ]
