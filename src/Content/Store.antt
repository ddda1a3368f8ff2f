-- ===== src/Content/Store.antt =====
-- fs/fs.c: the accesses of `_write` to the zones of an inode.
use rxd_os.Prelude.{
  ℕ, suc, ◌+◌, ◌*◌, ◌/◌, ◌%◌, ◌≤◌, ◌<◌, ◌≡◌, refl, ◌∙◌, ap, List, [], ◌∷◌, ok, arith, length, take,
  drop,
}
use mathlib.Core.Path.{subst}
use rxd_os.Blk.{Drive, blk_dev_hd}
use rxd_os.Buffer.{Cache}
use rxd_os.Buffer.Disk.{DiskLaws, overwritten}
use rxd_os.Buffer.Session.{Idle}
use rxd_os.Blockmap.Next.{Idle-less}
use rxd_os.Image.{copy_in, change_block}
use rxd_os.Super.{SuperBlock}
use rxd_os.Inode.{Inode}
use rxd_os.Zone.{zones_of, get_zone_blk}
use rxd_os.Zone.Direct.{get_zone_blk-ok}
use rxd_os.Zone.Reserve.{zone, HasZones}
use rxd_os.Content.{first_bytes, next_bytes, write_loop}
use rxd_os.Content.Overwrite.{take-append-drop, length-take, length-drop}
use rxd_os.Content.Change.{Written, Written-append, HasZones-same, zone-Written}

module _ {D : Type 0} (drive : Drive D) where
  write_loop-done :
      (fuel dev : ℕ) (i : Inode) (z : ℕ) (buf : List ℕ) (s : Cache D)
      → length buf ≡ 0
      → write_loop drive (suc fuel) dev i z buf s ≡ ok s
  unfolding write_loop
  write_loop-done fuel dev i z buf s e = ground (arith, e)

  write_loop-step :
      (fuel dev : ℕ) (i : Inode) (z b : ℕ) (buf : List ℕ) (s s1 s2 : Cache D)
      → 0 < length buf
      → get_zone_blk i z ≡ ok b
      → change_block drive dev b (copy_in 0 (take (next_bytes (length buf)) buf)) s ≡ ok s1
      → write_loop drive fuel dev i (z + 1) (drop (next_bytes (length buf)) buf) s1 ≡ ok s2
      → write_loop drive (suc fuel) dev i z buf s ≡ ok s2
  unfolding write_loop
  write_loop-step fuel dev i z b buf s s1 s2 more known run later =
      ground (arith, more, known, run, later)

module _ {D : Type 0} {drive : Drive D} (laws : DiskLaws drive) (n : ℕ) (sb : SuperBlock)
    (i : Inode) (m : ℕ) where
  -- The loop, with at most one block left.
  write_loop-last :
      (fuel : ℕ) (s : Cache D) (z : ℕ) (buf : List ℕ)
      → HasZones laws s sb i m
      → Idle laws (suc (suc n)) s
      → (0 < length buf → (z < m) × (z ≤ zones_of i.i_size))
      → length buf ≤ 1024
      → (s' : Cache D) × (write_loop drive (suc (suc fuel)) blk_dev_hd i z buf s ≡ ok s')
        × Written laws n s i m (z * 1024) buf s'
  unfolding overwritten
  write_loop-last fuel s z [] zones idle inside short = (
    s,
    write_loop-done drive (suc fuel) blk_dev_hd i z [] s refl,
    record {
      idle = Idle-less laws n (suc (suc n)) s (omega arith) idle;
      bytes = λ p h. refl;
      others = λ b ne. refl;
    },
  )
  write_loop-last fuel s z (x ∷ xs) zones idle inside short =
      let buf : List ℕ = x ∷ xs in
      let (small, near) = inside (omega arith) in
      let known = get_zone_blk-ok i z zones.size near (omega (arith, small, zones.few)) in
      let whole : next_bytes (length buf) ≡ length buf = ground (arith, short) in
      let all : take (next_bytes (length buf)) buf ≡ buf =
        ap (λ k. take k buf) whole ∙ take_all buf in
      let (s', run, written) =
        zone-Written laws n s sb i m z 0 buf zones idle small (omega (arith, short)) in
      let run' = ap (λ l. change_block drive blk_dev_hd (zone i z) (copy_in 0 l) s) all ∙ run in
      let none_left : length (drop (next_bytes (length buf)) buf) ≡ 0 =
        omega (arith, length-drop (next_bytes (length buf)) buf, whole) in
      let start : z * 1024 + 0 ≡ z * 1024 = omega arith in
      (
        s',
        write_loop-step drive (suc fuel) blk_dev_hd i z (zone i z) buf s s' s' (omega arith) known
            run'
            (write_loop-done drive fuel blk_dev_hd i (z + 1) (drop (next_bytes (length buf)) buf) s'
              none_left),
        subst (λ a. Written laws n s i m a buf s') start written,
      )
    where
      take_all : (l : List ℕ) → take (length l) l ≡ l
      take_all [] = refl
      take_all (y ∷ ys) = ap (λ l. y ∷ l) (take_all ys)

  -- Where nothing is written does not matter.
  Written-move :
      (s s' : Cache D) (a a' : ℕ) (buf : List ℕ)
      → (0 < length buf → a ≡ a')
      → Written laws n s i m a buf s'
      → Written laws n s i m a' buf s'
  unfolding overwritten
  Written-move s s' a a' [] same written = record {
    idle = written.idle;
    bytes = written.bytes;
    others = written.others;
  }
  Written-move s s' a a' (x ∷ xs) same written =
      subst (λ b. Written laws n s i m b (x ∷ xs) s') (same (omega arith)) written

  -- Both accesses, when the bytes reach into the block behind the first at most.
  pub accesses-Written :
      (s : Cache D) (pos : ℕ) (buf : List ℕ)
      → HasZones laws s sb i m
      → Idle laws (suc (suc (suc (suc n)))) s
      → sb.s_zmap_start + sb.s_zmap_count ≤ sb.s_data_start
      → 0 < length buf
      → pos + length buf ≤ m * 1024
      → pos + length buf ≤ (zones_of i.i_size + 1) * 1024
      → pos % 1024 + length buf ≤ 2048
      → (s1 : Cache D) × (s' : Cache D) × (get_zone_blk i (pos / 1024) ≡ ok (zone i (pos / 1024)))
        × (change_block drive blk_dev_hd
              (zone i (pos / 1024))
              (copy_in (pos % 1024) (take (first_bytes pos (length buf)) buf))
              s
            ≡ ok s1)
        × (write_loop drive 8 blk_dev_hd i
              (pos / 1024 + 1)
              (drop (first_bytes pos (length buf)) buf)
              s1
            ≡ ok s')
        × Written laws n s i m pos buf s'
  accesses-Written s pos buf zones idle layout some_bytes inside near short =
      let z : ℕ = pos / 1024 in
      let count : ℕ = length buf in
      let k : ℕ = first_bytes pos count in
      let small : z < m = omega (arith, some_bytes, inside) in
      let known =
        get_zone_blk-ok i z zones.size (omega (arith, near, some_bytes))
          (omega (arith, small, zones.few)) in
      let few : k ≤ count = ground arith in
      let size1 = length-take k buf few in
      let size2 = length-drop k buf in
      let fits : pos % 1024 + k ≤ 1024 = ground arith in
      let (s1, run1, written1) =
        zone-Written laws (suc (suc n)) s sb i m z (pos % 1024) (take k buf) zones idle small
          (omega (arith, size1, fits)) in
      let zones1 =
        HasZones-same laws s s1 sb i m
          (λ b p q.
            written1.others b (λ j h e. absurd (omega (arith, e, q, layout, zones.behind j h))))
          zones in
      let next : (0 < length (drop k buf)) → (z + 1 < m) × (z + 1 ≤ zones_of i.i_size) =
        λ more. (ground (arith, more, size2, inside), ground (arith, more, size2, near)) in
      let (s', run2, written2) =
        write_loop-last 6 s1 (z + 1) (drop k buf) zones1 written1.idle next
          (ground (arith, size2, short)) in
      let start : z * 1024 + pos % 1024 ≡ pos = omega arith in
      let first = subst (λ a. Written laws (suc (suc n)) s i m a (take k buf) s1) start written1 in
      let second =
        Written-move s1 s' ((z + 1) * 1024) (pos + length (take k buf)) (drop k buf)
          (λ more. ground (arith, more, size1, size2)) written2 in
      let whole =
        Written-append laws n (suc (suc n)) s s1 s' i m pos (take k buf) (drop k buf) first
          second in
      (
        s1,
        s',
        known,
        run1,
        run2,
        subst (λ l. Written laws n s i m pos l s') (take-append-drop k buf) whole,
      )
