-- ===== src/Content/Read.antt =====
-- fs/fs.c: `_read` returns the content of an inode, or panics.
use rxd_os.Prelude.{
  ℕ, zero, suc, ◌+◌, ◌-◌, ◌*◌, ◌/◌, ◌%◌, ◌^◌, ◌≤◌, ◌<◌, ◌≡◌, refl, ◌∙◌, ap, List, [], ◌++◌, some,
  ok, arith, get_or,
}
use mathlib.Core.List.{append-nil}
use native.Mathlib.Decide.{dec_lt}
use rxd_os.Blk.{Drive, blk_dev_hd}
use rxd_os.Buffer.{Cache}
use rxd_os.Buffer.Disk.{DiskLaws, slice, slice-same}
use rxd_os.Buffer.Session.{Idle}
use rxd_os.Blockmap.Next.{Idle-less}
use rxd_os.Image.{read_part}
use rxd_os.Image.Access.{Same, read_part-Same}
use rxd_os.Inode.{Inode}
use rxd_os.Zone.{get_zone_blk}
use rxd_os.Zone.Direct.{get_zone_blk-ok}
use rxd_os.Content.{first_bytes, next_bytes, read_loop, read}
use rxd_os.Content.Range.{past_end-inside}
use rxd_os.Content.Bytes.{file_byte, IsFile, part-file_byte, file_byte-same, slice-append}

module _ {D : Type 0} {drive : Drive D} (laws : DiskLaws drive) where
  pub Same-trans :
      (n m : ℕ) (s s1 s2 : Cache D) → Same laws m s s1 → Same laws n s1 s2 → Same laws n s s2
  Same-trans n m s s1 s2 first second = record {
    idle = second.idle;
    views = λ b. second.views b ∙ first.views b;
  }

  -- One access of `_read`.
  pub zone_part :
      (n : ℕ) (s : Cache D) (i : Inode) (z off m : ℕ)
      → Idle laws (suc (suc n)) s
      → IsFile laws i
      → z ≤ 6
      → off + m ≤ 1024
      → (s' : Cache D) × (read_part drive blk_dev_hd (get_or i.i_zone z 0) off m s
          ≡ ok (slice (file_byte laws s i) (z * 1024 + off) m, s'))
        × Same laws n s s'
  zone_part n s i z off m idle file direct h =
      let (s', run, same) =
        read_part-Same laws n s (get_or i.i_zone z 0) off m idle (file.inside z direct) h in
      (s', run ∙ ap (λ l. ok (l, s')) (part-file_byte laws s i z off m h), same)

  read_loop-done :
      (fuel dev : ℕ) (i : Inode) (z left : ℕ) (s : Cache D)
      → left ≡ 0
      → read_loop drive (suc fuel) dev i z left s ≡ ok ([], s)
  unfolding read_loop
  read_loop-done fuel dev i z left s e = ground (arith, e)

  read_loop-step :
      (fuel dev : ℕ) (i : Inode) (z left b : ℕ) (s s1 s2 : Cache D) (bytes rest : List ℕ)
      → 0 < left
      → get_zone_blk i z ≡ ok b
      → read_part drive dev b 0 (next_bytes left) s ≡ ok (bytes, s1)
      → read_loop drive fuel dev i (z + 1) (left - next_bytes left) s1 ≡ ok (rest, s2)
      → read_loop drive (suc fuel) dev i z left s ≡ ok (bytes ++ rest, s2)
  unfolding read_loop
  read_loop-step fuel dev i z left b s s1 s2 bytes rest more known run later =
      ground (arith, more, known, run, later)

  -- The loop, with at most one block left.
  read_loop-last :
      (n fuel : ℕ) (s : Cache D) (i : Inode) (z left : ℕ)
      → Idle laws (suc (suc n)) s
      → IsFile laws i
      → (0 < left → z * 1024 + left ≤ i.i_size)
      → left ≤ 1024
      → (s' : Cache D) × (read_loop drive (suc (suc fuel)) blk_dev_hd i z left s
          ≡ ok (slice (file_byte laws s i) (z * 1024) left, s'))
        × Same laws n s s'
  unfolding slice
  read_loop-last n fuel s i z zero idle file inside h = (
    s,
    read_loop-done (suc fuel) blk_dev_hd i z 0 s refl,
    record { idle = Idle-less laws n (suc (suc n)) s (omega arith) idle; views = λ b. refl },
  )
  read_loop-last n fuel s i z (suc left) idle file inside h =
      let l : ℕ = suc left in
      let inside' = inside (omega arith) in
      let direct : z ≤ 6 = omega (arith, inside', file.size) in
      let known = get_zone_blk-ok i z file.zones (omega (arith, inside')) direct in
      let whole : next_bytes l ≡ l = ground (arith, h) in
      let (s', run, same) = zone_part n s i z 0 l idle file direct (omega (arith, h)) in
      let none_left : l - next_bytes l ≡ 0 = omega (arith, whole) in
      let bytes : List ℕ = slice (file_byte laws s i) (z * 1024 + 0) l in
      let run' : read_part drive blk_dev_hd (get_or i.i_zone z 0) 0 (next_bytes l) s
          ≡ ok (bytes, s') =
        ap (λ m. read_part drive blk_dev_hd (get_or i.i_zone z 0) 0 m s) whole ∙ run in
      let steps =
        read_loop-step (suc fuel) blk_dev_hd i z l (get_or i.i_zone z 0) s s' s' bytes []
          (omega arith) known run'
          (read_loop-done fuel blk_dev_hd i (z + 1) (l - next_bytes l) s' none_left) in
      let start : z * 1024 + 0 ≡ z * 1024 = omega arith in
      let value : bytes ++ [] ≡ slice (file_byte laws s i) (z * 1024) l =
        append-nil bytes ∙ ap (λ a. slice (file_byte laws s i) a l) start in
      (s', steps ∙ ap (λ xs. ok (xs, s')) value, same)

  -- A read inside one zone.
  pub read-one_zone :
      (n : ℕ) (s : Cache D) (i : Inode) (pos count : ℕ)
      → Idle laws (suc (suc n)) s
      → IsFile laws i
      → 0 < count
      → pos + count ≤ i.i_size
      → pos % 1024 + count ≤ 1024
      → (s' : Cache D) × (read drive blk_dev_hd i pos count s
          ≡ ok (some (slice (file_byte laws s i) pos count), s'))
        × Same laws n s s'
  unfolding read
  read-one_zone n s i pos count idle file some_bytes inside short =
      let small : pos + count < 2 ^ 31 = omega (arith, inside, file.size) in
      let near = past_end-inside pos count i.i_size inside (omega (arith, file.size)) in
      let z : ℕ = pos / 1024 in
      let direct : z ≤ 6 = omega (arith, inside, file.size, some_bytes) in
      let known : get_zone_blk i z ≡ ok (get_or i.i_zone z 0) =
        get_zone_blk-ok i z file.zones (omega (arith, inside)) direct in
      let whole : first_bytes pos count ≡ count = ground (arith, short) in
      let (s1, run1, same1) = zone_part n s i z (pos % 1024) count idle file direct short in
      let run2 =
        ap (λ m. read_part drive blk_dev_hd (get_or i.i_zone z 0) (pos % 1024) m s) whole ∙ run1 in
      let none_left : count - first_bytes pos count ≡ 0 = omega (arith, whole) in
      let start : z * 1024 + pos % 1024 ≡ pos = omega arith in
      let bytes : List ℕ = slice (file_byte laws s i) (z * 1024 + pos % 1024) count in
      let value : bytes ++ [] ≡ slice (file_byte laws s i) pos count =
        append-nil bytes ∙ ap (λ a. slice (file_byte laws s i) a count) start in
      let rest =
        read_loop-done 7 blk_dev_hd i (z + 1) (count - first_bytes pos count) s1 none_left in
      (s1, ground (arith, near, small, known, run2, rest, value), same1)

  -- Where the second block begins.
  next_block :
      (f : ℕ → ℕ) (pos count : ℕ)
      → slice f ((pos / 1024 + 1) * 1024) (count - first_bytes pos count)
        ≡ slice f (pos + first_bytes pos count) (count - first_bytes pos count)
  unfolding slice
  next_block f pos count = elim (dec_lt count (1024 - pos % 1024)) [
    | yes less ↦
        let none_left : count - first_bytes pos count ≡ 0 = ground (arith, less) in
        rw none_left refl
    | no more ↦
        let start : (pos / 1024 + 1) * 1024 ≡ pos + first_bytes pos count = ground (arith, more) in
        ap (λ a. slice f a (count - first_bytes pos count)) start
  ]

  -- The disk obeys the laws, nobody uses a buffer, and slots for four transfers are free. A read inside a
  -- file of direct zones that ends at most one block after the block that it begins in, which is when
  -- the offset in the first block and the count make at most 2048, returns the bytes of the content
  -- from pos on, count of them, and leaves every block as it was.
  pub read-file_byte :
      (n : ℕ) (s : Cache D) (i : Inode) (pos count : ℕ)
      → Idle laws (suc (suc (suc (suc n)))) s
      → IsFile laws i
      → 0 < count
      → pos + count ≤ i.i_size
      → pos % 1024 + count ≤ 2048
      → (s' : Cache D) × (read drive blk_dev_hd i pos count s
          ≡ ok (some (slice (file_byte laws s i) pos count), s'))
        × Same laws n s s'
  unfolding read
  read-file_byte n s i pos count idle file some_bytes inside short =
      let small : pos + count < 2 ^ 31 = omega (arith, inside, file.size) in
      let near = past_end-inside pos count i.i_size inside (omega (arith, file.size)) in
      let z : ℕ = pos / 1024 in
      let m : ℕ = first_bytes pos count in
      let direct : z ≤ 6 = omega (arith, inside, file.size, some_bytes) in
      let known : get_zone_blk i z ≡ ok (get_or i.i_zone z 0) =
        get_zone_blk-ok i z file.zones (omega (arith, inside)) direct in
      let fits : pos % 1024 + m ≤ 1024 = ground arith in
      let (s1, run1, same1) = zone_part (suc (suc n)) s i z (pos % 1024) m idle file direct fits in
      let f : ℕ → ℕ = file_byte laws s i in
      let (s2, run2, same2) =
        read_loop-last n 6 s1 i (z + 1) (count - m) same1.idle file
          (λ more. ground (arith, more, inside)) (ground (arith, short)) in
      let same_bytes : (p : ℕ) → file_byte laws s1 i p ≡ f p =
        file_byte-same laws s s1 i same1.views in
      let rest : slice (file_byte laws s1 i) ((z + 1) * 1024) (count - m)
          ≡ slice f (pos + m) (count - m) =
        slice-same (file_byte laws s1 i) f ((z + 1) * 1024) (count - m) (λ b p q. same_bytes b)
        ∙ next_block f pos count in
      let start : z * 1024 + pos % 1024 ≡ pos = omega arith in
      let total : m + (count - m) ≡ count = ground arith in
      let value : slice f (z * 1024 + pos % 1024) m
            ++ slice (file_byte laws s1 i) ((z + 1) * 1024) (count - m)
          ≡ slice f pos count =
        ap (λ a. slice f a m ++ slice (file_byte laws s1 i) ((z + 1) * 1024) (count - m)) start
        ∙ ap (λ l. slice f pos m ++ l) rest
        ∙ slice-append f pos m (count - m)
        ∙ ap (slice f pos) total in
      (
        s2,
        ground (arith, near, small, known, run1, run2, value),
        Same-trans n (suc (suc n)) s s1 s2 same1 same2,
      )
