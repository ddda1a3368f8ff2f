-- ===== src/Content/Long.antt =====
-- fs/fs.c: `_read` of more than two blocks behind the first. `left_bytes % BLOCK_SIZE` is 0 when whole
-- blocks are left, and its loop then copies nothing until the zone number is refused.
use rxd_os.Prelude.{
  ℕ, zero, suc, ◌+◌, ◌-◌, ◌*◌, ◌/◌, ◌%◌, ◌^◌, ◌≤◌, ◌<◌, ◌≡◌, ok, panic, List, arith, get_or,
}
use native.Mathlib.Decide.{ℕ_discrete, dec_le}
use rxd_os.Blk.{Drive, blk_dev_hd}
use rxd_os.Buffer.{Cache}
use rxd_os.Buffer.Disk.{DiskLaws}
use rxd_os.Buffer.Session.{Idle}
use rxd_os.Blockmap.Next.{Idle-less}
use rxd_os.Image.{read_part}
use rxd_os.Inode.{Inode}
use rxd_os.Zone.{zones_of, get_zone_blk}
use rxd_os.Zone.Direct.{get_zone_blk-ok, get_zone_blk-panic, get_zone_blk-behind}
use rxd_os.Content.{first_bytes, next_bytes, read_loop, read}
use rxd_os.Content.Range.{past_end-inside}
use rxd_os.Content.Bytes.{IsFile}
use rxd_os.Content.Read.{zone_part}

module _ {D : Type 0} {drive : Drive D} (laws : DiskLaws drive) where
  refused_zone :
      (fuel dev : ℕ) (i : Inode) (z left : ℕ) (s : Cache D)
      → 0 < left
      → get_zone_blk i z ≡ panic
      → read_loop drive (suc fuel) dev i z left s ≡ panic
  unfolding read_loop
  refused_zone fuel dev i z left s more refused = ground (arith, more, refused)

  refused_later :
      (fuel dev : ℕ) (i : Inode) (z left b : ℕ) (s s1 : Cache D) (bytes : List ℕ)
      → 0 < left
      → get_zone_blk i z ≡ ok b
      → read_part drive dev b 0 (next_bytes left) s ≡ ok (bytes, s1)
      → read_loop drive fuel dev i (z + 1) (left - next_bytes left) s1 ≡ panic
      → read_loop drive (suc fuel) dev i z left s ≡ panic
  unfolding read_loop
  refused_later fuel dev i z left b s s1 bytes more known run later =
      ground (arith, more, known, run, later)

  -- A round in which the zone is accepted goes on with what is left; one in which it is refused panics.
  one_round :
      (n rounds : ℕ) (s : Cache D) (i : Inode) (z left : ℕ)
      → Idle laws (suc (suc n)) s
      → IsFile laws i
      → 0 < left
      → ((s1 : Cache D)
          → Idle laws n s1
          → read_loop drive rounds blk_dev_hd i (z + 1) (left - next_bytes left) s1 ≡ panic)
      → read_loop drive (suc rounds) blk_dev_hd i z left s ≡ panic
  one_round n rounds s i z left idle file more later = elim (dec_le z 6) [
    | no far ↦
        refused_zone rounds blk_dev_hd i z left s more (get_zone_blk-panic i z (omega (arith, far)))
    | yes direct ↦ elim (dec_le z (zones_of i.i_size)) [
      | no behind ↦
          refused_zone rounds blk_dev_hd i z left s more
            (get_zone_blk-behind i z (omega (arith, behind)))
      | yes known ↦
          let fits : 0 + next_bytes left ≤ 1024 = ground arith in
          let (s1, run, same) = zone_part laws n s i z 0 (next_bytes left) idle file direct fits in
          refused_later rounds blk_dev_hd i z left (get_or i.i_zone z 0) s s1 _ more
            (get_zone_blk-ok i z file.zones known direct) run (later s1 same.idle)
    ]
  ]

  -- Whole blocks are left, and more than one: each round copies nothing.
  whole_blocks :
      (n rounds : ℕ) (s : Cache D) (i : Inode) (z left : ℕ)
      → Idle laws (n + 2 * rounds) s
      → IsFile laws i
      → 1024 < left
      → left % 1024 ≡ 0
      → 7 ≤ z + rounds
      → read_loop drive (suc rounds) blk_dev_hd i z left s ≡ panic
  whole_blocks n zero s i z left idle file many whole far =
      refused_zone 0 blk_dev_hd i z left s (omega (arith, many))
        (get_zone_blk-panic i z (omega (arith, far)))
  whole_blocks n (suc rounds) s i z left idle file many whole far =
      let m : ℕ = n + 2 * rounds in
      let nothing : left - next_bytes left ≡ left = ground (arith, many, whole) in
      one_round m (suc rounds) s i z left
        (Idle-less laws (suc (suc m)) (n + 2 * suc rounds) s (omega arith) idle) file
        (omega (arith, many))
        (λ s1 idle1.
          whole_blocks n rounds s1 i (z + 1) (left - next_bytes left) idle1 file
            (omega (arith, many, nothing)) (omega (arith, whole, nothing)) (omega (arith, far)))

  -- The disk obeys the laws, nobody uses a buffer, and slots for 16 transfers are free. A read inside a
  -- file of direct zones that has two blocks or more to read behind the block that it begins in panics,
  -- whatever the file holds.
  pub read-panic :
      (n : ℕ) (s : Cache D) (i : Inode) (pos count : ℕ)
      → Idle laws (n + 16) s
      → IsFile laws i
      → pos + count ≤ i.i_size
      → 3072 ≤ pos % 1024 + count
      → read drive blk_dev_hd i pos count s ≡ panic
  unfolding read
  read-panic n s i pos count idle file inside long =
      let small : pos + count < 2 ^ 31 = omega (arith, inside, file.size) in
      let near = past_end-inside pos count i.i_size inside (omega (arith, file.size)) in
      let z : ℕ = pos / 1024 in
      let m : ℕ = first_bytes pos count in
      let left : ℕ = count - m in
      let direct : z ≤ 6 = omega (arith, inside, file.size, long) in
      let known : get_zone_blk i z ≡ ok (get_or i.i_zone z 0) =
        get_zone_blk-ok i z file.zones (omega (arith, inside)) direct in
      let fits : pos % 1024 + m ≤ 1024 = ground arith in
      let (s1, run1, same1) =
        zone_part laws (n + 14) s i z (pos % 1024) m
          (Idle-less laws (suc (suc (n + 14))) (n + 16) s (omega arith) idle) file direct fits in
      let many : 2048 ≤ left = ground (arith, long) in
      let later : read_loop drive 8 blk_dev_hd i (z + 1) left s1 ≡ panic =
        elim (ℕ_discrete (left % 1024) 0) [
          | yes whole ↦
              whole_blocks n 7 s1 i (z + 1) left same1.idle file (omega (arith, many)) whole
                (omega arith)
          | no more ↦
              let rest : left - next_bytes left ≡ left - left % 1024 = ground (arith, many) in
              one_round (n + 12) 7 s1 i (z + 1) left
                (Idle-less laws (suc (suc (n + 12))) (n + 14) s1 (omega arith) same1.idle) file
                (omega (arith, many))
                (λ s2 idle2.
                  whole_blocks n 6 s2 i (z + 1 + 1) (left - next_bytes left) idle2 file
                    (omega (arith, many, rest, more)) (omega (arith, rest)) (omega arith))
        ] in
      ground (arith, near, small, known, run1, later)
