-- ===== src/Hd/Ram.antt =====
-- kernel/blk_drv/hd.c: the driver over a drive that is always ready and keeps its bytes in a function. It
-- is a disk with the laws that the cache of Buffer needs.
use rxd_os.Prelude.{
  ℕ, zero, suc, ◌+◌, ◌*◌, ◌/◌, ◌%◌, ◌^◌, ◌≤◌, ◌<◌, ◌≡◌, refl, sym, ◌∙◌, ap, List, [], ◌∷◌, ◌++◌, ok,
  arith, length, take, drop, inl, ◌==◌, if◌then◌else◌, bit_or, ltb, false,
}
use native.Mathlib.Decide.{ℕ_discrete}
use rxd_os.Blk.{Drive, bio_read, bio_write}
use rxd_os.Blk.Transfer.{cmd_of}
use rxd_os.Buffer.Disk.{DiskLaws, slice, overwritten, overwritten-outside}
use rxd_os.Content.Bytes.{slice-append}
use rxd_os.Content.Overwrite.{take-append-drop, length-take, length-drop}
use rxd_os.Hd.{
  Ports, HdDev, Geometry, Address, hd_cmd_out, out_all, registers, address_of, read_sectors,
  write_sectors, wait_status, wait_loop, hd_rdwt, hd_handle_request, command_reg, dev_ctrl_reg,
  data_reg, stat_drq, norm_wait_time, stat_busy, cmd_read, cmd_write,
}
use rxd_os.Hd.Registers.{sector_of, lba28_sector}
use rxd_os.Hd.Disk.{hd_drive}

-- The bytes, what was written to the registers since the last command began, and the byte that the next
-- transfer begins at.
pub record Ram : Type 0 where
  pub bytes : ℕ → ℕ
  pub regs : List (ℕ × ℕ)
  pub pos : ℕ

abbrev geometry : Geometry
geometry = record { sect_per_trk = 63; head_nr = 16 }

-- A write to the command register ends the command, and the sector that the registers name is the place.
abbrev pub ram_ports : Ports Ram
ram_ports = record {
  inb = λ port p. (0x08, p);
  outb = λ port value p.
      if port == dev_ctrl_reg
      then record p { regs = (port, value) ∷ [] }
      else if port == command_reg
      then record p { pos = 512 * sector_of geometry 1 (p.regs ++ (port, value) ∷ []) }
      else record p { regs = p.regs ++ (port, value) ∷ [] };
  port_read = λ port nr p. (slice p.bytes p.pos nr, record p { pos = p.pos + nr });
  port_write = λ port buffer p. record p {
    bytes = overwritten p.bytes p.pos buffer;
    pos = p.pos + length buffer;
  };
}

abbrev lba_disk : HdDev
lba_disk = record { addr_mode = 1; sect_cnt = 2 ^ 28; sect_cnt_ex = 0 }

abbrev pub lba_disks : List HdDev
lba_disks = lba_disk ∷ lba_disk ∷ []

abbrev lba_address : (cmd n : ℕ) → Address
lba_address cmd n = record {
  dev_reg = bit_or (bit_or 0 0xe0) (n / 2 ^ 24 % 16);
  nsect_low = n;
  cmd = cmd;
}

abbrev commanded : (cmd count n : ℕ) → Ram → Ram
commanded cmd count n p = out_all ram_ports (registers 1 count 0 (lba_address cmd n)) p

command-run :
    (cmd count n : ℕ) (p : Ram)
    → n < 2 ^ 28
    → 0 < count
    → count ≤ 256
    → hd_cmd_out ram_ports geometry 0 cmd count n 0 lba_disks p ≡ ok (commanded cmd count n p)
unfolding hd_cmd_out wait_status wait_loop address_of
command-run cmd count n p hn some few = ground (arith, hn, some, few)

command-pos : (cmd count n : ℕ) (p : Ram) → n < 2 ^ 28 → (commanded cmd count n p).pos ≡ 512 * n
unfolding out_all registers address_of
command-pos cmd count n p hn =
    ap (λ q. 512 * q)
      (lba28_sector geometry 0 cmd count n (lba_address cmd n) (omega arith) hn refl)

command-bytes : (cmd count n : ℕ) (p : Ram) → (commanded cmd count n p).bytes ≡ p.bytes
unfolding out_all registers
command-bytes cmd count n p = refl

long_enough : (n : ℕ) → 512 ≤ n → ltb n 512 ≡ false
long_enough n h = ground (arith, h)

slice-nothing : (f : ℕ → ℕ) (a : ℕ) → slice f a 0 ≡ []
unfolding slice
slice-nothing f a = refl

read_sectors-slice :
    (count : ℕ) (buffer : List ℕ) (p : Ram)
    → length buffer ≡ 512 * count
    → read_sectors ram_ports count buffer p
      ≡ ok (slice p.bytes p.pos (512 * count), record p { pos = p.pos + 512 * count })
unfolding read_sectors
read_sectors-slice zero [] p size =
    let same : p.pos + 512 * 0 ≡ p.pos = omega arith in
    ap (λ l. ok (l, p)) (sym (slice-nothing p.bytes p.pos))
    ∙ ap (λ k. ok (slice p.bytes p.pos 0, record p { pos = k })) (sym same)
read_sectors-slice zero (x ∷ xs) p size = absurd (omega (arith, size))
read_sectors-slice (suc count) buffer p size =
    let p1 : Ram = record p { pos = p.pos + 512 } in
    let rest =
      read_sectors-slice count (drop 512 buffer) p1
        (length-drop 512 buffer ∙ omega (arith, size)) in
    let joined : slice p.bytes p.pos 512 ++ slice p.bytes (p.pos + 512) (512 * count)
        ≡ slice p.bytes p.pos (512 * suc count) =
      slice-append p.bytes p.pos 512 (512 * count) ∙ ap (slice p.bytes p.pos) (omega arith) in
    let end : p.pos + 512 + 512 * count ≡ p.pos + 512 * suc count = omega arith in
    rw (rest, long_enough (length buffer) (omega (arith, size)))
      (ap (λ l. ok (l, record p { pos = p.pos + 512 + 512 * count })) joined
        ∙ ap (λ k. ok (slice p.bytes p.pos (512 * suc count), record p { pos = k })) end)

-- Bytes that are written one list behind the other.
overwritten-same :
    (f g : ℕ → ℕ) (a b : ℕ) (xs : List ℕ) → f b ≡ g b → overwritten f a xs b ≡ overwritten g a xs b
unfolding overwritten
overwritten-same f g a b [] e = e
overwritten-same f g a b (x ∷ xs) e = ground (arith, overwritten-same f g (a + 1) b xs e)

overwritten-append :
    (f : ℕ → ℕ) (a b : ℕ) (xs ys : List ℕ)
    → overwritten (overwritten f a xs) (a + length xs) ys b ≡ overwritten f a (xs ++ ys) b
unfolding overwritten
overwritten-append f a b [] ys =
    let same : a + 0 ≡ a = omega arith in ap (λ k. overwritten f k ys b) same
overwritten-append f a b (x ∷ xs) ys =
    let end : a + suc (length xs) ≡ a + 1 + length xs = omega arith in
    elim (ℕ_discrete b a) [
      | yes here ↦
          let low : b < a + 1 + length xs = omega (arith, here) in
          ap (λ k. overwritten (overwritten f a (x ∷ xs)) k ys b) end
          ∙ overwritten-outside (overwritten f a (x ∷ xs)) (a + 1 + length xs) b ys (inl low)
          ∙ ground (arith, here)
      | no other ↦
          let base : overwritten f a (x ∷ xs) b ≡ overwritten f (a + 1) xs b =
            ground (arith, other) in
          ap (λ k. overwritten (overwritten f a (x ∷ xs)) k ys b) end
          ∙ overwritten-same (overwritten f a (x ∷ xs)) (overwritten f (a + 1) xs)
              (a + 1 + length xs) b ys base
          ∙ overwritten-append f (a + 1) b xs ys
          ∙ ground (arith, other)
    ]

overwritten-nothing : (f : ℕ → ℕ) (a b : ℕ) → overwritten f a [] b ≡ f b
unfolding overwritten
overwritten-nothing f a b = refl

-- The drive is ready to take a sector.
always_ready : (p : Ram) → wait_status ram_ports stat_drq stat_drq norm_wait_time p ≡ ok (9999, p)
unfolding wait_status wait_loop
always_ready p = refl

write_one :
    (count : ℕ) (buffer : List ℕ) (p : Ram)
    → 512 ≤ length buffer
    → write_sectors ram_ports (suc count) buffer p
      ≡ write_sectors ram_ports count
          (drop 512 buffer)
          (ram_ports.port_write data_reg (take 512 buffer) p)
unfolding write_sectors
write_one count buffer p size = rw (always_ready p, long_enough (length buffer) size) refl

write_sectors-overwritten :
    (count : ℕ) (buffer : List ℕ) (p : Ram)
    → length buffer ≡ 512 * count
    → (p' : Ram) × (write_sectors ram_ports count buffer p ≡ ok p')
      × ((a : ℕ) → p'.bytes a ≡ overwritten p.bytes p.pos buffer a)
unfolding write_sectors
write_sectors-overwritten zero [] p size = (p, refl, λ a. sym (overwritten-nothing p.bytes p.pos a))
write_sectors-overwritten zero (x ∷ xs) p size = absurd (omega (arith, size))
write_sectors-overwritten (suc count) buffer p size =
    let sector : List ℕ = take 512 buffer in
    let whole : length sector ≡ 512 = length-take 512 buffer (omega (arith, size)) in
    let p1 : Ram = record p {
      bytes = overwritten p.bytes p.pos sector;
      pos = p.pos + length sector;
    } in
    let (p', run, made) =
      write_sectors-overwritten count (drop 512 buffer) p1
        (length-drop 512 buffer ∙ omega (arith, size)) in
    (
      p',
      write_one count buffer p (omega (arith, size)) ∙ run,
      λ a.
          made a
          ∙ overwritten-append p.bytes p.pos a sector (drop 512 buffer)
          ∙ ap (λ l. overwritten p.bytes p.pos l a) (take-append-drop 512 buffer),
    )

not_busy : (p : Ram) → wait_status ram_ports stat_busy 0 norm_wait_time p ≡ ok (9999, p)
unfolding wait_status wait_loop
not_busy p = refl

-- The driver over this drive obeys the laws, on all the sectors that it can address.
read-law :
    (sector count : ℕ) (buffer : List ℕ) (p : Ram)
    → 0 < count
    → count ≤ 256
    → sector < 2 ^ 28
    → length buffer ≡ 512 * count
    → (p' : Ram) × (hd_handle_request ram_ports geometry
          (cmd_of bio_read sector count)
          buffer
          lba_disks
          p
        ≡ ok (slice p.bytes (512 * sector) (512 * count), p'))
      × ((a : ℕ) → p'.bytes a ≡ p.bytes a)
unfolding hd_handle_request hd_rdwt out_all registers
read-law sector count buffer p some few inside size =
    let p1 : Ram = commanded cmd_read count sector p in
    let command = command-run cmd_read count sector p inside some few in
    let place : p1.pos ≡ 512 * sector = command-pos cmd_read count sector p inside in
    let same : p1.bytes ≡ p.bytes = command-bytes cmd_read count sector p in
    let run = read_sectors-slice count buffer p1 size in
    let value : slice p1.bytes p1.pos (512 * count) ≡ slice p.bytes (512 * sector) (512 * count) =
      ap (λ k. slice p1.bytes k (512 * count)) place in
    (
      record p1 { pos = p1.pos + 512 * count },
      ground (arith, some, few, inside, not_busy p, command, run, value),
      λ a. ap (λ f. f a) same,
    )

write-law :
    (sector count : ℕ) (buffer : List ℕ) (p : Ram)
    → 0 < count
    → count ≤ 256
    → sector < 2 ^ 28
    → length buffer ≡ 512 * count
    → (p' : Ram) × (hd_handle_request ram_ports geometry
          (cmd_of bio_write sector count)
          buffer
          lba_disks
          p
        ≡ ok (buffer, p'))
      × ((a : ℕ) → p'.bytes a ≡ overwritten p.bytes (512 * sector) buffer a)
unfolding hd_handle_request hd_rdwt out_all registers
write-law sector count buffer p some few inside size =
    let p1 : Ram = commanded cmd_write count sector p in
    let command = command-run cmd_write count sector p inside some few in
    let place : p1.pos ≡ 512 * sector = command-pos cmd_write count sector p inside in
    let (p', run, made) = write_sectors-overwritten count buffer p1 size in
    (
      p',
      ground (arith, some, few, inside, not_busy p, command, run),
      λ a. made a ∙ ap (λ k. overwritten p1.bytes k buffer a) place,
    )

abbrev pub ram_drive : Drive Ram
ram_drive = hd_drive ram_ports geometry lba_disks

pub ram_drive-DiskLaws : DiskLaws ram_drive
unfolding hd_drive
ram_drive-DiskLaws = record {
  byte = λ p. p.bytes;
  capacity = 2 ^ 28;
  capacity_bound = omega arith;
  read_lem = λ sector count buffer p some few inside size.
      read-law sector count buffer p some few (omega (arith, some, inside)) size;
  write_lem = λ sector count buffer p some few inside size.
      write-law sector count buffer p some few (omega (arith, some, inside)) size;
}
