-- ===== src/Hd/Registers.antt =====
-- kernel/blk_drv/hd.c: the registers of a command, read back the way a drive reads them.
use native.Mathlib.Nat.{div-add-mod', mod-lt}
use rxd_os.Prelude.{
  ℕ, ◌+◌, ◌-◌, ◌*◌, ◌/◌, ◌%◌, ◌^◌, ◌≤◌, ◌<◌, ◌≡◌, refl, ◌∙◌, ap, true, ◌&&◌, List, [], ◌∷◌, ok,
  arith, ◌==◌, ==→eq, if◌then◌else◌, bit_or, every_below, every_below-at, and-eq-true,
}
use rxd_os.Hd.{
  Address, Geometry, address_of, registers, sect_cnt_reg, addr_0_reg, addr_1_reg, addr_2_reg,
  device_reg,
}

-- A drive keeps, for each register, the byte that was written last and the one before it.
pub record Latch : Type 0 where
  pub now : ℕ
  pub before : ℕ

-- What the register `port` holds after the writes, when it held `l`.
unfoldable pub latch : (port : ℕ) → List (ℕ × ℕ) → Latch → Latch
latch port [] l = l
latch port ((p, v) ∷ rest) l =
    latch port rest (if p == port then record { now = v; before = l.now } else l)

abbrev nothing : Latch
nothing = record { now = 0; before = 0 }

abbrev held : List (ℕ × ℕ) → ℕ → ℕ
held regs port = (latch port regs nothing).now

abbrev held_before : List (ℕ × ℕ) → ℕ → ℕ
held_before regs port = (latch port regs nothing).before

-- The sector that the registers name, in each of the three ways of addressing. In the first the address
-- is a cylinder, a head and a sector that counts from 1; in the third a register gives two bytes.
unfoldable pub sector_of : Geometry → (addr_mode : ℕ) → List (ℕ × ℕ) → ℕ
sector_of g addr_mode regs =
    if addr_mode == 0
    then ((held regs addr_1_reg + 256 * held regs addr_2_reg) * g.head_nr
          + held regs device_reg % 16)
        * g.sect_per_trk
      + held regs addr_0_reg
      - 1
    else if addr_mode == 1
    then held regs addr_0_reg
      + 2 ^ 8 * held regs addr_1_reg
      + 2 ^ 16 * held regs addr_2_reg
      + 2 ^ 24 * (held regs device_reg % 16)
    else held regs addr_0_reg
      + 2 ^ 8 * held regs addr_1_reg
      + 2 ^ 16 * held regs addr_2_reg
      + 2 ^ 24 * held_before regs addr_0_reg
      + 2 ^ 32 * held_before regs addr_1_reg
      + 2 ^ 40 * held_before regs addr_2_reg

-- The number of sectors, where 0 stands for the largest count.
unfoldable pub count_of : (addr_mode : ℕ) → List (ℕ × ℕ) → ℕ
count_of addr_mode regs =
    if addr_mode == 2
    then (let n = held regs sect_cnt_reg + 256 * held_before regs sect_cnt_reg in
        if n == 0 then 65536 else n)
    else (let n = held regs sect_cnt_reg in if n == 0 then 256 else n)

-- The bits of the device register: the low ones are part of the address, bit 4 is the drive.
device_table :
    every_below 2 (λ d. every_below 16 (λ x.
      (bit_or (bit_or (d * 16) 0xe0) x == 0xe0 + d * 16 + x)
      && (bit_or (bit_or (d * 16) 0xa0) x == 0xa0 + d * 16 + x)))
    ≡ true
unfolding every_below
device_table = refl

device-bits :
    (d x : ℕ)
    → d < 2
    → x < 16
    → (bit_or (bit_or (d * 16) 0xe0) x ≡ 0xe0 + d * 16 + x)
      × (bit_or (bit_or (d * 16) 0xa0) x ≡ 0xa0 + d * 16 + x)
device-bits d x hd hx =
    let both = every_below-at 16 _ x (every_below-at 2 _ d device_table hd) hx in
    let (a, b) =
      and-eq-true (bit_or (bit_or (d * 16) 0xe0) x == 0xe0 + d * 16 + x)
        (bit_or (bit_or (d * 16) 0xa0) x == 0xa0 + d * 16 + x) both in
    (==→eq a, ==→eq b)

pub lba28_sector :
    (g : Geometry) (dev cmd count n : ℕ) (a : Address)
    → dev < 2
    → n < 2 ^ 28
    → address_of g 1 dev cmd n ≡ ok a
    → sector_of g 1 (registers 1 count 0 a) ≡ n
unfolding address_of sector_of registers latch
lba28_sector g dev cmd count n a hd hn e = ground (arith, e, device-bits dev (n / 2 ^ 24 % 16) hd)

pub lba48_sector :
    (g : Geometry) (dev cmd count n : ℕ) (a : Address)
    → n < 2 ^ 32
    → address_of g 2 dev cmd n ≡ ok a
    → sector_of g 2 (registers 2 count 0 a) ≡ n
unfolding address_of sector_of registers latch
lba48_sector g dev cmd count n a hn e = ground (arith, e)

-- A cylinder, a head and a sector that fit their registers.
pub record Fits (g : Geometry) (n : ℕ) : Type 0 where
  pub sectors : 0 < g.sect_per_trk
  pub sectors_bound : g.sect_per_trk < 256
  pub heads : 0 < g.head_nr
  pub heads_bound : g.head_nr ≤ 16
  pub cylinders : n / g.sect_per_trk / g.head_nr < 2 ^ 16

chs_sum :
    (g : Geometry) (n : ℕ)
    → (n / g.sect_per_trk / g.head_nr * g.head_nr + n / g.sect_per_trk % g.head_nr) * g.sect_per_trk
        + n % g.sect_per_trk
      ≡ n
chs_sum g n =
    ap (λ q. q * g.sect_per_trk + n % g.sect_per_trk) (div-add-mod' (n / g.sect_per_trk) g.head_nr)
    ∙ div-add-mod' n g.sect_per_trk

chs_address :
    (g : Geometry) (dev cmd n : ℕ) (a : Address)
    → Fits g n
    → address_of g 0 dev cmd n ≡ ok a
    → (a.nsect_low ≡ n % g.sect_per_trk + 1 + n / g.sect_per_trk / g.head_nr * 2 ^ 8)
      × (a.dev_reg ≡ bit_or (bit_or (dev * 16) 0xa0) (n / g.sect_per_trk % g.head_nr))
unfolding address_of
chs_address g dev cmd n a fits e =
    let small : n % g.sect_per_trk < g.sect_per_trk = mod-lt n fits.sectors in
    let head : n / g.sect_per_trk % g.head_nr < g.head_nr =
      mod-lt (n / g.sect_per_trk) fits.heads in
    let same_sector : (n % g.sect_per_trk + 1) % 2 ^ 8 ≡ n % g.sect_per_trk + 1 =
      omega (arith, small, fits.sectors_bound) in
    let same_head : n / g.sect_per_trk % g.head_nr % 16 ≡ n / g.sect_per_trk % g.head_nr =
      omega (arith, head, fits.heads_bound) in
    let same_cylinder : n / g.sect_per_trk / g.head_nr % 2 ^ 16 ≡ n / g.sect_per_trk / g.head_nr =
      omega (arith, fits.cylinders) in
    (
      ground (arith, e, same_sector, same_cylinder, fits.sectors, fits.heads),
      ground (arith, e, same_head, fits.sectors, fits.heads),
    )

chs_registers :
    (g : Geometry) (count : ℕ) (a : Address) (sector head cylinder : ℕ)
    → a.nsect_low ≡ sector + 1 + cylinder * 2 ^ 8
    → sector + 1 < 256
    → cylinder < 2 ^ 16
    → a.dev_reg % 16 ≡ head
    → sector_of g 0 (registers 0 count 0 a)
      ≡ (cylinder * g.head_nr + head) * g.sect_per_trk + sector
unfolding sector_of registers latch
chs_registers g count a sector head cylinder low hs hc device =
    let r0 : a.nsect_low % 2 ^ 8 ≡ sector + 1 = omega (arith, low, hs) in
    let r12 : a.nsect_low / 2 ^ 8 % 2 ^ 8 + 256 * (a.nsect_low / 2 ^ 16 % 2 ^ 8) ≡ cylinder =
      omega (arith, low, hs, hc) in
    ground (arith, r0, r12, device)

pub chs_sector :
    (g : Geometry) (dev cmd count n : ℕ) (a : Address)
    → dev < 2
    → Fits g n
    → address_of g 0 dev cmd n ≡ ok a
    → sector_of g 0 (registers 0 count 0 a) ≡ n
chs_sector g dev cmd count n a hd fits e =
    let (low, device) = chs_address g dev cmd n a fits e in
    let small : n % g.sect_per_trk < g.sect_per_trk = mod-lt n fits.sectors in
    let head : n / g.sect_per_trk % g.head_nr < g.head_nr =
      mod-lt (n / g.sect_per_trk) fits.heads in
    let (_, bits) =
      device-bits dev (n / g.sect_per_trk % g.head_nr) hd (omega (arith, head, fits.heads_bound)) in
    chs_registers g count a (n % g.sect_per_trk) (n / g.sect_per_trk % g.head_nr)
      (n / g.sect_per_trk / g.head_nr) low (omega (arith, small, fits.sectors_bound)) fits.cylinders
      (omega (arith, device, bits, head, fits.heads_bound))
    ∙ chs_sum g n
