-- ===== src/Hd/Commands.antt =====
-- kernel/blk_drv/hd.c: commands to a drive.
use rxd_os.Prelude.{
  ℕ, ◌+◌, ◌*◌, ◌/◌, ◌%◌, ◌^◌, ◌≤◌, ◌<◌, ◌≡◌, ◌≢◌, refl, List, ok, arith, load-ok, length, get_or,
  ◌==◌, if◌then◌else◌, bit_or, bit_and,
}
use rxd_os.Hd.Wait.{status_at, polled, wait_status-FirstReady}
use rxd_os.Blk.{BioCmd}
use rxd_os.Hd.{
  hd_rdwt, hd_handle_request, Address, HdDev, Geometry, Ports, address_of, registers, hd_cmd_out,
  out_all, wait_status, wait_loop, stat_busy,
}
use rxd_os.Hd.Registers.{latch, sector_of, count_of, Fits, lba28_sector, lba48_sector, chs_sector}

-- The disk's way of addressing is one that the driver knows, and the number has room in it.
pub data Addressable (g : Geometry) (n : ℕ) : (addr_mode : ℕ) → Type 0 where
  chs : Fits g n → Addressable g n 0
  lba28 : Addressable g n 1
  lba48 : Addressable g n 2

chs_exists :
    (g : Geometry) (dev cmd n : ℕ) → Fits g n → (a : Address) × (address_of g 0 dev cmd n ≡ ok a)
unfolding address_of
chs_exists g dev cmd n fits = (
  record {
    dev_reg = bit_or (bit_or (dev * 16) 0xa0) (n / g.sect_per_trk % g.head_nr % 16);
    nsect_low = (n % g.sect_per_trk + 1) % 2 ^ 8 + n / g.sect_per_trk / g.head_nr % 2 ^ 16 * 2 ^ 8;
    cmd = cmd;
  },
  ground (arith, fits.sectors, fits.heads),
)

address_of-exists :
    (g : Geometry) (mode dev cmd n count : ℕ)
    → dev < 2
    → n < 2 ^ 28
    → Addressable g n mode
    → (a : Address) × (address_of g mode dev cmd n ≡ ok a)
      × (sector_of g mode (registers mode count 0 a) ≡ n)
unfolding address_of
address_of-exists g mode dev cmd n count hd hn (chs fits) =
    let (a, run) = chs_exists g dev cmd n fits in
    (a, run, chs_sector g dev cmd count n a hd fits run)
address_of-exists g mode dev cmd n count hd hn lba28 =
    (_, refl, lba28_sector g dev cmd count n _ hd hn refl)
address_of-exists g mode dev cmd n count hd hn lba48 =
    (_, refl, lba48_sector g dev cmd count n _ (omega (arith, hn)) refl)

count-registers :
    (mode count : ℕ) (a : Address)
    → 0 < count
    → count ≤ (if mode == 2 then 65536 else 256)
    → count_of mode (registers mode count 0 a) ≡ count
unfolding count_of registers latch
count-registers mode count a some most = ground arith

module _ {P : Type 0} (ports : Ports P) (g : Geometry) where
  -- If the drive leaves the busy state in the time that hd_cmd_out gives it, the two drives of the table
  -- are addressed in one of the three ways, the sector number is below 2 ^ 28 (and its cylinder, head and
  -- sector fit their registers, where these are used), and the number of sectors is one that the way of
  -- addressing allows, then hd_cmd_out returns, and a drive that reads its registers finds there that
  -- sector and that number of sectors.
  pub hd_cmd_out-sector_of :
      (dev cmd count n : ℕ) (hd : List HdDev) (unset : HdDev) (p : P)
      → dev < 2
      → length hd ≡ 2
      → n < 2 ^ 28
      → Addressable g n (get_or hd dev unset).addr_mode
      → 0 < count
      → count ≤ (if (get_or hd dev unset).addr_mode == 2 then 65536 else 256)
      → 0 < (wait_loop ports 9999 stat_busy 0 p).0
      → (regs : List (ℕ × ℕ)) × (hd_cmd_out ports g dev cmd count n 0 hd p
          ≡ ok (out_all ports regs (wait_loop ports 9999 stat_busy 0 p).1))
        × (sector_of g (get_or hd dev unset).addr_mode regs ≡ n)
        × (count_of (get_or hd dev unset).addr_mode regs ≡ count)
  unfolding hd_cmd_out wait_status
  hd_cmd_out-sector_of dev cmd count n hd unset p h size hn way some most ready =
      let mode : ℕ = (get_or hd dev unset).addr_mode in
      let (a, run, sector) = address_of-exists g mode dev cmd n count h hn way in
      (
        registers mode count 0 a,
        ground (arith, load-ok hd dev unset (omega (arith, h, size)), some, most, hn, ready, run),
        sector,
        count-registers mode count a some most,
      )

  -- If the drive stays busy for the time that hd_rdwt gives it, hd_handle_request of a sector below
  -- 2 ^ 31 and a positive count below 2 ^ 31 returns, whatever the command, with the buffer as it was and
  -- no register written.
  pub hd_handle_request-busy :
      (cmd : BioCmd) (buffer : List ℕ) (hd : List HdDev) (p : P)
      → cmd.sector < 2 ^ 31
      → 0 < cmd.count
      → cmd.count < 2 ^ 31
      → ((j : ℕ) → j + 1 < 10000 → bit_and (status_at ports j p) 0x80 ≢ 0)
      → hd_handle_request ports g cmd buffer hd p ≡ ok (buffer, polled ports 9999 p)
  unfolding hd_handle_request hd_rdwt
  hd_handle_request-busy cmd buffer hd p inside some few busy =
      let (_, out) = wait_status-FirstReady ports stat_busy 0 10000 p (omega arith) in
      ground (arith, out busy, inside, some, few)
