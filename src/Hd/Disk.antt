-- ===== src/Hd/Disk.antt =====
-- kernel/blk_drv/hd.c behind kernel/blk_drv/ll_rw_blk.c: the driver as the handler that the table of block
-- devices names for the disk.
use rxd_os.Prelude.{ℕ, suc, ◌+◌, ◌<◌, ◌^◌, ◌≡◌, ◌≢◌, ◌⊎◌, List, ok, bit_and}
use rxd_os.Blk.{Drive, Blk, bio_read, bio_write, blk_dev_hd, ll_rw_block}
use rxd_os.Blk.Slots.{Ready}
use rxd_os.Blk.Transfer.{cmd_of, ll_rw_block-Ready}
use rxd_os.Hd.{Ports, HdDev, Geometry, hd_handle_request}
use rxd_os.Hd.Wait.{status_at, polled}
use rxd_os.Hd.Commands.{hd_handle_request-busy}

-- The entry of `blk_dev` for the disk.
unfoldable pub hd_drive : {P : Type 0} → Ports P → Geometry → List HdDev → Drive P
hd_drive ports g hd = record { handle = λ cmd buffer p. hd_handle_request ports g cmd buffer hd p }

module _ {P : Type 0} (ports : Ports P) (g : Geometry) (hd : List HdDev) where
  -- If the request table has a slot for a write, no request of the disk is being handled, and the drive
  -- stays busy for the time that hd_rdwt gives it, then ll_rw_block of a read or a write of a sector and a
  -- positive count below 2 ^ 31 returns all the same, with the bytes as they were and no register written.
  pub ll_rw_block-busy :
      (n rw sector count : ℕ) (buffer : List ℕ) (s : Blk P)
      → Ready (suc n) s
      → rw ≡ bio_read ⊎ rw ≡ bio_write
      → sector < 2 ^ 31
      → 0 < count
      → count < 2 ^ 31
      → ((j : ℕ) → j + 1 < 10000 → bit_and (status_at ports j s.disk) 0x80 ≢ 0)
      → (s' : Blk P) × (ll_rw_block (hd_drive ports g hd) blk_dev_hd rw sector count buffer s
          ≡ ok (buffer, s'))
        × (s'.disk ≡ polled ports 9999 s.disk)
        × Ready n s'
  unfolding hd_drive
  ll_rw_block-busy n rw sector count buffer s ready valid inside some few busy =
      ll_rw_block-Ready (hd_drive ports g hd) n rw sector count buffer buffer
        (polled ports 9999 s.disk) s ready valid
        (hd_handle_request-busy ports g (cmd_of rw sector count) buffer hd s.disk inside some few
          busy)
