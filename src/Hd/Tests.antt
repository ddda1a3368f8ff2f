-- ===== src/Hd/Tests.antt =====
-- kernel/blk_drv/hd.c: the theorems at hardware that logs what is written and has a fixed status.
use rxd_os.Prelude.{ℕ, suc, ◌+◌, ◌-◌, ◌<◌, ◌≡◌, ◌≢◌, refl, List, [], ◌∷◌, ok, arith, bit_and}
use rxd_os.Blk.Transfer.{cmd_of}
use rxd_os.Hd.{Ports, HdDev, Geometry, wait_loop, wait_status, hd_cmd_out, out_all}
use rxd_os.Blk.{Blk, no_dev, ll_rw_block}
use rxd_os.Blk.Slots.{spare, Ready}
use rxd_os.Hd.Disk.{hd_drive, ll_rw_block-busy}
use rxd_os.Prelude.{replicate, false, inl}
use rxd_os.Hd.Wait.{FirstReady, status_at, polled, wait_status-FirstReady}
use rxd_os.Hd.Registers.{sector_of, count_of}
use rxd_os.Hd.Commands.{lba28, hd_cmd_out-sector_of}

abbrev Log : Type 0
Log = List (ℕ × ℕ)

abbrev hardware : (status : ℕ) → Ports Log
hardware status = record {
  inb = λ port p. (status, p);
  outb = λ port value p. (port, value) ∷ p;
  port_read = λ port nr p. ([], p);
  port_write = λ port bytes p. p;
}

abbrev geometry : Geometry
geometry = record { sect_per_trk = 63; head_nr = 16 }

abbrev disk : HdDev
disk = record { addr_mode = 1; sect_cnt = 0x200000; sect_cnt_ex = 0 }

hardware-ready : 0 < (wait_loop (hardware 0x50) 9999 0x80 0 []).0
unfolding wait_loop
hardware-ready = omega arith

hd_cmd_out-sector_of_example :
    (regs : Log) × (hd_cmd_out (hardware 0x50) geometry 0 0x20 2 1234567 0 (disk ∷ disk ∷ []) []
      ≡ ok (out_all (hardware 0x50) regs (wait_loop (hardware 0x50) 9999 0x80 0 []).1))
    × (sector_of geometry 1 regs ≡ 1234567)
    × (count_of 1 regs ≡ 2)
hd_cmd_out-sector_of_example =
    hd_cmd_out-sector_of (hardware 0x50) geometry 0 0x20 2 1234567 (disk ∷ disk ∷ []) disk []
      (omega arith) refl (omega arith) lba28 (omega arith) (omega arith) hardware-ready

wait_status-FirstReady_example :
    ((k : ℕ)
      → k + 1 < 10
      → FirstReady (hardware 0x50) 0x80 0 [] k
      → wait_status (hardware 0x50) 0x80 0 10 []
        ≡ ok (10 - 1 - k, polled (hardware 0x50) (suc k) []))
    × (((j : ℕ) → j + 1 < 10 → bit_and (status_at (hardware 0x50) j []) 0x80 ≢ 0)
        → wait_status (hardware 0x50) 0x80 0 10 [] ≡ ok (0, polled (hardware 0x50) (10 - 1) []))
wait_status-FirstReady_example = wait_status-FirstReady (hardware 0x50) 0x80 0 10 [] (omega arith)

always_busy : bit_and 0xd0 0x80 ≢ 0
always_busy e = omega (arith, e)

abbrev table : Blk Log
table = record {
  request = replicate 32 (record { cmd = cmd_of 0 0 0; dev = no_dev });
  busy = replicate 4 false;
  disk = [];
}

table-spare : spare 22 10 table.request ≡ 22
unfolding spare
table-spare = refl

table-Ready : Ready 1 table
table-Ready = record { size = refl; devices = refl; idle = refl; room = omega (arith, table-spare) }

ll_rw_block-busy_example :
    (s' : Blk Log) × (ll_rw_block
        (hd_drive (hardware 0xd0) geometry (disk ∷ disk ∷ []))
        3
        0
        8
        2
        (1 ∷ 2 ∷ [])
        table
      ≡ ok (1 ∷ 2 ∷ [], s'))
    × (s'.disk ≡ polled (hardware 0xd0) 9999 table.disk)
    × Ready 0 s'
ll_rw_block-busy_example =
    ll_rw_block-busy (hardware 0xd0) geometry (disk ∷ disk ∷ []) 0 0 8 2 (1 ∷ 2 ∷ []) table
      table-Ready (inl refl) (omega arith) (omega arith) (omega arith) (λ j h. always_busy)
