-- ===== src/Zone/Tests.antt =====
-- fs/fs.c: the theorem on new blocks at a small disk.
use rxd_os.Prelude.{ℕ, ◌≡◌, ◌⊎◌, ok, panic, arith}
use rxd_os.Buffer.{Cache}
use rxd_os.Buffer.Sample.{ram, ram_laws, cache_of-Idle}
use rxd_os.Blockmap.Next.{IsFull}
use rxd_os.Super.{made_super}
use rxd_os.Zone.{get_blk}
use rxd_os.Zone.Fresh.{Got, get_blk-Got}
use rxd_os.Content.Sample.{formatted, formatted_byte, made_super-Layout, formatted-HasZmap}

get_blk-Got_example :
    ((t : ℕ) × (s' : Cache (ℕ → ℕ)) × (get_blk ram made_super formatted ≡ ok (t, s'))
      × Got ram_laws 0 made_super formatted t s')
    ⊎ ((get_blk ram made_super formatted ≡ panic) × IsFull ram_laws formatted 3 1)
get_blk-Got_example =
    get_blk-Got ram_laws 0 made_super formatted made_super-Layout formatted-HasZmap
      (cache_of-Idle formatted_byte 4 (omega arith))
