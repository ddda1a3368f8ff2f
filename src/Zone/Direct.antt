-- ===== src/Zone/Direct.antt =====
-- fs/fs.c: `_set_zone_blk` and `_get_zone_blk` on the direct zones.
use rxd_os.Prelude.{ℕ, ◌≤◌, ◌<◌, ◌≡◌, ok, panic, arith, length, get_or, set, load-ok, store-ok}
use rxd_os.Inode.{Inode}
use rxd_os.Zone.{zones_of, set_zone_blk, get_zone_blk}

pub get_zone_blk-ok :
    (i : Inode) (z : ℕ)
    → length i.i_zone ≡ 9
    → z ≤ zones_of i.i_size
    → z ≤ 6
    → get_zone_blk i z ≡ ok (get_or i.i_zone z 0)
unfolding get_zone_blk
get_zone_blk-ok i z size known direct =
    ground (arith, known, direct, load-ok i.i_zone z 0 (omega (arith, size, direct)))

pub get_zone_blk-panic : (i : Inode) (z : ℕ) → 6 < z → get_zone_blk i z ≡ panic
unfolding get_zone_blk
get_zone_blk-panic i z far = ground (arith, far)

pub get_zone_blk-behind : (i : Inode) (z : ℕ) → zones_of i.i_size < z → get_zone_blk i z ≡ panic
unfolding get_zone_blk
get_zone_blk-behind i z far = ground (arith, far)

pub set_zone_blk-ok :
    (i : Inode) (z blk : ℕ)
    → length i.i_zone ≡ 9
    → z ≤ 6
    → set_zone_blk i z blk ≡ ok (record i { i_zone = set i.i_zone z blk })
unfolding set_zone_blk
set_zone_blk-ok i z blk size direct =
    ground (arith, direct, store-ok i.i_zone z blk (omega (arith, size, direct)))
