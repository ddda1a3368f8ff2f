-- ===== src/Hd.antt =====
-- kernel/blk_drv/hd.c: the driver of the disks of the primary channel. The instructions of
-- include/asm.h that reach the ports are a parameter: operations on a state `P` of the hardware. Where
-- C masks low bits or joins bits that do not overlap, a remainder or a sum stands here.
pub mod Registers
pub mod Commands
pub mod Disk
pub mod Ram
pub mod Wait
mod Tests
use rxd_os.Prelude.{
  ℕ, zero, suc, ◌+◌, ◌-◌, ◌*◌, ◌/◌, ◌%◌, ◌^◌, Bool, true, false, not, ◌&&◌, ◌||◌, List, [], ◌∷◌,
  ◌++◌, Outcome, ok, panic, fault, ◌>>=◌, ◌>>◌, assert, load, store, ltb, leb, ◌==◌, if◌then◌else◌,
  length, take, drop, bit_and, bit_or,
}
use rxd_os.Blk.{BioCmd, BioRequest, bio_read, bio_write}

abbrev pub data_reg : ℕ
data_reg = 0x1f0

abbrev pub features_reg : ℕ
features_reg = 0x1f1

abbrev pub sect_cnt_reg : ℕ
sect_cnt_reg = 0x1f2

abbrev pub addr_0_reg : ℕ
addr_0_reg = 0x1f3

abbrev pub addr_1_reg : ℕ
addr_1_reg = 0x1f4

abbrev pub addr_2_reg : ℕ
addr_2_reg = 0x1f5

abbrev pub device_reg : ℕ
device_reg = 0x1f6

abbrev pub command_reg : ℕ
command_reg = 0x1f7

abbrev pub dev_ctrl_reg : ℕ
dev_ctrl_reg = 0x3f6

abbrev pub stat_drq : ℕ
stat_drq = 0x08

abbrev pub stat_busy : ℕ
stat_busy = 0x80

abbrev pub cmd_read : ℕ
cmd_read = 0x20

abbrev pub cmd_write : ℕ
cmd_write = 0x30

abbrev pub norm_wait_time : ℕ
norm_wait_time = 10000

abbrev pub long_wait_time : ℕ
long_wait_time = 100000

-- What the driver does to the hardware: `port_read` and `port_write` move a number of bytes.
pub record Ports (P : Type 0) : Type 0 where
  pub inb : (port : ℕ) → P → ℕ × P
  pub outb : (port value : ℕ) → P → P
  pub port_read : (port nr : ℕ) → P → List ℕ × P
  pub port_write : (port : ℕ) → List ℕ → P → P

-- `struct hd_dev`
pub record HdDev : Type 0 where
  pub addr_mode : ℕ
  pub sect_cnt : ℕ
  pub sect_cnt_ex : ℕ

-- The geometry that the boot loader left at 0x90006.
pub record Geometry : Type 0 where
  pub sect_per_trk : ℕ
  pub head_nr : ℕ

-- What `hd_cmd_out` makes of the address: the device register, the number to put into the address
-- registers, and the command.
pub record Address : Type 0 where
  pub dev_reg : ℕ
  pub nsect_low : ℕ
  pub cmd : ℕ

-- The `switch` of `hd_cmd_out`.
pub address_of : Geometry → (addr_mode dev_nr cmd nsect_low : ℕ) → Outcome Address
address_of g addr_mode dev_nr cmd nsect_low =
    let dev_reg = dev_nr * 16 in
    if addr_mode == 0
    then (if g.sect_per_trk == 0 || g.head_nr == 0
        then fault
        else (let a0 = (nsect_low % g.sect_per_trk + 1) % 2 ^ 8 in
            let a1 = nsect_low / g.sect_per_trk in
            let dev_reg = bit_or (bit_or dev_reg 0xa0) (a1 % g.head_nr % 16) in
            let a1 = a1 / g.head_nr % 2 ^ 16 in
            ok (record { dev_reg = dev_reg; nsect_low = a0 + a1 * 2 ^ 8; cmd = cmd })))
    else if addr_mode == 1
    then ok (record {
      dev_reg = bit_or (bit_or dev_reg 0xe0) (nsect_low / 2 ^ 24 % 16);
      nsect_low = nsect_low;
      cmd = cmd;
    })
    else if addr_mode == 2
    then ok (record { dev_reg = bit_or dev_reg 0x40; nsect_low = nsect_low; cmd = bit_or cmd 0x04 })
    else panic

-- The registers that `hd_cmd_out` writes, in order.
pub registers : (addr_mode sect_cnt nsect_high : ℕ) → Address → List (ℕ × ℕ)
registers addr_mode sect_cnt nsect_high a =
    (dev_ctrl_reg, 0)
      ∷ (features_reg, 0)
      ∷ (if addr_mode == 2
          then (sect_cnt_reg, sect_cnt / 2 ^ 8 % 2 ^ 8)
            ∷ (addr_0_reg, a.nsect_low / 2 ^ 24)
            ∷ (addr_1_reg, nsect_high % 2 ^ 8)
            ∷ (addr_2_reg, nsect_high / 2 ^ 8 % 2 ^ 8)
            ∷ []
          else [])
    ++ (sect_cnt_reg, sect_cnt % 2 ^ 8)
      ∷ (addr_0_reg, a.nsect_low % 2 ^ 8)
      ∷ (addr_1_reg, a.nsect_low / 2 ^ 8 % 2 ^ 8)
      ∷ (addr_2_reg, a.nsect_low / 2 ^ 16 % 2 ^ 8)
      ∷ (device_reg, a.dev_reg)
      ∷ (command_reg, a.cmd)
      ∷ []

-- The two bytes of a word that `port_read` has put into memory.
pub word : List ℕ → ℕ → Outcome ℕ
word buf i = do low ← load buf (2 * i); high ← load buf (2 * i + 1); ok (low + high * 2 ^ 8)

-- What `hd_identity` reads from the 256 words of a disk's answer.
pub hd_info : List ℕ → HdDev → Outcome HdDev
unfolding word
hd_info buf hd = do
  w49 ← word buf 49
  w83 ← word buf 83
  w60 ← word buf 60
  w61 ← word buf 61
  w100 ← word buf 100
  w101 ← word buf 101
  w102 ← word buf 102
  w103 ← word buf 103
  let mode = (if bit_and w49 0x200 == 0 then 0 else if bit_and w83 0x400 == 0 then 1 else 2)
  ok (
      if mode == 1
      then record hd { addr_mode = mode; sect_cnt = w61 * 2 ^ 16 + w60 }
      else if mode == 2
      then record {
        addr_mode = mode;
        sect_cnt = w101 * 2 ^ 16 + w100;
        sect_cnt_ex = w103 * 2 ^ 16 + w102;
      }
      else record hd { addr_mode = mode })

module _ {P : Type 0} (ports : Ports P) where
  -- The loop of `wait_status` behind its first `--time_out`.
  pub wait_loop : (time_out stat value : ℕ) → P → ℕ × P
  wait_loop zero stat value p = (0, p)
  wait_loop (suc time_out) stat value p =
      let (v, p) = ports.inb command_reg p in
      elim (bit_and v stat == value) [
        | true ↦ (suc time_out, p)
        | false ↦ wait_loop time_out stat value p
      ]

  pub wait_status : (stat value time_out : ℕ) → P → Outcome (ℕ × P)
  wait_status stat value time_out p = do
    assert (ltb 0 time_out)
    ok (wait_loop (time_out - 1) stat value p)

  pub out_all : List (ℕ × ℕ) → P → P
  out_all [] p = p
  out_all ((port, value) ∷ rest) p = out_all rest (ports.outb port value p)

  pub hd_identity : (dev_nr : ℕ) → List HdDev → P → Outcome (List HdDev × P)
  hd_identity dev_nr hd p = do
    assert (leb dev_nr 1)
    let p = ports.outb dev_ctrl_reg 0x02 p
    let p = ports.outb sect_cnt_reg 0 p
    let p = ports.outb addr_0_reg 0 p
    let p = ports.outb addr_1_reg 0 p
    let p = ports.outb addr_2_reg 0 p
    let p = ports.outb device_reg (bit_or (dev_nr * 16) 0xa0) p
    let p = ports.outb command_reg 0xec p
    let (status, p) = ports.inb command_reg p
    if status == 0 then ok (hd, p) else (do
      (left, p) ← wait_status 0x88 stat_drq long_wait_time p
      if left == 0 then panic else (do
        let (buf, p) = ports.port_read data_reg 512 p
        old ← load hd dev_nr
        new ← hd_info buf old
        hd ← store hd dev_nr new
        ok (hd, p)))

  -- `while (sect_cnt--) port_read`: the bytes from `p` on are those that come in.
  pub read_sectors : (sect_cnt : ℕ) → (buffer : List ℕ) → P → Outcome (List ℕ × P)
  read_sectors zero buffer p = ok (buffer, p)
  read_sectors (suc sect_cnt) buffer p = do
    let (bytes, p) = ports.port_read data_reg 512 p
    (rest, p) ← read_sectors sect_cnt (drop 512 buffer) p
    if ltb (length buffer) 512 then fault else ok (bytes ++ rest, p)

  pub write_sectors : (sect_cnt : ℕ) → (buffer : List ℕ) → P → Outcome P
  write_sectors zero buffer p = ok p
  write_sectors (suc sect_cnt) buffer p = do
    (left, p) ← wait_status stat_drq stat_drq norm_wait_time p
    elim (left == 0 || ltb (length buffer) 512) [
      | true ↦ if left == 0 then panic else fault
      | false ↦
          write_sectors sect_cnt (drop 512 buffer) (ports.port_write data_reg (take 512 buffer) p)
    ]

module _ {P : Type 0} (ports : Ports P) (g : Geometry) where
  pub hd_cmd_out : (dev_nr cmd sect_cnt nsect_low nsect_high : ℕ) → List HdDev → P → Outcome P
  hd_cmd_out dev_nr cmd sect_cnt nsect_low nsect_high hd p = do
    assert (leb dev_nr 1)
    dev ← load hd dev_nr
    let most = (if dev.addr_mode == 2 then 65536 else 256)
    if sect_cnt == 0 || ltb most sect_cnt
        then panic
        else if not (nsect_high == 0) || leb 0x10000000 nsect_low
        then panic
        else (do
          (left, p) ← wait_status ports stat_busy 0 norm_wait_time p
          if left == 0 then panic else (do
            a ← address_of g dev.addr_mode dev_nr cmd nsect_low
            ok (out_all ports (registers dev.addr_mode sect_cnt nsect_high a) p)))

  -- `hd_rdwt` for a start and a count that are ints. The result is true for 0, and false for the -1 of a
  -- drive that stays busy.
  pub hd_rdwt :
      (rw start_sect sect_cnt : ℕ)
      → (buffer : List ℕ) → List HdDev
      → P
      → Outcome (Bool × List ℕ × P)
  hd_rdwt rw start_sect sect_cnt buffer hd p = do
    assert (ltb start_sect (2 ^ 31) && (ltb 0 sect_cnt && ltb sect_cnt (2 ^ 31)))
    (left, p) ← wait_status ports stat_busy 0 norm_wait_time p
    if left == 0
        then ok (false, buffer, p)
        else if rw == bio_read
        then (do
          p ← hd_cmd_out 0 cmd_read sect_cnt start_sect 0 hd p
          (buffer, p) ← read_sectors ports sect_cnt buffer p
          ok (true, buffer, p))
        else if rw == bio_write
        then (do
          p ← hd_cmd_out 0 cmd_write sect_cnt start_sect 0 hd p
          p ← write_sectors ports sect_cnt buffer p
          ok (true, buffer, p))
        else panic

  -- `hd_handle_request` of one request, as its `next` is NULL. It does not look at the result.
  pub hd_handle_request : BioCmd → (buffer : List ℕ) → List HdDev → P → Outcome (List ℕ × P)
  hd_handle_request cmd buffer hd p = do
    (_, buffer, p) ← hd_rdwt cmd.rw cmd.sector cmd.count buffer hd p
    ok (buffer, p)
