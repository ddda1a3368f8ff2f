-- ===== src/Blk.antt =====
-- kernel/blk_drv/ll_rw_blk.c and blk.h: the table of block requests. The function that handles a
-- request, `bd_req_handle` of the disk, is a parameter: an operation on a drive `D`.
pub mod Slots
pub mod Transfer
pub mod Budget
mod Tests
use rxd_os.Prelude.{
  ℕ, zero, suc, ◌+◌, ◌*◌, ◌<◌, ◌≤◌, ◌≡◌, Bool, true, false, not, ◌&&◌, ◌||◌, List, Outcome, ok,
  panic, fault, ◌>>=◌, ◌>>◌, assert, load, store, ltb, ◌==◌, if◌then◌else◌, length, get_or,
  replicate,
}

abbrev pub nr_request : ℕ
nr_request = 32

abbrev pub nr_blk_dev : ℕ
nr_blk_dev = 4

abbrev pub bio_read : ℕ
bio_read = 0

abbrev pub bio_write : ℕ
bio_write = 1

abbrev pub blk_dev_hd : ℕ
blk_dev_hd = 3

-- -1 as the bit pattern of an int: the request is not in use.
abbrev pub no_dev : ℕ
no_dev = 0xffffffff

-- `struct bio_cmd` without its buffer, whose bytes go beside it.
pub record BioCmd : Type 0 where
  pub rw : ℕ
  pub sector : ℕ
  pub count : ℕ

-- `struct bio_request`; `next` and `waiting` are always NULL.
pub record BioRequest : Type 0 where
  pub cmd : BioCmd
  pub dev : ℕ

-- `handle` is `bd_req_handle` of the disk on one request: it takes the bytes of the buffer and returns
-- them as it leaves them.
pub record Drive (D : Type 0) : Type 0 where
  pub handle : BioCmd → List ℕ → D → Outcome (List ℕ × D)

-- The request table, and which entries of `blk_dev` have a request that is being handled.
pub record Blk (D : Type 0) : Type 0 where
  pub request : List BioRequest
  pub busy : List Bool
  pub disk : D

-- The search for a slot: the index at which it ends.
pub find_slot : (rounds i : ℕ) → List BioRequest → Outcome ℕ
find_slot zero i request = ok i
find_slot (suc rounds) i request = do
  r ← load request i
  if r.dev == no_dev then ok i else find_slot rounds (i + 1) request

pub clear_requests : (rounds i : ℕ) → List BioRequest → Outcome (List BioRequest)
clear_requests zero i request = ok request
clear_requests (suc rounds) i request = do
  r ← load request i
  request ← store request i (record r { dev = no_dev })
  clear_requests rounds (i + 1) request

module _ {D : Type 0} (drive : Drive D) where
  -- Only the disk has a handler; the pointer of the other devices is NULL.
  pub req_handle : BioRequest → List ℕ → D → Outcome (List ℕ × D)
  req_handle r buffer d = if r.dev == blk_dev_hd then drive.handle r.cmd buffer d else fault

  -- The search begins at `NR_REQUEST / 3` for a write.
  pub add_request : BioRequest → List ℕ → Blk D → Outcome (List ℕ × Blk D)
  unfolding req_handle
  add_request req buffer s = do
    let begin = (if req.cmd.rw == bio_read then 0 else 10)
    let rounds = (if req.cmd.rw == bio_read then 32 else 22)
    i ← find_slot rounds begin s.request
    if i == nr_request then panic else (do
      request ← store s.request i req
      b ← load s.busy req.dev
      if b then panic else (do
        busy ← store s.busy req.dev true
        (buffer, d) ← req_handle req buffer s.disk
        busy ← store busy req.dev false
        ok (buffer, record { request = request; busy = busy; disk = d })))

  pub ll_rw_block : (dev rw sector count : ℕ) → List ℕ → Blk D → Outcome (List ℕ × Blk D)
  ll_rw_block dev rw sector count buffer s = do
    assert (ltb 0 dev && ltb dev nr_blk_dev)
    assert (rw == bio_read || rw == bio_write)
    if dev == blk_dev_hd
        then add_request
            (record { cmd = record { rw = rw; sector = sector; count = count }; dev = dev }) buffer
            s
        else panic

-- The table of `blk_dev_init`; the device's own initialisation is not part of it.
pub blk_dev_init : {D : Type 0} → Blk D → Outcome (Blk D)
blk_dev_init s = do
  request ← clear_requests nr_request 0 s.request
  ok (record s { request = request })
