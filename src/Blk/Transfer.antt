-- ===== src/Blk/Transfer.antt =====
-- kernel/blk_drv/ll_rw_blk.c: what one transfer does, and how many there can be.
use native.Mathlib.Decide.{ℕ_discrete, dec_lt}
use rxd_os.Prelude.{
  ℕ, suc, ◌<◌, ◌≡◌, ◌⊎◌, inl, refl, ◌∙◌, true, false, List, ok, panic, arith, ◌==◌, if◌then◌else◌,
  length, set, load-ok, store-ok, length-set, get_or-set_self,
}
use rxd_os.Blk.{
  BioCmd, BioRequest, Drive, Blk, nr_request, no_dev, bio_read, bio_write, blk_dev_hd, find_slot,
  add_request, ll_rw_block, req_handle,
}
use rxd_os.Blk.Slots.{
  dev_at, spare, spare-behind, find_slot-free, spare-set_outside, spare-set, Ready,
}

abbrev pub cmd_of : (rw sector count : ℕ) → BioCmd
cmd_of rw sector count = record { rw = rw; sector = sector; count = count }

abbrev pub hd_request : BioCmd → BioRequest
hd_request cmd = record { cmd = cmd; dev = blk_dev_hd }

-- Where the search of a request begins, and how far it goes.
abbrev pub begin_of : ℕ → ℕ
begin_of rw = if rw == bio_read then 0 else 10

abbrev pub rounds_of : ℕ → ℕ
rounds_of rw = if rw == bio_read then 32 else 22

module _ {D : Type 0} (drive : Drive D) where
  -- The state after a transfer that used slot `j`.
  abbrev after : ℕ → BioCmd → D → Blk D → Blk D
  after j cmd d s = record {
    request = set s.request j (hd_request cmd);
    busy = set (set s.busy blk_dev_hd true) blk_dev_hd false;
    disk = d;
  }

  add_request-slot :
      (j : ℕ) (cmd : BioCmd) (buffer buffer' : List ℕ) (d : D) (s : Blk D)
      → find_slot (rounds_of cmd.rw) (begin_of cmd.rw) s.request ≡ ok j
      → j < nr_request
      → Ready 0 s
      → drive.handle cmd buffer s.disk ≡ ok (buffer', d)
      → add_request drive (hd_request cmd) buffer s ≡ ok (buffer', after j cmd d s)
  unfolding add_request req_handle
  add_request-slot j cmd buffer buffer' d s run h ready done = ground (
    arith,
    run,
    store-ok s.request j (hd_request cmd) (omega (arith, ready.size)),
    load-ok s.busy blk_dev_hd true (omega (arith, ready.devices)),
    ready.idle,
    store-ok s.busy blk_dev_hd true (omega (arith, ready.devices)),
    store-ok (set s.busy blk_dev_hd true) blk_dev_hd false
        (omega (arith, ready.devices, length-set s.busy blk_dev_hd true)),
    done,
  )

  pub add_request-full :
      (cmd : BioCmd) (buffer : List ℕ) (s : Blk D)
      → find_slot (rounds_of cmd.rw) (begin_of cmd.rw) s.request ≡ ok nr_request
      → add_request drive (hd_request cmd) buffer s ≡ panic
  unfolding add_request
  add_request-full cmd buffer s run = ground (arith, run)

  ll_rw_block-add_request :
      (rw sector count : ℕ) (buffer : List ℕ) (s : Blk D)
      → rw ≡ bio_read ⊎ rw ≡ bio_write
      → ll_rw_block drive blk_dev_hd rw sector count buffer s
        ≡ add_request drive (hd_request (cmd_of rw sector count)) buffer s
  unfolding ll_rw_block
  ll_rw_block-add_request rw sector count buffer s h = ground (arith, h)

  after-Ready :
      (n j : ℕ) (cmd : BioCmd) (d : D) (s : Blk D)
      → Ready (suc n) s
      → j < nr_request
      → dev_at s.request j ≡ no_dev
      → Ready n (after j cmd d s)
  after-Ready n j cmd d s ready h free = record {
    size = length-set s.request j (hd_request cmd) ∙ ready.size;
    devices =
        length-set (set s.busy blk_dev_hd true) blk_dev_hd false
        ∙ length-set s.busy blk_dev_hd true
        ∙ ready.devices;
    idle =
        get_or-set_self (set s.busy blk_dev_hd true) blk_dev_hd false true
          (omega (arith, ready.devices, length-set s.busy blk_dev_hd true));
    room = elim (dec_lt j 10) [
      | yes front ↦
          omega
            (arith, spare-set_outside j (hd_request cmd) s.request 22 10 (inl front), ready.room)
      | no back ↦ omega (
        arith,
        spare-set j (hd_request cmd) s.request 22 10 (omega (arith, ready.size)) free (omega arith)
            (omega arith) (omega arith),
        ready.room,
      )
    ];
  }

  search-free :
      (rw n : ℕ) (s : Blk D)
      → Ready (suc n) s
      → (j : ℕ) × (find_slot (rounds_of rw) (begin_of rw) s.request ≡ ok j)
        × (j < nr_request)
        × (dev_at s.request j ≡ no_dev)
  search-free rw n s ready = elim (ℕ_discrete rw bio_read) [
    | yes read ↦
        let more : 0 < spare 32 0 s.request =
          omega
            (arith, ready.room, spare-behind 10 32 22 0 10 s.request (omega arith) (omega arith)) in
        let (j, run, a, b, free) = find_slot-free 32 0 s.request (omega (arith, ready.size)) more in
        (j, ground (arith, read, run), b, free)
    | no write ↦
        let (j, run, a, b, free) =
          find_slot-free 22 10 s.request (omega (arith, ready.size)) (omega (arith, ready.room)) in
        (j, ground (arith, write, run), b, free)
  ]

  -- When the table has 32 slots of which a write may use one, no request of the disk is being handled
  -- and the drive completes the request, ll_rw_block returns with what the drive made of the bytes and
  -- of the disk, and at most one of the slots that a write may use is gone.
  pub ll_rw_block-Ready :
      (n rw sector count : ℕ) (buffer buffer' : List ℕ) (d : D) (s : Blk D)
      → Ready (suc n) s
      → rw ≡ bio_read ⊎ rw ≡ bio_write
      → drive.handle (cmd_of rw sector count) buffer s.disk ≡ ok (buffer', d)
      → (s' : Blk D) × (ll_rw_block drive blk_dev_hd rw sector count buffer s ≡ ok (buffer', s'))
        × (s'.disk ≡ d)
        × Ready n s'
  ll_rw_block-Ready n rw sector count buffer buffer' d s ready valid done =
      let (j, run, h, free) = search-free rw n s ready in
      let ready0 : Ready 0 s = record {
        size = ready.size;
        devices = ready.devices;
        idle = ready.idle;
        room = omega arith;
      } in
      let cmd : BioCmd = cmd_of rw sector count in
      (
        after j cmd d s,
        ll_rw_block-add_request rw sector count buffer s valid
            ∙ add_request-slot j cmd buffer buffer' d s run h ready0 done,
        refl,
        after-Ready n j cmd d s ready h free,
      )

  -- Whatever the device and the drive do, a transfer that returns has taken a slot.
  pub add_request-request :
      (j : ℕ) (req : BioRequest) (buffer : List ℕ) (s s' : Blk D) (buffer' : List ℕ)
      → find_slot (rounds_of req.cmd.rw) (begin_of req.cmd.rw) s.request ≡ ok j
      → j < length s.request
      → length s.request ≡ nr_request
      → add_request drive req buffer s ≡ ok (buffer', s')
      → s'.request ≡ set s.request j req
  unfolding add_request
  add_request-request j req buffer s s' buffer' run h size e =
      ground (arith, e, run, store-ok s.request j req h)

  pub ll_rw_block-dev :
      (dev rw sector count : ℕ) (buffer buffer' : List ℕ) (s s' : Blk D)
      → ll_rw_block drive dev rw sector count buffer s ≡ ok (buffer', s')
      → (rw ≡ bio_read ⊎ rw ≡ bio_write)
        × (add_request drive (hd_request (cmd_of rw sector count)) buffer s ≡ ok (buffer', s'))
  unfolding ll_rw_block
  ll_rw_block-dev dev rw sector count buffer buffer' s s' e = (ground (arith, e), ground (arith, e))
