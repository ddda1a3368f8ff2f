-- ===== src/Blk/Budget.antt =====
-- kernel/blk_drv/ll_rw_blk.c: how many transfers the request table allows.
use native.Mathlib.Decide.{ℕ_discrete}
use rxd_os.Prelude.{
  ℕ, zero, suc, ◌+◌, ◌≤◌, ◌<◌, ◌≡◌, ◌≢◌, ◌⊎◌, inl, inr, sym, ◌∙◌, ap, List, Outcome, ok, panic,
  arith, length, set, length-set, refl, load-ok, store-ok, get_or, get_or-set_self, get_or-set_ne,
  zero,
}
use rxd_os.Blk.{
  BioRequest, Drive, Blk, nr_request, no_dev, find_slot, ll_rw_block, clear_requests, blk_dev_init,
}
use rxd_os.Blk.Slots.{
  dev_at, used, spare, spare_bound, find_slot-free, find_slot-full, spare-set, free_slots,
}
use rxd_os.Blk.Transfer.{
  cmd_of, hd_request, begin_of, rounds_of, add_request-full, ll_rw_block-dev, add_request-request,
}

-- The loop of blk_dev_init frees the slots from `i` on and leaves the others alone.
clear_requests-spare :
    (k i : ℕ) (request : List BioRequest)
    → i + k ≤ length request
    → (request' : List BioRequest) × (clear_requests k i request ≡ ok request')
      × (length request' ≡ length request)
      × (spare k i request' ≡ k)
      × ((j : ℕ) → j < i → dev_at request' j ≡ dev_at request j)
unfolding clear_requests spare
clear_requests-spare zero i request h = (request, refl, refl, refl, λ j p. refl)
clear_requests-spare (suc k) i request h =
    let old : BioRequest = get_or request i used in
    let cleared : BioRequest = record old { dev = no_dev } in
    let request1 : List BioRequest = set request i cleared in
    let size : length request1 ≡ length request = length-set request i cleared in
    let (request', run, size', free, front) =
      clear_requests-spare k (i + 1) request1 (omega (arith, h, size)) in
    let here : dev_at request' i ≡ no_dev =
      front i (omega arith)
      ∙ ap (λ q. q.dev) (get_or-set_self request i cleared used (omega (arith, h))) in
    (
      request',
      ground (
        arith,
        load-ok request i used (omega (arith, h)),
        store-ok request i cleared (omega (arith, h)),
        run,
      ),
      size' ∙ size,
      ground (arith, here, free),
      λ j p.
          front j (omega (arith, p))
          ∙ ap (λ q. q.dev) (get_or-set_ne request i j cleared used (omega (arith, p))),
    )

-- blk_dev_init of a table of 32 slots returns with all 32 slots free.
pub blk_dev_init-free_slots :
    {D : Type 0} (s : Blk D)
    → length s.request ≡ nr_request
    → (s' : Blk D) × (blk_dev_init s ≡ ok s')
      × (length s'.request ≡ nr_request)
      × (free_slots s' ≡ 32)
unfolding blk_dev_init
blk_dev_init-free_slots s size =
    let (request, run, size', free, _) =
      clear_requests-spare 32 0 s.request (omega (arith, size)) in
    (record s { request = request }, ground (arith, run), size' ∙ size, free)

module _ {D : Type 0} (drive : Drive D) where
  -- A search of the table ends at a free slot, or at its end.
  search-cases :
      (rw : ℕ) (request : List BioRequest)
      → length request ≡ nr_request
      → ((j : ℕ) × (find_slot (rounds_of rw) (begin_of rw) request ≡ ok j)
          × (j < nr_request)
          × (dev_at request j ≡ no_dev))
        ⊎ (find_slot (rounds_of rw) (begin_of rw) request ≡ ok nr_request)
  search-cases rw request size =
      let whole : begin_of rw + rounds_of rw ≡ nr_request = ground arith in
      elim (ℕ_discrete (spare (rounds_of rw) (begin_of rw) request) 0) [
        | yes none ↦ inr (
            find_slot-full (rounds_of rw) (begin_of rw) request (omega (arith, whole, size)) none
            ∙ ap ok whole)
        | no some ↦
            let (j, run, a, b, free) =
              find_slot-free (rounds_of rw) (begin_of rw) request (omega (arith, whole, size))
                (omega arith) in
            inl (j, run, omega (arith, whole), free)
      ]

  -- A transfer that returns has used one slot of the table for good.
  used_slot :
      (j rw sector count : ℕ) (request request' : List BioRequest)
      → length request ≡ nr_request
      → j < nr_request
      → dev_at request j ≡ no_dev
      → request' ≡ set request j (hd_request (cmd_of rw sector count))
      → spare 32 0 request' + 1 ≡ spare 32 0 request
  used_slot j rw sector count request request' size h free e =
      ap (λ r. spare 32 0 r + 1) e
      ∙ spare-set j (hd_request (cmd_of rw sector count)) request 32 0 (omega (arith, size)) free
          (omega arith) (omega arith) (omega arith)

  -- On a table of 32 slots an ll_rw_block that returns leaves a table of 32 slots with one free slot
  -- less, for every device, command and drive.
  pub ll_rw_block-free_slots :
      (dev rw sector count : ℕ) (buffer buffer' : List ℕ) (s s' : Blk D)
      → length s.request ≡ nr_request
      → ll_rw_block drive dev rw sector count buffer s ≡ ok (buffer', s')
      → (free_slots s' + 1 ≡ free_slots s) × (length s'.request ≡ nr_request)
  ll_rw_block-free_slots dev op sector count buffer buffer' s s' size e =
      let (valid, run) = ll_rw_block-dev drive dev op sector count buffer buffer' s s' e in
      let req : BioRequest = hd_request (cmd_of op sector count) in
      elim (search-cases op s.request size) [
        | inl (j, found, h, free) ↦
            let made : s'.request ≡ set s.request j req =
              add_request-request drive j req buffer s s' buffer' found (omega (arith, size)) size
                run in
            (
              used_slot j op sector count s.request s'.request size h free made,
              ap length made ∙ length-set s.request j req ∙ size,
            )
        | inr full ↦
            absurd
              (ok≢panic (sym run ∙ add_request-full drive (cmd_of op sector count) buffer s full))
      ]
    where
      ok≢panic : {A : Type 0} {a : A} → Outcome.ok a ≢ panic
      ok≢panic e = ground (arith, e)

  -- `Transfers n s t`: `n` calls of ll_rw_block, one after the other and each of them returning, lead
  -- from `s` to `t`.
  pub data Transfers : ℕ → Blk D → Blk D → Type 0 where
    start : {s : Blk D} → Transfers 0 s s
    transfer :
        {n : ℕ} {s t u : Blk D} (dev op sector count : ℕ) (buffer buffer' : List ℕ)
        → ll_rw_block drive dev op sector count buffer s ≡ ok (buffer', t)
        → Transfers n t u
        → Transfers (suc n) s u

  Transfers-free_slots :
      {n : ℕ} {s t : Blk D}
      → length s.request ≡ nr_request
      → Transfers n s t
      → n + free_slots t ≡ free_slots s
  Transfers-free_slots size start = omega arith
  Transfers-free_slots size (transfer {s = s} {t = t} dev op sector count buffer buffer' run more) =
      let (one, size') = ll_rw_block-free_slots dev op sector count buffer buffer' s t size run in
      omega (arith, one, Transfers-free_slots size' more)

  -- From a table of 32 slots no sequence of calls of ll_rw_block that all return is longer than the
  -- number of slots that are free at its start, and so none is longer than 32.
  pub Transfers-bound :
      {n : ℕ} {s t : Blk D}
      → length s.request ≡ nr_request
      → Transfers n s t
      → (n ≤ free_slots s) × (n ≤ nr_request)
  Transfers-bound {s = s} size run =
      let total = Transfers-free_slots size run in
      (omega (arith, total), omega (arith, total, spare_bound 32 0 s.request))
