-- ===== src/Blk/Tests.antt =====
-- kernel/blk_drv/ll_rw_blk.c: the theorems on the request table at a drive that counts its requests.
use rxd_os.Prelude.{ℕ, ◌+◌, ◌≤◌, ◌≡◌, inl, refl, false, [], ◌∷◌, ok, arith, replicate}
use rxd_os.Blk.{
  BioRequest, Drive, Blk, nr_request, no_dev, bio_read, find_slot, add_request, req_handle,
  ll_rw_block,
}
use rxd_os.Blk.Slots.{spare, Ready, free_slots}
use rxd_os.Blk.Transfer.{cmd_of, hd_request, ll_rw_block-Ready}
use rxd_os.Blk.Budget.{start, transfer, Transfers-bound}

abbrev counter : Drive ℕ
counter = record { handle = λ cmd buffer d. ok (buffer, d + 1) }

abbrev free_request : BioRequest
free_request = record { cmd = cmd_of 0 0 0; dev = no_dev }

abbrev table : Blk ℕ
table = record { request = replicate 32 free_request; busy = replicate 4 false; disk = 0 }

-- The table after one read.
abbrev table_1 : Blk ℕ
table_1 = record {
  request = hd_request (cmd_of bio_read 8 2) ∷ replicate 31 free_request;
  busy = replicate 4 false;
  disk = 1;
}

table-spare : spare 22 10 table.request ≡ 22
unfolding spare
table-spare = refl

table-Ready : Ready 1 table
table-Ready = record { size = refl; devices = refl; idle = refl; room = omega (arith, table-spare) }

table-read : ll_rw_block counter 3 bio_read 8 2 (7 ∷ []) table ≡ ok (7 ∷ [], table_1)
unfolding ll_rw_block add_request find_slot req_handle
table-read = refl

ll_rw_block-Ready_example :
    (s' : Blk ℕ) × (ll_rw_block counter 3 bio_read 8 2 (7 ∷ []) table ≡ ok (7 ∷ [], s'))
    × (s'.disk ≡ 1)
    × Ready 0 s'
ll_rw_block-Ready_example =
    ll_rw_block-Ready counter 0 bio_read 8 2 (7 ∷ []) (7 ∷ []) 1 table table-Ready (inl refl) refl

Transfers-bound_example : (1 ≤ free_slots table) × (1 ≤ nr_request)
Transfers-bound_example =
    Transfers-bound counter refl (transfer 3 bio_read 8 2 (7 ∷ []) (7 ∷ []) table-read start)
