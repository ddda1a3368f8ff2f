-- ===== src/Buffer/Tests.antt =====
-- kernel/blk_drv/buffer.c: the theorems at the caches of Sample.
use rxd_os.Chains.{occurrences}
use rxd_os.Prelude.{
  ℕ, ◌+◌, ◌-◌, ◌/◌, ◌^◌, ◌<◌, ◌≡◌, ◌≢◌, refl, [], ◌∷◌, ok, arith, length, length-replicate,
}
use rxd_os.Blk.{Blk}
use rxd_os.Hd.Ram.{Ram, ram_drive-DiskLaws}
use rxd_os.Buffer.{Cache, Area, bread, brelease, bwrite, set_data, buffer_init}
use rxd_os.Buffer.Coherence.{Cached, Valid, view}
use rxd_os.Buffer.Miss.{Room, one_free}
use rxd_os.Buffer.Read.{users, ReadOf, bread-ReadOf}
use rxd_os.Buffer.Release.{Released, brelease-Released, bwrite-view}
use rxd_os.Buffer.Init.{OwnBlocks, cache_on, buffer_init-Valid}
use rxd_os.Buffer.Sample.{
  ram, ram_laws, empty_table, empty_table-Ready, sevens, blank, fresh, fresh-Valid, in_use,
  in_use-Valid,
}

in_use-Cached : Cached in_use 1
unfolding occurrences
in_use-Cached = ground arith

in_use-users : 0 < users in_use 1
unfolding users occurrences
in_use-users = ground arith

fresh-few : (c : ℕ) → Cached fresh c → (fresh.heads c).b_count + 1 < 2 ^ 31
fresh-few c h = omega arith

bread-ReadOf_example :
    (c : ℕ) × (s' : Cache (ℕ → ℕ)) × (bread ram 3 9 fresh ≡ ok (c, s'))
    × ReadOf ram_laws 3 fresh 9 c s'
bread-ReadOf_example =
    bread-ReadOf ram_laws 3 fresh 9 fresh-Valid empty_table-Ready fresh-few
      (one_free 1 (2 ∷ []) refl) (omega arith)

brelease-Released_example :
    (s' : Cache (ℕ → ℕ)) × (brelease ram 1 in_use ≡ ok s') × Released ram_laws 3 in_use 1 s'
brelease-Released_example =
    brelease-Released ram_laws 3 in_use 1 in_use-Valid empty_table-Ready in_use-Cached in_use-users

bwrite-view_example :
    Valid ram_laws (bwrite 1 (set_data 1 sevens in_use))
    × (view ram_laws (bwrite 1 (set_data 1 sevens in_use)) 5 ≡ sevens)
    × ((a : ℕ)
        → a ≢ 5
        → view ram_laws (bwrite 1 (set_data 1 sevens in_use)) a ≡ view ram_laws in_use a)
bwrite-view_example =
    bwrite-view ram_laws in_use 1 sevens in_use-Valid in_use-Cached in_use-users
      (length-replicate {A = ℕ} 1024 7)

-- The request table over the driver of the hard disk, on a drive that holds zeros.
abbrev ram_table : Blk Ram
ram_table = record {
  request = empty_table.request;
  busy = empty_table.busy;
  disk = record { bytes = λ a. 0; regs = []; pos = 0 };
}

buffer_init-Valid_example :
    (s : Area) × (buffer_init (λ a. 0) 4096 20480 blank ≡ ok (s, (20480 - 4096) / 1080))
    × (length s.free ≡ (20480 - 4096) / 1080)
    × OwnBlocks (λ a. 0) 4096 20480 ((20480 - 4096) / 1080) s
    × Valid ram_drive-DiskLaws (cache_on s ram_table)
    × Room (cache_on s ram_table)
buffer_init-Valid_example =
    buffer_init-Valid ram_drive-DiskLaws (λ a. 0) 4096 20480 blank ram_table (omega arith)
      (omega arith) (λ x. refl)
