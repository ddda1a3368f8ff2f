-- ===== src/Blockmap/Tests.antt =====
-- fs/bitmap.h: the theorems on maps at an empty disk.
use rxd_os.Chains.{occurrences}
use rxd_os.Prelude.{ℕ, zero, suc, ◌+◌, ◌*◌, ◌<◌, ◌≡◌, ◌⊎◌, ok, panic, arith, ap, get_or}
use rxd_os.Buffer.{Cache}
use rxd_os.Buffer.Disk.{slice}
use rxd_os.Buffer.Coherence.{view, view-other}
use rxd_os.Buffer.Sample.{ram, ram_laws, fresh, fresh-Valid, fresh-Idle}
use rxd_os.Blockmap.{bitmap_alloc}
use rxd_os.Blockmap.Change.{OnDisk}
use rxd_os.Blockmap.Next.{Taken, IsFull}
use rxd_os.Blockmap.Alloc.{bitmap_alloc-Taken}

zero_bytes : (a n i : ℕ) → get_or (slice (λ b. 0) a n) i 0 < 256
unfolding slice
zero_bytes a zero i = omega arith
zero_bytes a (suc n) zero = omega arith
zero_bytes a (suc n) (suc i) = zero_bytes (a + 1) n i

fresh-bytes : (b i : ℕ) → get_or (view ram_laws fresh b) i 0 < 256
unfolding occurrences
fresh-bytes b i =
    let empty : view ram_laws fresh b ≡ slice (λ a. 0) (1024 * b) 1024 =
      view-other ram_laws b fresh fresh-Valid (λ c h. absurd (omega (arith, h))) in
    omega (arith, ap (λ l. get_or l i 0) empty, zero_bytes (1024 * b) 1024 i)

fresh-OnDisk : OnDisk ram_laws fresh 2 3
fresh-OnDisk = record { inside = λ b p q. omega (arith, q); bytes = λ b p q i. fresh-bytes b i }

bitmap_alloc-Taken_example :
    ((t : ℕ) × (s' : Cache (ℕ → ℕ)) × (bitmap_alloc ram 3 2 3 fresh ≡ ok (t, s'))
      × Taken ram_laws 2 fresh 2 1 t s')
    ⊎ ((bitmap_alloc ram 3 2 3 fresh ≡ panic) × IsFull ram_laws fresh 2 1)
bitmap_alloc-Taken_example =
    bitmap_alloc-Taken ram_laws 2 2 3 fresh (omega arith) fresh-Idle fresh-OnDisk
