-- ===== src/Hd/Wait.antt =====
-- kernel/blk_drv/hd.c: `wait_status` polls the status until it fits or the time is out.
use rxd_os.Prelude.{ℕ, zero, suc, ◌+◌, ◌-◌, ◌<◌, ◌≡◌, ◌≢◌, refl, ok, arith, bit_and}
use rxd_os.Hd.{Ports, wait_loop, wait_status, command_reg}

module _ {P : Type 0} (ports : Ports P) where
  -- The hardware after `k` reads of the status.
  unfoldable pub polled : ℕ → P → P
  polled zero p = p
  polled (suc k) p = polled k (ports.inb command_reg p).1

  -- The status at the read after `k` others.
  abbrev pub status_at : ℕ → P → ℕ
  status_at k p = (ports.inb command_reg (polled k p)).0

  module _ (stat value : ℕ) where
    -- Read number `k` is the first with the wanted bits.
    pub record FirstReady (p : P) (k : ℕ) : Type 0 where
      pub ready : bit_and (status_at k p) stat ≡ value
      pub busy : (j : ℕ) → j < k → bit_and (status_at j p) stat ≢ value

    later : (p : P) (k : ℕ) → FirstReady p (suc k) → FirstReady (ports.inb command_reg p).1 k
    unfolding polled
    later p k f = record { ready = f.ready; busy = λ j h. f.busy (suc j) (omega (arith, h)) }

    wait_loop-ready :
        (n k : ℕ) (p : P)
        → k < n
        → FirstReady p k
        → wait_loop ports n stat value p ≡ (n - k, polled (suc k) p)
    unfolding wait_loop polled
    wait_loop-ready zero k p h f = absurd (omega (arith, h))
    wait_loop-ready (suc n) zero p h f = ground (arith, f.ready)
    wait_loop-ready (suc n) (suc k) p h f =
        let rest =
          wait_loop-ready n k (ports.inb command_reg p).1 (omega (arith, h)) (later p k f) in
        let less : n - k ≡ suc n - suc k = omega arith in
        ground (arith, f.busy 0 (omega arith), rest, less)

    wait_loop-busy :
        (n : ℕ) (p : P)
        → ((j : ℕ) → j < n → bit_and (status_at j p) stat ≢ value)
        → wait_loop ports n stat value p ≡ (0, polled n p)
    unfolding wait_loop polled
    wait_loop-busy zero p busy = refl
    wait_loop-busy (suc n) p busy =
        let rest =
          wait_loop-busy n (ports.inb command_reg p).1 (λ j h. busy (suc j) (omega (arith, h))) in
        ground (arith, busy 0 (omega arith), rest)

    -- wait_status with a time of at least 1 returns. If one of the reads before the time is out has the
    -- wanted bits, the result is the time that is left at the first such read, which is not 0; if none
    -- has them, the result is 0, after one read less than the time.
    pub wait_status-FirstReady :
        (time_out : ℕ) (p : P)
        → 0 < time_out
        → ((k : ℕ)
            → k + 1 < time_out
            → FirstReady p k
            → wait_status ports stat value time_out p ≡ ok (time_out - 1 - k, polled (suc k) p))
          × (((j : ℕ) → j + 1 < time_out → bit_and (status_at j p) stat ≢ value)
              → wait_status ports stat value time_out p ≡ ok (0, polled (time_out - 1) p))
    unfolding wait_status
    wait_status-FirstReady time_out p h = (
      λ k less f. ground (arith, h, wait_loop-ready (time_out - 1) k p (omega (arith, less)) f),
      λ busy.
          ground
            (arith, h, wait_loop-busy (time_out - 1) p (λ j less. busy j (omega (arith, less)))),
    )
