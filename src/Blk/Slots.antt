-- ===== src/Blk/Slots.antt =====
-- kernel/blk_drv/ll_rw_blk.c: the slots of the request table. A slot that has been used is never given
-- back, so that the free slots bound the transfers that a running kernel can still make.
use native.Mathlib.Decide.{ℕ_discrete}
use rxd_os.Prelude.{
  ℕ, zero, suc, ◌+◌, ◌≤◌, ◌<◌, ◌≡◌, ◌≢◌, ◌⊎◌, inl, refl, sym, ◌∙◌, ap, true, false, List, ok, arith,
  ◌==◌, if◌then◌else◌, length, get_or, set, load-ok, get_or-set_self, get_or-set_ne,
}
use rxd_os.Blk.{BioRequest, Blk, nr_request, nr_blk_dev, no_dev, blk_dev_hd, find_slot}

-- What stands for a slot that the table does not have.
abbrev pub used : BioRequest
used = record { cmd = record { rw = 0; sector = 0; count = 0 }; dev = 0 }

abbrev pub dev_at : List BioRequest → ℕ → ℕ
dev_at request i = (get_or request i used).dev

-- How many of the `k` slots from `i` on are free.
unfoldable pub spare : (k i : ℕ) → List BioRequest → ℕ
spare zero i request = 0
spare (suc k) i request = (if dev_at request i == no_dev then 1 else 0) + spare k (i + 1) request

pub spare_bound : (k i : ℕ) (request : List BioRequest) → spare k i request ≤ k
unfolding spare
spare_bound zero i request = omega arith
spare_bound (suc k) i request = ground (arith, spare_bound k (i + 1) request)

pub spare-behind :
    (a n k i i' : ℕ) (request : List BioRequest)
    → a + k ≡ n
    → i + a ≡ i'
    → spare k i' request ≤ spare n i request
unfolding spare
spare-behind zero n k i i' request e f =
    let size : k ≡ n = omega arith in
    let start : i' ≡ i = omega arith in
    let same : spare k i' request ≡ spare n i request = cc (size, start) in omega (arith, same)
spare-behind (suc a) zero k i i' request e f = absurd (omega arith)
spare-behind (suc a) (suc n) k i i' request e f =
    omega (arith, spare-behind a n k (i + 1) i' request (omega arith) (omega arith))

-- What the search ends at.
pub find_slot-free :
    (k i : ℕ) (request : List BioRequest)
    → i + k ≤ length request
    → 0 < spare k i request
    → (j : ℕ) × (find_slot k i request ≡ ok j) × (i ≤ j) × (j < i + k) × (dev_at request j ≡ no_dev)
unfolding find_slot spare
find_slot-free zero i request h some = absurd (omega arith)
find_slot-free (suc k) i request h some = elim (ℕ_discrete (dev_at request i) no_dev) [
  | yes free ↦
      (i, ground (arith, load-ok request i used (omega arith)), omega arith, omega arith, free)
  | no taken ↦
      let (j, run, a, b, free) = find_slot-free k (i + 1) request (omega arith) (ground arith) in
      (j, ground (arith, load-ok request i used (omega arith)), omega arith, omega arith, free)
]

pub find_slot-full :
    (k i : ℕ) (request : List BioRequest)
    → i + k ≤ length request
    → spare k i request ≡ 0
    → find_slot k i request ≡ ok (i + k)
unfolding find_slot spare
find_slot-full zero i request h none = ap ok (omega arith)
find_slot-full (suc k) i request h none =
    let end : i + 1 + k ≡ i + suc k = omega arith in
    let run = find_slot-full k (i + 1) request (omega arith) (ground arith) ∙ ap ok end in
    ground (arith, load-ok request i used (omega arith), run)

module _ (j : ℕ) (r : BioRequest) (request : List BioRequest) where
  pub spare-set_outside :
      (k i : ℕ) → j < i ⊎ i + k ≤ j → spare k i (set request j r) ≡ spare k i request
  unfolding spare
  spare-set_outside zero i h = refl
  spare-set_outside (suc k) i h =
      ground (arith, get_or-set_ne request j i r used, spare-set_outside k (i + 1))

  -- A free slot that is taken is one slot less.
  pub spare-set :
      (k i : ℕ)
      → j < length request
      → dev_at request j ≡ no_dev
      → r.dev ≢ no_dev
      → i ≤ j
      → j < i + k
      → spare k i (set request j r) + 1 ≡ spare k i request
  unfolding spare
  spare-set zero i h free taken a b = absurd (omega arith)
  spare-set (suc k) i h free taken a b = elim (ℕ_discrete j i) [
    | yes here ↦
        let now : dev_at (set request j r) i ≡ r.dev =
          ap (dev_at (set request j r)) (sym here)
          ∙ ap (λ q. q.dev) (get_or-set_self request j r used h) in
        let before : dev_at request i ≡ no_dev = ap (dev_at request) (sym here) ∙ free in
        ground (arith, now, before, spare-set_outside k (i + 1) (inl (omega arith)))
    | no later ↦ ground (arith, get_or-set_ne request j i r used, spare-set k (i + 1) h free taken)
  ]

-- The table has 32 slots, no request of the disk is being handled, and `n` of the slots that a write
-- may use are free.
pub record Ready {D : Type 0} (n : ℕ) (s : Blk D) : Type 0 where
  pub size : length s.request ≡ nr_request
  pub devices : length s.busy ≡ nr_blk_dev
  pub idle : get_or s.busy blk_dev_hd true ≡ false
  pub room : n ≤ spare 22 10 s.request

-- How many transfers the table allows in all.
abbrev pub free_slots : {D : Type 0} → Blk D → ℕ
free_slots s = spare 32 0 s.request
