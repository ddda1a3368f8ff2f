-- ===== src/Str/Copy.antt =====
-- lib/string.c: the functions that copy and fill blocks of known size.
use rxd_os.Prelude.{
  ℕ, zero, suc, ◌+◌, ◌-◌, ◌%◌, ◌≤◌, ◌<◌, ◌≡◌, ◌≢◌, ◌⊎◌, not, ◌&&◌, ◌||◌, ok, panic, arith, ltb, leb,
  ◌==◌, if◌then◌else◌,
}
use rxd_os.Memory.{Memory, write}
use rxd_os.Str.{null, copy_up, copy_down, fill, memcpy, memmove, memset}

-- What `m` comes to when the `n` bytes from `src` on have been moved to `dst`.
abbrev pub moved : (dst src n : ℕ) → Memory → Memory
moved dst src n m a = if leb dst a && ltb a (dst + n) then m (src + (a - dst)) else m a

-- Two blocks of `n` bytes without a common byte.
abbrev pub Apart : (dst src n : ℕ) → Type 0
Apart dst src n = (dst + n ≤ src) ⊎ (src + n ≤ dst)

copy_up-moved :
    (n dst src : ℕ) (m : Memory) (a : ℕ)
    → (dst ≤ src) ⊎ (src + n ≤ dst)
    → copy_up n dst src m a ≡ moved dst src n m a
unfolding copy_up
copy_up-moved zero dst src m a h = ground arith
copy_up-moved (suc n) dst src m a h =
    ground (arith, copy_up-moved n (dst + 1) (src + 1) (write m dst (m src)) a)

copy_down-moved :
    (n dst src : ℕ) (m : Memory) (a : ℕ) → src ≤ dst → copy_down n dst src m a ≡ moved dst src n m a
unfolding copy_down
copy_down-moved zero dst src m a h = ground arith
copy_down-moved (suc n) dst src m a h =
    ground (arith, copy_down-moved n dst src (write m (dst + n) (m (src + n))) a h)

abbrev pub filled : (ptr value n : ℕ) → Memory → Memory
filled ptr value n m a = if leb ptr a && ltb a (ptr + n) then value else m a

pub fill-filled :
    (n ptr value : ℕ) (m : Memory) (a : ℕ) → fill n ptr value m a ≡ filled ptr value n m a
unfolding fill
fill-filled zero ptr value m a = ground arith
fill-filled (suc n) ptr value m a =
    ground (arith, fill-filled n (ptr + 1) value (write m ptr value) a)

-- `memcpy` between addresses other than NULL of two blocks that do not overlap returns, and moves
-- exactly that block.
pub memcpy-moved :
    (dst src n : ℕ) (m : Memory)
    → dst ≢ null
    → src ≢ null
    → Apart dst src n
    → (m' : Memory) × (memcpy dst src n m ≡ ok m') × ((a : ℕ) → m' a ≡ moved dst src n m a)
unfolding memcpy
memcpy-moved dst src n m hd hs apart = (
  if not (n == 0) && not (dst == src) then copy_up n dst src m else m,
  ground arith,
  λ a. ground (arith, copy_up-moved n dst src m a),
)

-- `memmove` between addresses other than NULL returns and moves exactly the block, if the target
-- is not the lower one of two blocks that overlap.
pub memmove-moved :
    (dst src n : ℕ) (m : Memory)
    → dst ≢ null
    → src ≢ null
    → (src ≤ dst) ⊎ Apart dst src n
    → (m' : Memory) × (memmove dst src n m ≡ ok m') × ((a : ℕ) → m' a ≡ moved dst src n m a)
unfolding memmove memcpy
memmove-moved dst src n m hd hs apart = (
  if n == 0 || dst == src
      then m
      else if ltb src dst
      then copy_down n dst src m
      else if not (n == 0) && not (dst == src)
      then copy_up n dst src m
      else m,
  ground arith,
  λ a. ground (arith, copy_up-moved n dst src m a, copy_down-moved n dst src m a),
)

-- Where the target is not NULL and the lower of two overlapping blocks `memmove` panics, in the
-- assertion of `memcpy`.
pub memmove-panic :
    (dst src n : ℕ) (m : Memory)
    → dst ≢ null
    → dst < src
    → src < dst + n
    → memmove dst src n m ≡ panic
unfolding memmove memcpy
memmove-panic dst src n m hd lower overlap = ground arith

-- `memset` at an address other than NULL returns, and fills exactly its block with the low byte
-- of the value.
pub memset-filled :
    (ptr value n : ℕ) (m : Memory)
    → ptr ≢ null
    → (m' : Memory) × (memset ptr value n m ≡ ok m')
      × ((a : ℕ) → m' a ≡ filled ptr (value % 256) n m a)
unfolding memset fill
memset-filled ptr value n m h =
    (fill n ptr (value % 256) m, ground arith, fill-filled n ptr (value % 256) m)
