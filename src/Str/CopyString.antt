-- ===== src/Str/CopyString.antt =====
-- lib/string.c: the functions that copy a string.
use native.Mathlib.Decide.{ℕ_discrete}
use rxd_os.Prelude.{
  ℕ, zero, suc, ◌+◌, ◌-◌, ◌%◌, ◌^◌, ◌≤◌, ◌<◌, ◌≡◌, ◌≢◌, ◌⊎◌, List, [], ◌∷◌, ok, arith, leb, ltb,
  if◌then◌else◌, length, min,
}
use rxd_os.Memory.{Memory, write, IsString}
use rxd_os.Str.{
  null, address_space, fits_address_space, strcpy_loop, strcpy, strncpy_loop, strncpy, pad,
}
use rxd_os.Str.Copy.{moved, filled}

-- A write before a string, or behind its terminator, leaves the string.
IsString-write :
    (p : ℕ) (xs : List ℕ) (m : Memory) (a v : ℕ)
    → IsString m p xs
    → (a < p) ⊎ (p + length xs < a)
    → IsString (write m a v) p xs
IsString-write p [] m a v s h = ground arith
IsString-write p (x ∷ xs) m a v s h =
    (ground arith, s.1, IsString-write (p + 1) xs m a v s.2 (omega arith))

strcpy_loop-moved :
    (fuel dst src : ℕ) (xs : List ℕ) (m : Memory)
    → IsString m src xs
    → (dst ≤ src) ⊎ (src + length xs < dst)
    → length xs < fuel
    → (m' : Memory) × (strcpy_loop fuel dst src m ≡ ok m')
      × ((a : ℕ) → m' a ≡ moved dst src (length xs + 1) m a)
unfolding strcpy_loop
strcpy_loop-moved zero dst src xs m s apart f = absurd (omega arith)
strcpy_loop-moved (suc fuel) dst src [] m s apart f =
    (write m dst 0, ground arith, λ a. ground arith)
strcpy_loop-moved (suc fuel) dst src (x ∷ xs) m s apart f =
    let m1 : Memory = write m dst (m src) in
    let s1 = IsString-write (src + 1) xs m dst (m src) s.2 (omega arith) in
    let (m', run, at) =
      strcpy_loop-moved fuel (dst + 1) (src + 1) xs m1 s1 (omega arith) (omega arith) in
    (m', ground arith, λ a. ground (arith, at a))

-- `strcpy` between addresses other than NULL, of a string that fits the address space, returns,
-- moves the string with its terminator and changes nothing else, unless the target begins inside
-- the source.
pub strcpy-moved :
    (dst src : ℕ) (xs : List ℕ) (m : Memory)
    → dst ≢ null
    → src ≢ null
    → IsString m src xs
    → (dst ≤ src) ⊎ (src + length xs < dst)
    → length xs < 2 ^ 32
    → (m' : Memory) × (strcpy dst src m ≡ ok m')
      × ((a : ℕ) → m' a ≡ moved dst src (length xs + 1) m a)
unfolding strcpy
strcpy-moved dst src xs m hd hs s apart fits =
    let (m', run, at) =
      strcpy_loop-moved address_space dst src xs m s apart (fits_address_space fits) in
    (m', ground arith, at)

-- Where the first loop of `strncpy` stops, and what it leaves of `num`: nothing is left where the
-- string is longer, and then the decrement in the loop's test wraps round.
abbrev left_of : (len num : ℕ) → ℕ
left_of len num = if leb len num then num - len else 0xffffffff

strncpy_loop-moved :
    (fuel dst src num : ℕ) (xs : List ℕ) (m : Memory)
    → IsString m src xs
    → (dst ≤ src) ⊎ (src + length xs < dst)
    → length xs < fuel
    → (m' : Memory) × (strncpy_loop fuel dst src num m
        ≡ ok (dst + min (length xs) num, left_of (length xs) num, m'))
      × ((a : ℕ) → m' a ≡ moved dst src (min (length xs) num) m a)
unfolding strncpy_loop
strncpy_loop-moved zero dst src num xs m s apart f = absurd (omega arith)
strncpy_loop-moved (suc fuel) dst src num [] m s apart f = (m, ground arith, λ a. ground arith)
strncpy_loop-moved (suc fuel) dst src zero (x ∷ xs) m s apart f =
    (m, ground arith, λ a. ground arith)
strncpy_loop-moved (suc fuel) dst src (suc num) (x ∷ xs) m s apart f =
    let m1 : Memory = write m dst (m src) in
    let s1 = IsString-write (src + 1) xs m dst (m src) s.2 (omega arith) in
    let (m', run, at) =
      strncpy_loop-moved fuel (dst + 1) (src + 1) num xs m1 s1 (omega arith) (omega arith) in
    (m', ground arith, λ a. ground (arith, at a))

-- The second loop writes 0 to `num` addresses from `p` on, round the end of the address space.
pad-wrapped :
    (num p : ℕ) (m : Memory) (a : ℕ)
    → num < 2 ^ 32
    → p < 2 ^ 32
    → a < 2 ^ 32
    → pad num p m a ≡ (if ltb ((a + 2 ^ 32 - p) % 2 ^ 32) num then 0 else m a)
unfolding pad
pad-wrapped zero p m a few hp ha = ground arith
pad-wrapped (suc num) p m a few hp ha =
    let rest =
      pad-wrapped num ((p + 1) % 2 ^ 32) (write m p 0) a (omega (arith, few)) (omega arith) ha in
    elim (ℕ_discrete p a) [
      | yes here ↦ ground (arith, few, hp, ha, rest, here)
      | no other ↦
          let before : (a + 2 ^ 32 - (p + 1) % 2 ^ 32) % 2 ^ 32 + 1 ≡ (a + 2 ^ 32 - p) % 2 ^ 32 =
            omega (arith, hp, ha, other) in
          ground (arith, rest, before, other)
    ]

-- `strncpy` between addresses other than NULL, of a string that has at most `num` characters, to a target
-- whose `num` bytes end inside the address space, returns, moves them, fills the rest of the `num` bytes
-- with 0 and changes nothing else, unless the target begins inside the source.
pub strncpy-padded :
    (dst src num : ℕ) (xs : List ℕ) (m : Memory)
    → dst ≢ null
    → src ≢ null
    → IsString m src xs
    → (dst ≤ src) ⊎ (src + length xs < dst)
    → dst + num < 2 ^ 32
    → length xs ≤ num
    → (m' : Memory) × (strncpy dst src num m ≡ ok m')
      × ((a : ℕ)
          → a < 2 ^ 32
          → m' a ≡ filled (dst + length xs) 0 (num - length xs) (moved dst src (length xs) m) a)
unfolding strncpy
strncpy-padded dst src num xs m hd hs s apart small short =
    let fits : length xs < 2 ^ 32 = omega arith in
    let (m1, run, at) =
      strncpy_loop-moved address_space dst src num xs m s apart (fits_address_space fits) in
    let e : min (length xs) num ≡ length xs = omega arith in
    (
      pad (num - length xs) (dst + length xs) m1,
      ground arith,
      λ a ha.
          let wrapped =
            pad-wrapped (num - length xs) (dst + length xs) m1 a (omega arith) (omega arith) ha in
          ground (arith, at a, wrapped, ha),
    )

-- `strncpy` between addresses other than NULL, of a string that is longer than `num` and ends inside the
-- address space, to a target whose `num` bytes end inside it and that does not begin inside the source,
-- writes 0 to every address but the one before `dst + num`, since the test of its first loop has wrapped
-- the count round: of the characters that it moved only the last is left, and all else in memory is lost.
pub strncpy-overrun :
    (dst src num : ℕ) (xs : List ℕ) (m : Memory)
    → dst ≢ null
    → src ≢ null
    → IsString m src xs
    → (dst ≤ src) ⊎ (src + length xs < dst)
    → src + length xs < 2 ^ 32
    → dst + num < 2 ^ 32
    → num < length xs
    → (m' : Memory) × (strncpy dst src num m ≡ ok m')
      × (m' (dst + num - 1) ≡ moved dst src num m (dst + num - 1))
      × ((a : ℕ) → a < 2 ^ 32 → a + 1 ≢ dst + num → m' a ≡ 0)
unfolding strncpy
strncpy-overrun dst src num xs m hd hs s apart fits room long =
    let (m1, run, at) =
      strncpy_loop-moved address_space dst src num xs m s apart
        (fits_address_space (omega arith)) in
    let e : min (length xs) num ≡ num = omega arith in
    let last =
      pad-wrapped 0xffffffff (dst + num) m1 (dst + num - 1) (omega arith) room (omega arith) in
    let far : (dst + num - 1 + 2 ^ 32 - (dst + num)) % 2 ^ 32 ≡ 0xffffffff =
      omega (arith, hd, room) in
    (
      pad 0xffffffff (dst + num) m1,
      ground arith,
      ground (arith, last, far, at (dst + num - 1)),
      λ a ha ne.
          let wrapped = pad-wrapped 0xffffffff (dst + num) m1 a (omega arith) room ha in
          let near : (a + 2 ^ 32 - (dst + num)) % 2 ^ 32 < 0xffffffff =
            omega (arith, ha, room, ne) in
          ground (arith, wrapped, near),
    )
