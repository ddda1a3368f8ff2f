-- ===== src/Str/Scan.antt =====
-- lib/string.c: the functions that walk a string up to its terminator.
use mathlib.Core.Option
use rxd_os.Prelude.{
  ℕ, zero, suc, ◌+◌, ◌^◌, ◌<◌, ◌≡◌, ◌≢◌, Bool, false, ◌||◌, List, [], ◌∷◌, ◌++◌, Option, none, some,
  ok, arith, ◌==◌, if◌then◌else◌, length,
}
use rxd_os.Memory.{Memory, write, IsString}
use rxd_os.Str.{
  null, to_int, address_space, fits_address_space, strlen_loop, strlen, strchr_loop, strchr,
  strrchr_loop, strrchr, mark_loop, scan_loop, strcspn,
}

strlen_loop-length :
    (fuel p : ℕ) (xs : List ℕ) (m : Memory)
    → IsString m p xs
    → length xs < fuel
    → strlen_loop fuel p m ≡ ok (p + length xs)
unfolding strlen_loop
strlen_loop-length zero p xs m s f = absurd (omega arith)
strlen_loop-length (suc fuel) p [] m s f = ground arith
strlen_loop-length (suc fuel) p (x ∷ xs) m s f =
    ground (arith, strlen_loop-length fuel (p + 1) xs m s.2)

-- `strlen` of a string that is not NULL and fits the address space returns its length.
pub strlen-length :
    (p : ℕ) (xs : List ℕ) (m : Memory)
    → p ≢ null
    → IsString m p xs
    → length xs < 2 ^ 32
    → strlen p m ≡ ok (length xs)
unfolding strlen
strlen-length p xs m hp s fits =
    ground (arith, strlen_loop-length address_space p xs m s (fits_address_space fits))

-- Where a character first stands in a list, and where it last does.
unfoldable pub first_index : ℕ → List ℕ → Option ℕ
first_index c [] = none
first_index c (x ∷ xs) = if to_int x == c then some 0 else Option.map suc (first_index c xs)

unfoldable pub last_index : ℕ → List ℕ → Option ℕ
last_index c [] = none
last_index c (x ∷ xs) = elim (last_index c xs) [
  | some i ↦ some (suc i)
  | none ↦ if to_int x == c then some 0 else none
]

-- The address of an index into a string, NULL for none.
abbrev pub address : ℕ → Option ℕ → ℕ
address p none = null
address p (some i) = p + i

strchr_loop-first :
    (fuel p c : ℕ) (xs : List ℕ) (m : Memory)
    → IsString m p xs
    → length xs < fuel
    → strchr_loop fuel p c m ≡ ok (address p (first_index c (xs ++ 0 ∷ [])))
unfolding strchr_loop first_index
strchr_loop-first zero p c xs m s f = absurd (omega arith)
strchr_loop-first (suc fuel) p c [] m s f = ground arith
strchr_loop-first (suc fuel) p c (x ∷ xs) m s f =
    ground (arith, strchr_loop-first fuel (p + 1) c xs m s.2)

-- `strchr` of a string that is not NULL and fits the address space returns the first place of the
-- character, the terminator counted in, or NULL.
pub strchr-first_index :
    (p c : ℕ) (xs : List ℕ) (m : Memory)
    → p ≢ null
    → IsString m p xs
    → length xs < 2 ^ 32
    → strchr p c m ≡ ok (address p (first_index c (xs ++ 0 ∷ [])))
unfolding strchr
strchr-first_index p c xs m hp s fits =
    ground (arith, strchr_loop-first address_space p c xs m s (fits_address_space fits))

strrchr_loop-last :
    (fuel p q c : ℕ) (xs : List ℕ) (m : Memory)
    → IsString m p xs
    → length xs < fuel
    → strrchr_loop fuel p q c m
      ≡ ok (elim (last_index c (xs ++ 0 ∷ [])) [
        | some i ↦ p + i
        | none ↦ if to_int (m q) == c then q else null
      ])
unfolding strrchr_loop last_index
strrchr_loop-last zero p q c xs m s f = absurd (omega arith)
strrchr_loop-last (suc fuel) p q c [] m s f = ground arith
strrchr_loop-last (suc fuel) p q c (x ∷ xs) m s f =
    let q' : ℕ = (if to_int (m p) == c then p else q) in
    ground (arith, strrchr_loop-last fuel (p + 1) q' c xs m s.2)

last_index-none :
    (p c : ℕ) (xs : List ℕ) (m : Memory)
    → IsString m p xs
    → last_index c (xs ++ 0 ∷ []) ≡ none
    → (to_int (m p) == c) ≡ false
unfolding last_index
last_index-none p c [] m s h = ground arith
last_index-none p c (x ∷ xs) m s h = ground arith

-- `strrchr` of a string that is not NULL and fits the address space returns the last place of the
-- character, the terminator counted in, or NULL.
pub strrchr-last_index :
    (p c : ℕ) (xs : List ℕ) (m : Memory)
    → p ≢ null
    → IsString m p xs
    → length xs < 2 ^ 32
    → strrchr p c m ≡ ok (address p (last_index c (xs ++ 0 ∷ [])))
unfolding strrchr
strrchr-last_index p c xs m hp s fits = ground (
  arith,
  strrchr_loop-last address_space p p c xs m s (fits_address_space fits),
  last_index-none p c xs m s,
)

has : ℕ → List ℕ → Bool
has c [] = false
has c (x ∷ xs) = x == c || has c xs

-- How many characters of a list come before the first one that stands in `reject`.
unfoldable pub span_without : (reject : List ℕ) → List ℕ → ℕ
unfolding has
span_without reject [] = 0
span_without reject (x ∷ xs) = if has x reject then 0 else suc (span_without reject xs)

mark_loop-has :
    (fuel p : ℕ) (ys : List ℕ) (m table : Memory)
    → IsString m p ys
    → length ys < fuel
    → (t : Memory) × (mark_loop fuel p m table ≡ ok t)
      × ((a : ℕ) → t a ≡ (if a == 0 || has a ys then 1 else table a))
unfolding mark_loop has
mark_loop-has zero p ys m table s f = absurd (omega arith)
mark_loop-has (suc fuel) p [] m table s f = (write table (m p) 1, ground arith, λ a. ground arith)
mark_loop-has (suc fuel) p (y ∷ ys) m table s f =
    let (t, run, at) = mark_loop-has fuel (p + 1) ys m (write table (m p) 1) s.2 (omega arith) in
    (t, ground arith, λ a. ground (arith, at a))

scan_loop-span :
    (fuel p : ℕ) (xs ys : List ℕ) (m t : Memory)
    → IsString m p xs
    → length xs < fuel
    → ((a : ℕ) → t a ≡ (if a == 0 || has a ys then 1 else 0))
    → scan_loop fuel p m t ≡ ok (p + span_without ys xs)
unfolding scan_loop span_without
scan_loop-span zero p xs ys m t s f at = absurd (omega arith)
scan_loop-span (suc fuel) p [] ys m t s f at = ground (arith, at (m p))
scan_loop-span (suc fuel) p (x ∷ xs) ys m t s f at =
    ground (arith, at (m p), at x, scan_loop-span fuel (p + 1) xs ys m t s.2)

-- `strcspn` of two strings that are not NULL and fit the address space returns the length of the
-- longest start of the first one that has no character of the second one.
pub strcspn-span_without :
    (p q : ℕ) (xs ys : List ℕ) (m : Memory)
    → p ≢ null
    → q ≢ null
    → IsString m p xs
    → IsString m q ys
    → length xs < 2 ^ 32
    → length ys < 2 ^ 32
    → strcspn p q m ≡ ok (span_without ys xs)
unfolding strcspn
strcspn-span_without p q xs ys m hp hq s r fits fits' =
    let (t, run, at) = mark_loop-has address_space q ys m (λ _. 0) r (fits_address_space fits') in
    ground (arith, run, scan_loop-span address_space p xs ys m t s (fits_address_space fits) at)
