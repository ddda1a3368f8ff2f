-- ===== src/Str/Tests.antt =====
-- lib/string.c: the theorems at concrete strings.
use rxd_os.Prelude.{ℕ, ◌+◌, ◌^◌, ◌<◌, ◌≡◌, ◌≢◌, refl, inl, inr, List, [], ◌∷◌, ok, arith, get_or}
use rxd_os.Memory.{Memory, IsString}
use rxd_os.Str.{memmove, strncpy}
use rxd_os.Str.Copy.{moved, memmove-moved}
use rxd_os.Str.CopyString.{strncpy-overrun}

-- "a/b/", "/" and "a/c".
abbrev text : Memory
text a = get_or (0 ∷ 97 ∷ 47 ∷ 98 ∷ 47 ∷ 0 ∷ 47 ∷ 0 ∷ 97 ∷ 47 ∷ 99 ∷ []) a 0

abbrev path : List ℕ
path = 97 ∷ 47 ∷ 98 ∷ 47 ∷ []

abbrev other : List ℕ
other = 97 ∷ 47 ∷ 99 ∷ []

path-IsString : IsString text 1 path
path-IsString =
    (refl, omega arith, (refl, omega arith, (refl, omega arith, (refl, omega arith, refl))))

slash-IsString : IsString text 6 (47 ∷ [])
slash-IsString = (refl, omega arith, refl)

other-IsString : IsString text 8 other
other-IsString = (refl, omega arith, (refl, omega arith, (refl, omega arith, refl)))

memmove-moved_example :
    (m' : Memory) × (memmove 3 1 4 text ≡ ok m') × ((a : ℕ) → m' a ≡ moved 3 1 4 text a)
memmove-moved_example = memmove-moved 3 1 4 text (omega arith) (omega arith) (inl (omega arith))

strncpy-overrun_example :
    (m' : Memory) × (strncpy 20 1 2 text ≡ ok m')
    × (m' 21 ≡ 47)
    × ((a : ℕ) → a < 2 ^ 32 → a + 1 ≢ 22 → m' a ≡ 0)
strncpy-overrun_example =
    strncpy-overrun 20 1 2 path text (omega arith) (omega arith) path-IsString (inr (omega arith))
      (omega arith) (omega arith) (omega arith)
