-- ===== src/Str/Compare.antt =====
-- lib/string.c: `strncmp`.
use rxd_os.Prelude.{
  ℕ, zero, suc, ◌+◌, ◌≤◌, ◌<◌, ◌≡◌, ◌≢◌, ◌↔◌, refl, sym, ◌∙◌, ap, List, [], ◌∷◌, ok, arith, ◌==◌,
  if◌then◌else◌, length,
}
use native.Mathlib.Numerals.{add-one}
use rxd_os.Memory.{Memory, IsString}
use rxd_os.Str.{null, compare_chars, strncmp_loop, strncmp}

-- The comparison of at most `k` characters of two strings, a terminator counted as a 0.
unfoldable pub compare_prefix : ℕ → (xs ys : List ℕ) → ℕ
compare_prefix zero xs ys = 0
compare_prefix (suc k) [] [] = 0
compare_prefix (suc k) [] (y ∷ ys) = compare_chars 0 y
compare_prefix (suc k) (x ∷ xs) [] = compare_chars x 0
compare_prefix (suc k) (x ∷ xs) (y ∷ ys) =
    if x == y then compare_prefix k xs ys else compare_chars x y

strncmp_loop-prefix :
    (num p q : ℕ) (xs ys : List ℕ) (m : Memory)
    → IsString m p xs
    → IsString m q ys
    → strncmp_loop num p q m ≡ compare_prefix (suc num) xs ys
unfolding strncmp_loop compare_prefix
strncmp_loop-prefix zero p q [] [] m s r = ground arith
strncmp_loop-prefix zero p q [] (y ∷ ys) m s r = ground arith
strncmp_loop-prefix zero p q (x ∷ xs) [] m s r = ground arith
strncmp_loop-prefix zero p q (x ∷ xs) (y ∷ ys) m s r = ground arith
strncmp_loop-prefix (suc num) p q [] [] m s r = ground arith
strncmp_loop-prefix (suc num) p q [] (y ∷ ys) m s r = ground arith
strncmp_loop-prefix (suc num) p q (x ∷ xs) [] m s r = ground arith
strncmp_loop-prefix (suc num) p q (x ∷ xs) (y ∷ ys) m s r =
    ground (arith, strncmp_loop-prefix num (p + 1) (q + 1) xs ys m s.2 r.2)

-- `strncmp` of two strings that are not NULL, with a count that is not 0, compares one character
-- more than the count.
pub strncmp-compare_prefix :
    (p q num : ℕ) (xs ys : List ℕ) (m : Memory)
    → p ≢ null
    → q ≢ null
    → num ≢ 0
    → IsString m p xs
    → IsString m q ys
    → strncmp p q num m ≡ ok (compare_prefix (num + 1) xs ys)
unfolding strncmp
strncmp-compare_prefix p q num xs ys m hp hq hn s r =
    ground (arith, strncmp_loop-prefix num p q xs ys m s r, add-one num)

compare_prefix-whole :
    (k p q : ℕ) (xs ys : List ℕ) (m : Memory)
    → IsString m p xs
    → IsString m q ys
    → length xs < k
    → compare_prefix k xs ys ≡ 0
    → xs ≡ ys
unfolding compare_prefix
compare_prefix-whole zero p q xs ys m s r h e = absurd (omega arith)
compare_prefix-whole (suc k) p q [] [] m s r h e = refl
compare_prefix-whole (suc k) p q [] (y ∷ ys) m s r h e = ground arith
compare_prefix-whole (suc k) p q (x ∷ xs) [] m s r h e = ground arith
compare_prefix-whole (suc k) p q (x ∷ xs) (y ∷ ys) m s r h e =
    ground (arith, compare_prefix-whole k (p + 1) (q + 1) xs ys m s.2 r.2)

compare_prefix_self : (k : ℕ) (xs : List ℕ) → compare_prefix k xs xs ≡ 0
unfolding compare_prefix
compare_prefix_self zero xs = refl
compare_prefix_self (suc k) [] = refl
compare_prefix_self (suc k) (x ∷ xs) = ground (arith, compare_prefix_self k xs)

-- `strncmp` of two strings that are not NULL, with a count that is not 0 and at least the length
-- of the first one, returns 0 exactly if the strings are equal, and not whenever the first is a
-- prefix of the second.
pub strncmp-exact :
    (p q num : ℕ) (xs ys : List ℕ) (m : Memory)
    → p ≢ null
    → q ≢ null
    → num ≢ 0
    → length xs ≤ num
    → IsString m p xs
    → IsString m q ys
    → (strncmp p q num m ≡ ok 0) ↔ (xs ≡ ys)
strncmp-exact p q num xs ys m hp hq hn long s r = (
  λ e. compare_prefix-whole (num + 1) p q xs ys m s r (omega arith) (ground (arith, same)),
  λ e.
      same
      ∙ ap (λ zs. ok (compare_prefix (num + 1) xs zs)) (sym e)
      ∙ ap ok (compare_prefix_self (num + 1) xs),
)
  where
    same : strncmp p q num m ≡ ok (compare_prefix (num + 1) xs ys)
    same = strncmp-compare_prefix p q num xs ys m hp hq hn s r
