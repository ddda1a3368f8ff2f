-- ===== src/Printf/Ctype.antt =====
-- lib/printf.c: the character classes against ranges of ASCII.
use rxd_os.Prelude.{
  ℕ, ◌<◌, ◌≡◌, refl, Bool, true, false, not, ◌&&◌, ◌||◌, ltb, leb, ◌==◌, every_below,
  every_below-at,
}
use rxd_os.Printf.{
  chr_class_table, is_class, class_digit, class_upper, class_lower, class_space, class_blank,
  class_cntrl, class_print, class_graph, class_alpha, class_alnum, class_punct, class_xdigit,
}

pub data CharClass : Type 0 where
  digit_class upper_class lower_class space_class blank_class cntrl_class print_class graph_class
        alpha_class alnum_class punct_class xdigit_class :
      CharClass

unfoldable pub mask : CharClass → ℕ
mask digit_class = class_digit
mask upper_class = class_upper
mask lower_class = class_lower
mask space_class = class_space
mask blank_class = class_blank
mask cntrl_class = class_cntrl
mask print_class = class_print
mask graph_class = class_graph
mask alpha_class = class_alpha
mask alnum_class = class_alnum
mask punct_class = class_punct
mask xdigit_class = class_xdigit

abbrev between : (low high c : ℕ) → Bool
between low high c = leb low c && leb c high

-- The characters that the C standard puts into a class, for ASCII.
unfoldable pub in_class : CharClass → ℕ → Bool
in_class digit_class c = between b'0' b'9' c
in_class upper_class c = between b'A' b'Z' c
in_class lower_class c = between b'a' b'z' c
in_class space_class c = between 9 13 c || c == 32
in_class blank_class c = c == 9 || c == 32
in_class cntrl_class c = ltb c 32 || c == 127
in_class print_class c = between 32 126 c
in_class graph_class c = between 33 126 c
in_class alpha_class c = between b'A' b'Z' c || between b'a' b'z' c
in_class alnum_class c = between b'0' b'9' c || (between b'A' b'Z' c || between b'a' b'z' c)
in_class punct_class c =
    between 33 47 c || (between 58 64 c || (between 91 96 c || between 123 126 c))
in_class xdigit_class c = between b'0' b'9' c || (between b'A' b'F' c || between b'a' b'f' c)

same : Bool → Bool → Bool
same true b = b
same false b = not b

same-eq : (a b : Bool) → same a b ≡ true → a ≡ b
unfolding same
same-eq true true h = refl
same-eq false false h = refl
same-eq true false h = cc
same-eq false true h = cc

class_table :
    (k : CharClass) → every_below 256 (λ c. same (is_class c (mask k)) (in_class k c)) ≡ true
unfolding every_below same is_class chr_class_table mask in_class
class_table digit_class = refl
class_table upper_class = refl
class_table lower_class = refl
class_table space_class = refl
class_table blank_class = refl
class_table cntrl_class = refl
class_table print_class = refl
class_table graph_class = refl
class_table alpha_class = refl
class_table alnum_class = refl
class_table punct_class = refl
class_table xdigit_class = refl

-- Every class of `chr_class_table` has, of the characters below 256, exactly those that the C
-- standard puts into it; a character above 127 is in none.
pub is_class-in_class : (k : CharClass) (c : ℕ) → c < 256 → is_class c (mask k) ≡ in_class k c
is_class-in_class k c h =
    same-eq (is_class c (mask k)) (in_class k c)
      (every_below-at 256 (λ c. same (is_class c (mask k)) (in_class k c)) c (class_table k) h)
