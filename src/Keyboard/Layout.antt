-- ===== src/Keyboard/Layout.antt =====
-- kernel/keyboard.c: the tables against the rows of keys on a US keyboard.
use Prim.Native.Char.{code}
use Prim.Native.String.{String}
use rxd_os.Prelude.{
  ℕ, ◌+◌, ◌-◌, ◌<◌, ◌≡◌, refl, Bool, true, false, ◌||◌, List, [], ◌∷◌, Outcome, ok, ltb, ◌==◌,
  if◌then◌else◌, length, get_or, every_below, every_below-at, arith,
}
use rxd_os.Keyboard.{kb_ascii}

abbrev codes : String → List ℕ
codes String.[] = []
codes (String.◌∷◌ c s) = code c ∷ codes s

-- A row of keys with consecutive scan codes, without and with shift.
record Row : Type 0 where
  first : ℕ
  plain : List ℕ
  shifted : List ℕ

abbrev row : ℕ → String → String → Row
row k s t = record { first = k; plain = codes s; shifted = codes t }

-- The keys that the comments of the table name with a character: ESC is 0x1b and RETURN and Enter are 0x0d.
-- The keys of the keypad are named there as keys that move the cursor, but for its `*`, `-` and `+`.
us_rows : List Row
us_rows =
    record { first = 0x01; plain = 27 ∷ []; shifted = 27 ∷ [] }
    ∷ row 0x02 "1234567890-=" "!@#$%^&*()_+"
    ∷ record { first = 0x0e; plain = 8 ∷ 9 ∷ []; shifted = 8 ∷ 9 ∷ [] }
    ∷ row 0x10 "qwertyuiop[]" "QWERTYUIOP{}"
    ∷ record { first = 0x1c; plain = 13 ∷ []; shifted = 13 ∷ [] }
    ∷ row 0x1e "asdfghjkl;'`" "ASDFGHJKL:\"~"
    ∷ row 0x2b "\\zxcvbnm,./" "|ZXCVBNM<>?"
    ∷ row 0x37 "*" "*"
    ∷ row 0x39 " " " "
    ∷ row 0x4a "-" "-"
    ∷ row 0x4e "+" "+"
    ∷ record { first = 0x54; plain = 13 ∷ []; shifted = 13 ∷ [] }
    ∷ []

find_key : List Row → Bool → ℕ → ℕ
find_key [] shift k = 0
find_key (r ∷ rs) shift k =
    let rest = find_key rs shift k in
    if ltb k r.first
    then rest
    else if ltb (k - r.first) (length r.plain)
    then get_or (if shift then r.shifted else r.plain) (k - r.first) 0
    else rest

-- The character of a key, 0 for a key without one.
unfoldable pub us_layout : Bool → ℕ → ℕ
unfolding us_rows find_key
us_layout shift k = find_key us_rows shift k

abbrev bit : Bool → ℕ → ℕ
bit true n = n
bit false n = 0

-- The flag word with the three modifier bits of include/keyboard.h.
abbrev pub flags : (ctrl alt shift : Bool) → ℕ
flags ctrl alt shift = bit ctrl 1 + bit alt 2 + bit shift 4

is_ok : Outcome ℕ → ℕ → Bool
is_ok (ok a) b = a == b
is_ok _ b = false

is_ok_sound : (o : Outcome ℕ) (b : ℕ) → is_ok o b ≡ true → o ≡ ok b
unfolding is_ok
is_ok_sound (ok a) b h = ground arith
is_ok_sound _ b h = cc

-- RETURN, the `-` and the `+` of the keypad, and Enter.
abbrev pub is_silent : ℕ → Bool
is_silent k = k == 0x1c || (k == 0x4a || (k == 0x4e || k == 0x54))

-- What the table holds for a key: the layout, except that ESC has the character 0x27 and that four keys
-- have none.
abbrev pub key_char : Bool → ℕ → ℕ
key_char shift k = if k == 1 then 0x27 else if is_silent k then 0 else us_layout shift k

agrees : (flag : ℕ) (shift : Bool) → Bool
agrees flag shift = every_below 128 (λ k. is_ok (kb_ascii k flag) (key_char shift k))

table : (ctrl alt shift : Bool) → agrees (flags ctrl alt shift) shift ≡ true
unfolding agrees every_below is_ok kb_ascii us_layout
table true true true = refl
table true true false = refl
table true false true = refl
table true false false = refl
table false true true = refl
table false true false = refl
table false false true = refl
table false false false = refl

-- For every key below 128 and every state of the modifiers `kb_ascii` stays inside its table and
-- returns the character of the US layout, with shift taken from the flag word alone, except for five keys
-- of that layout: ESC gets 0x27, the apostrophe, and not 0x1b, and RETURN, the `-` and the `+` of the
-- keypad, and Enter get 0 as keys without a character do.
pub kb_ascii-us_layout :
    (ctrl alt shift : Bool) (k : ℕ)
    → k < 128
    → kb_ascii k (flags ctrl alt shift)
      ≡ ok (if k == 1 then 0x27 else if is_silent k then 0 else us_layout shift k)
unfolding agrees
kb_ascii-us_layout ctrl alt shift k h = is_ok_sound _ _ (
    every_below-at 128 (λ k. is_ok (kb_ascii k (flags ctrl alt shift)) (key_char shift k)) k
      (table ctrl alt shift) h)
