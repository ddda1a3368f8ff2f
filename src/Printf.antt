-- ===== src/Printf.antt =====
-- lib/printf.c: the character classes, and `atoi`. The formatting of arguments is not part of this
-- module.
pub mod Ctype
mod Tests
use rxd_os.Prelude.{
  ℕ, ◌+◌, ◌-◌, ◌%◌, List, [], ◌∷◌, ◌++◌, Bool, not, bit_and, get_or, ◌==◌, if◌then◌else◌, replicate,
}

-- `chr_class_table`: the upper half is 0.
pub chr_class_table : List ℕ
chr_class_table =
    0x1
    ∷ 0x1
    ∷ 0x1
    ∷ 0x1
    ∷ 0x1
    ∷ 0x1
    ∷ 0x1
    ∷ 0x1
    ∷ 0x1
    ∷ 0x7
    ∷ 0x5
    ∷ 0x5
    ∷ 0x5
    ∷ 0x5
    ∷ 0x1
    ∷ 0x1
    ∷ 0x1
    ∷ 0x1
    ∷ 0x1
    ∷ 0x1
    ∷ 0x1
    ∷ 0x1
    ∷ 0x1
    ∷ 0x1
    ∷ 0x1
    ∷ 0x1
    ∷ 0x1
    ∷ 0x1
    ∷ 0x1
    ∷ 0x1
    ∷ 0x1
    ∷ 0x1
    ∷ 0x806
    ∷ 0xe00
    ∷ 0xe00
    ∷ 0xe00
    ∷ 0xe00
    ∷ 0xe00
    ∷ 0xe00
    ∷ 0xe00
    ∷ 0xe00
    ∷ 0xe00
    ∷ 0xe00
    ∷ 0xe00
    ∷ 0xe00
    ∷ 0xe00
    ∷ 0xe00
    ∷ 0xe00
    ∷ 0xdc0
    ∷ 0xdc0
    ∷ 0xdc0
    ∷ 0xdc0
    ∷ 0xdc0
    ∷ 0xdc0
    ∷ 0xdc0
    ∷ 0xdc0
    ∷ 0xdc0
    ∷ 0xdc0
    ∷ 0xe00
    ∷ 0xe00
    ∷ 0xe00
    ∷ 0xe00
    ∷ 0xe00
    ∷ 0xe00
    ∷ 0xe00
    ∷ 0xda8
    ∷ 0xda8
    ∷ 0xda8
    ∷ 0xda8
    ∷ 0xda8
    ∷ 0xda8
    ∷ 0xd28
    ∷ 0xd28
    ∷ 0xd28
    ∷ 0xd28
    ∷ 0xd28
    ∷ 0xd28
    ∷ 0xd28
    ∷ 0xd28
    ∷ 0xd28
    ∷ 0xd28
    ∷ 0xd28
    ∷ 0xd28
    ∷ 0xd28
    ∷ 0xd28
    ∷ 0xd28
    ∷ 0xd28
    ∷ 0xd28
    ∷ 0xd28
    ∷ 0xd28
    ∷ 0xd28
    ∷ 0xe00
    ∷ 0xe00
    ∷ 0xe00
    ∷ 0xe00
    ∷ 0xe00
    ∷ 0xe00
    ∷ 0xdb0
    ∷ 0xdb0
    ∷ 0xdb0
    ∷ 0xdb0
    ∷ 0xdb0
    ∷ 0xdb0
    ∷ 0xd30
    ∷ 0xd30
    ∷ 0xd30
    ∷ 0xd30
    ∷ 0xd30
    ∷ 0xd30
    ∷ 0xd30
    ∷ 0xd30
    ∷ 0xd30
    ∷ 0xd30
    ∷ 0xd30
    ∷ 0xd30
    ∷ 0xd30
    ∷ 0xd30
    ∷ 0xd30
    ∷ 0xd30
    ∷ 0xd30
    ∷ 0xd30
    ∷ 0xd30
    ∷ 0xd30
    ∷ 0xe00
    ∷ 0xe00
    ∷ 0xe00
    ∷ 0xe00
    ∷ 0x1
    ∷ replicate 128 0

abbrev pub class_cntrl : ℕ
class_cntrl = 1

abbrev pub class_blank : ℕ
class_blank = 2

abbrev pub class_space : ℕ
class_space = 4

abbrev pub class_upper : ℕ
class_upper = 8

abbrev pub class_lower : ℕ
class_lower = 16

abbrev pub class_alpha : ℕ
class_alpha = 32

abbrev pub class_digit : ℕ
class_digit = 64

abbrev pub class_xdigit : ℕ
class_xdigit = 128

abbrev pub class_alnum : ℕ
class_alnum = 256

abbrev pub class_punct : ℕ
class_punct = 512

abbrev pub class_graph : ℕ
class_graph = 1024

abbrev pub class_print : ℕ
class_print = 2048

-- The body that `DEF_ISXXX` gives to each test.
pub is_class : (c chr_class : ℕ) → Bool
is_class c chr_class = not (bit_and (get_or chr_class_table (c % 256) 0) chr_class == 0)

abbrev pub isalnum : ℕ → Bool
isalnum c = is_class c class_alnum

abbrev pub isalpha : ℕ → Bool
isalpha c = is_class c class_alpha

abbrev pub isblank : ℕ → Bool
isblank c = is_class c class_blank

abbrev pub iscntrl : ℕ → Bool
iscntrl c = is_class c class_cntrl

abbrev pub isdigit : ℕ → Bool
isdigit c = is_class c class_digit

abbrev pub isgraph : ℕ → Bool
isgraph c = is_class c class_graph

abbrev pub islower : ℕ → Bool
islower c = is_class c class_lower

abbrev pub isprint : ℕ → Bool
isprint c = is_class c class_print

abbrev pub ispunct : ℕ → Bool
ispunct c = is_class c class_punct

abbrev pub isspace : ℕ → Bool
isspace c = is_class c class_space

abbrev pub isupper : ℕ → Bool
isupper c = is_class c class_upper

abbrev pub isxdigit : ℕ → Bool
isxdigit c = is_class c class_xdigit

pub tolower : ℕ → ℕ
tolower c = if isupper c then c - b'A' + b'a' else c

pub toupper : ℕ → ℕ
toupper c = if islower c then c - b'a' + b'A' else c
