-- ===== src/Keyboard.antt =====
-- kernel/keyboard.c and the constants of include/keyboard.h: scan codes (set 1) to key codes and
-- to characters.
pub mod Layout
mod Tests
use rxd_os.Prelude.{
  ℕ, ◌+◌, ◌*◌, List, [], ◌∷◌, ◌++◌, bit_and, Outcome, ok, ◌>>=◌, ◌>>◌, assert, load, ltb, leb, ◌==◌,
  if◌then◌else◌, replicate,
}

abbrev pub key_ctrl_l : ℕ
key_ctrl_l = 0x1d

abbrev pub key_shift_l : ℕ
key_shift_l = 0x2a

abbrev pub key_alt_l : ℕ
key_alt_l = 0x38

abbrev pub kb_f_ctrl : ℕ
kb_f_ctrl = 0x0001

abbrev pub kb_f_alt : ℕ
kb_f_alt = 0x0002

abbrev pub kb_f_shift : ℕ
kb_f_shift = 0x0004

-- `keycode[NR_KEYS]`: the 89 entries that the source lists, and the zeros that C fills in.
pub keycode : List ℕ
keycode =
    0
    ∷ 0x01
    ∷ 0x02
    ∷ 0x03
    ∷ 0x04
    ∷ 0x05
    ∷ 0x06
    ∷ 0x07
    ∷ 0x08
    ∷ 0x09
    ∷ 0x0a
    ∷ 0x0b
    ∷ 0x0c
    ∷ 0x0d
    ∷ 0x2b
    ∷ 0x0f
    ∷ 0x10
    ∷ 0x11
    ∷ 0x12
    ∷ 0x13
    ∷ 0x14
    ∷ 0x15
    ∷ 0x16
    ∷ 0x17
    ∷ 0x18
    ∷ 0x19
    ∷ 0x1a
    ∷ 0x1b
    ∷ 0x1c
    ∷ 0x1d
    ∷ 0x1e
    ∷ 0x1f
    ∷ 0x20
    ∷ 0x21
    ∷ 0x22
    ∷ 0x23
    ∷ 0x24
    ∷ 0x25
    ∷ 0x26
    ∷ 0x27
    ∷ 0x28
    ∷ 0x29
    ∷ 0x2a
    ∷ 0x2b
    ∷ 0x2c
    ∷ 0x2d
    ∷ 0x2e
    ∷ 0x2f
    ∷ 0x30
    ∷ 0x31
    ∷ 0x32
    ∷ 0x33
    ∷ 0x34
    ∷ 0x35
    ∷ 0
    ∷ 0
    ∷ 0x38
    ∷ 0x39
    ∷ 0x3a
    ∷ 0x3b
    ∷ 0x3c
    ∷ 0x3d
    ∷ 0x3e
    ∷ 0x3f
    ∷ 0x40
    ∷ 0x41
    ∷ 0x42
    ∷ 0x43
    ∷ 0x44
    ∷ 0x45
    ∷ 0
    ∷ 0
    ∷ 0
    ∷ 0
    ∷ 0
    ∷ 0
    ∷ 0
    ∷ 0
    ∷ 0
    ∷ 0
    ∷ 0
    ∷ 0
    ∷ 0
    ∷ 0
    ∷ 0
    ∷ 0
    ∷ 0
    ∷ 0x57
    ∷ 0x58
    ∷ replicate 39 0

-- `ascii[NR_KEYS * 2]`: for each scan code the plain and the shifted character. The last line
-- stands for the zeros that the source lists from 0x3A on and for those that C fills in.
pub ascii : List ℕ
ascii =
    0
    ∷ 0
    ∷ 0x27
    ∷ 0x27
    ∷ b'1'
    ∷ b'!'
    ∷ b'2'
    ∷ b'@'
    ∷ b'3'
    ∷ b'#'
    ∷ b'4'
    ∷ b'$'
    ∷ b'5'
    ∷ b'%'
    ∷ b'6'
    ∷ b'^'
    ∷ b'7'
    ∷ b'&'
    ∷ b'8'
    ∷ b'*'
    ∷ b'9'
    ∷ b'('
    ∷ b'0'
    ∷ b')'
    ∷ b'-'
    ∷ b'_'
    ∷ b'='
    ∷ b'+'
    ∷ 0x08
    ∷ 0x08
    ∷ 0x09
    ∷ 0x09
    ∷ b'q'
    ∷ b'Q'
    ∷ b'w'
    ∷ b'W'
    ∷ b'e'
    ∷ b'E'
    ∷ b'r'
    ∷ b'R'
    ∷ b't'
    ∷ b'T'
    ∷ b'y'
    ∷ b'Y'
    ∷ b'u'
    ∷ b'U'
    ∷ b'i'
    ∷ b'I'
    ∷ b'o'
    ∷ b'O'
    ∷ b'p'
    ∷ b'P'
    ∷ b'['
    ∷ b'{'
    ∷ b']'
    ∷ b'}'
    ∷ 0
    ∷ 0
    ∷ 0
    ∷ 0
    ∷ b'a'
    ∷ b'A'
    ∷ b's'
    ∷ b'S'
    ∷ b'd'
    ∷ b'D'
    ∷ b'f'
    ∷ b'F'
    ∷ b'g'
    ∷ b'G'
    ∷ b'h'
    ∷ b'H'
    ∷ b'j'
    ∷ b'J'
    ∷ b'k'
    ∷ b'K'
    ∷ b'l'
    ∷ b'L'
    ∷ b';'
    ∷ b':'
    ∷ 0x27
    ∷ b'"'
    ∷ b'`'
    ∷ b'~'
    ∷ 0
    ∷ 0
    ∷ 0x5c
    ∷ b'|'
    ∷ b'z'
    ∷ b'Z'
    ∷ b'x'
    ∷ b'X'
    ∷ b'c'
    ∷ b'C'
    ∷ b'v'
    ∷ b'V'
    ∷ b'b'
    ∷ b'B'
    ∷ b'n'
    ∷ b'N'
    ∷ b'm'
    ∷ b'M'
    ∷ b','
    ∷ b'<'
    ∷ b'.'
    ∷ b'>'
    ∷ b'/'
    ∷ b'?'
    ∷ 0
    ∷ 0
    ∷ b'*'
    ∷ b'*'
    ∷ 0
    ∷ 0
    ∷ 0x20
    ∷ 0x20
    ∷ replicate 140 0

-- `scan_code &= ~(0x80)` on a 32-bit int.
unfoldable pub kb_keycode : ℕ → Outcome ℕ
unfolding keycode
kb_keycode scan_code = do
  let scan_code = bit_and scan_code 0xffffff7f
  assert (ltb scan_code 128)
  load keycode scan_code

-- The assertion compares with the size of the table, which is twice the number of scan codes.
unfoldable pub kb_ascii : (scan_code kb_flag : ℕ) → Outcome ℕ
unfolding ascii
kb_ascii scan_code kb_flag = do
  assert (ltb scan_code 256)
  load ascii (scan_code * 2 + (if bit_and kb_flag kb_f_shift == 0 then 0 else 1))
