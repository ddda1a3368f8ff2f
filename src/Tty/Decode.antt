-- ===== src/Tty/Decode.antt =====
-- What the keyboard handler of kernel/io.c is to do with a stream of scan codes, in terms of keys:
-- a reference that knows neither queues nor flag words.
use rxd_os.Prelude.{ℕ, ◌%◌, Bool, true, false, List, [], ◌∷◌, ◌++◌, ◌&&◌, ltb, ◌==◌, if◌then◌else◌}
use rxd_os.Keyboard.Layout.{key_char, flags}
use rxd_os.Tty.{isprint, Scroll, scroll_of}

-- The modifiers that are held down.
pub record Mods : Type 0 where
  pub ctrl : Bool
  pub alt : Bool
  pub shift : Bool

-- `escaped`: the last scan code was 0xe0, and the next one belongs to it.
pub record Keys : Type 0 where
  pub escaped : Bool
  pub mods : Mods

abbrev pub mods_flag : Mods → ℕ
mods_flag m = flags m.ctrl m.alt m.shift

-- A scan code below 128 says that the key went down, 128 more that it went up.
unfoldable pub decode_key : Mods → ℕ → Mods × List ℕ
decode_key m c =
    let down = ltb c 128 in
    let k = c % 128 in
    if k == 0x1d
    then (record m { ctrl = down }, [])
    else if k == 0x2a
    then (record m { shift = down }, [])
    else if k == 0x38
    then (record m { alt = down }, [])
    else if down && isprint (key_char m.shift k)
    then (m, key_char m.shift k ∷ [])
    else (m, [])

-- The character that a scan code types, if any. What follows 0xe0 is ignored.
unfoldable pub decode : Keys → ℕ → Keys × List ℕ
decode s c =
    if s.escaped
    then (record s { escaped = false }, [])
    else if c == 0xe0
    then (record s { escaped = true }, [])
    else let (m, cs) = decode_key s.mods c in (record { escaped = false; mods = m }, cs)

unfoldable pub scrolls_of : List ℕ → List Scroll
scrolls_of [] = []
scrolls_of (c ∷ cs) = scroll_of c ++ scrolls_of cs

-- The scrolling that a stream of scan codes asks for, and the keys that are held at its end.
unfoldable pub decode_all : Keys → List ℕ → Keys × List Scroll
unfolding scrolls_of
decode_all s [] = (s, [])
decode_all s (c ∷ codes) =
    let (s', cs) = decode s c in
    let (s'', rest) = decode_all s' codes in (s'', scrolls_of cs ++ rest)
