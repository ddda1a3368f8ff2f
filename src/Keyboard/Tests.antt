-- ===== src/Keyboard/Tests.antt =====
-- kernel/keyboard.c: the theorem of the character table at one key.
use rxd_os.Prelude.{◌≡◌, false, true, ok, arith}
use rxd_os.Keyboard.{kb_ascii}
use rxd_os.Keyboard.Layout.{us_layout, flags, kb_ascii-us_layout}

-- "J" with shift.
kb_ascii-us_layout_example : kb_ascii 0x24 (flags false false true) ≡ ok 74
unfolding us_layout
kb_ascii-us_layout_example = kb_ascii-us_layout false false true 0x24 (omega arith)
