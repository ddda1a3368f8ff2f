-- ===== src/Tty/Tests.antt =====
-- kernel/io.c and include/io.h: the theorems at concrete queues and scan codes.
use rxd_os.Prelude.{ℕ, ◌≡◌, refl, List, [], ◌∷◌, ok, arith, replicate}
use rxd_os.Tty.{
  TtyQueue, TtyStruct, cs_normal, cook, scroll_forward, queue_init, tty_init, on_keyboard_interrupt,
  interrupts,
}
use rxd_os.Keyboard.Layout.{us_layout}
use rxd_os.Tty.Queue.{enq, deq, run, run_list, run_refines, queue_init-Holds}
use rxd_os.Tty.Decode.{mods_flag, decode_key, decode, decode_all, scrolls_of}
use rxd_os.Tty.Cook.{cooked_key, cook-decode_key}
use rxd_os.Tty.Interrupt.{
  Idle, scan_codes, AllBytes, no_keys, on_keyboard_interrupt-decode, interrupts-tty_init,
}

-- A terminal whose queues hold what was in memory.
abbrev stale : TtyQueue
stale = record { head = 3; tail = 9; count = 5; buffer = replicate 16 7 }

abbrev terminal : TtyStruct
terminal = record { kb_flag = 0; read_q = stale; secondary = stale }

abbrev byte : List ℕ
byte = 0 ∷ []

-- The right control key, whose code ends a sequence, then "J" with shift.
abbrev codes : List (List ℕ × ℕ)
codes = (byte, 0xe0) ∷ (byte, 0x1d) ∷ (byte, 0x2a) ∷ (byte, 0x24) ∷ []

codes-AllBytes : AllBytes codes
codes-AllBytes = (
  omega arith,
  omega arith,
  (omega arith, omega arith, (omega arith, omega arith, (omega arith, omega arith, tt))),
)

interrupts-tty_init_example :
    (tty' : TtyStruct) × (interrupts codes (tty_init terminal) ≡ ok (scroll_forward ∷ [], tty'))
    × Idle (decode_all no_keys (scan_codes codes)).0 tty'
unfolding decode_all decode decode_key scrolls_of us_layout
interrupts-tty_init_example = interrupts-tty_init codes terminal codes-AllBytes refl refl refl

empty_terminal : Idle no_keys (tty_init terminal)
unfolding tty_init
empty_terminal = record {
  flag = refl;
  waiting = queue_init-Holds stale refl;
  drained = queue_init-Holds stale refl;
}

on_keyboard_interrupt-decode_example :
    (tty' : TtyStruct) × (on_keyboard_interrupt byte 0x24 (tty_init terminal)
      ≡ ok (scrolls_of (decode no_keys 0x24).1, tty'))
    × Idle (decode no_keys 0x24).0 tty'
on_keyboard_interrupt-decode_example =
    on_keyboard_interrupt-decode no_keys 0x24 byte (tty_init terminal) (omega arith) (omega arith)
      empty_terminal

cook-decode_key_example :
    cook 0x24 cs_normal (mods_flag no_keys.mods) 0 0 ≡ ok (cooked_key no_keys.mods 0x24 0)
cook-decode_key_example = cook-decode_key no_keys.mods 0x24 0 (omega arith)

run_refines_example :
    run (queue_init stale) (enq 1 ∷ enq 2 ∷ deq ∷ enq 3 ∷ deq ∷ []) ≡ ok (1 ∷ 2 ∷ [])
unfolding run_list
run_refines_example =
    run_refines (enq 1 ∷ enq 2 ∷ deq ∷ enq 3 ∷ deq ∷ []) (queue_init-Holds stale refl)
