-- ===== src/Tty/Interrupt.antt =====
-- The keyboard interrupt of kernel/io.c against the reference decoder.
use rxd_os.Prelude.{
  ℕ, suc, ◌+◌, ◌<◌, ◌≡◌, ◌≢◌, refl, sym, Bool, true, false, List, [], ◌∷◌, ok, arith, if◌then◌else◌,
  length, ==_ne,
}
use mathlib.Core.Path.{subst}
use native.Mathlib.Decide.{ℕ_discrete}
use rxd_os.Tty.{TtyStruct, tty_cook, on_keyboard_interrupt, interrupts, tty_init, queue_buf_sz}
use rxd_os.Tty.Queue.{
  Holds, after_enq, after_deq, queue_enq-ok, after_enq-Holds, after_deq-Holds, queue_init-Holds,
}
use rxd_os.Tty.Decode.{Mods, Keys, mods_flag, decode_key, decode, scrolls_of, decode_all}
use rxd_os.Tty.Loop.{
  after_key, decode_key-AtMostOne, drain-typed, tty_cook_loop-key, tty_cook_loop-begun,
  tty_cook_loop-escaped,
}

-- Between two interrupts: the flag word says which modifiers are held, `read_q` holds at most the
-- 0xe0 of a sequence that has only begun, and `secondary` is empty.
pub record Idle (s : Keys) (tty : TtyStruct) : Type 0 where
  pub flag : tty.kb_flag ≡ mods_flag s.mods
  pub waiting : Holds tty.read_q (if s.escaped then 0xe0 ∷ [] else [])
  pub drained : Holds tty.secondary []

-- What an interrupt is to come to.
abbrev pub Handled : Keys → ℕ → List ℕ → TtyStruct → Type 0
Handled s c fb tty =
    let (s', cs) = decode s c in
    (tty' : TtyStruct) × (on_keyboard_interrupt fb c tty ≡ ok (scrolls_of cs, tty')) × Idle s' tty'

abbrev pub keys : Bool → Mods → Keys
keys escaped m = record { escaped = escaped; mods = m }

module _ (m : Mods) (c : ℕ) (small : c < 256) (fb : List ℕ) (room : 0 < length fb)
    (tty : TtyStruct) where
  interrupt-key : c ≢ 0xe0 → Idle (keys false m) tty → Handled (keys false m) c fb tty
  unfolding on_keyboard_interrupt tty_cook decode
  interrupt-key ne idle =
      let cs : List ℕ = (decode_key m c).1 in
      let tty1 : TtyStruct = record tty { read_q = after_enq tty.read_q c } in
      let one = after_enq-Holds c idle.waiting (omega arith) in
      let two : (after_enq tty.read_q c).count + 1 ≡ suc (suc 0) =
        omega (arith, idle.waiting.counted) in
      let (q', run, drained) = drain-typed idle.drained cs (decode_key-AtMostOne m c) in
      rw (==_ne ne) (
        record (after_key m c tty1) { secondary = q' },
        ground (
          arith,
          idle.waiting.counted,
          two,
          queue_enq-ok c idle.waiting (omega arith),
          tty_cook_loop-key m c small fb room tty1 idle.flag idle.drained 0 ne one,
          run,
        ),
        record { flag = refl; waiting = after_deq-Holds one; drained = drained },
      )

  interrupt-begun : Idle (keys false m) tty → Handled (keys false m) 0xe0 fb tty
  unfolding on_keyboard_interrupt tty_cook decode
  interrupt-begun idle =
      let tty1 : TtyStruct = record tty { read_q = after_enq tty.read_q 0xe0 } in
      let one = after_enq-Holds 0xe0 idle.waiting (omega arith) in
      let two : (after_enq tty.read_q 0xe0).count + 1 ≡ suc (suc 0) =
        omega (arith, idle.waiting.counted) in
      let (q', run, drained) = drain-typed idle.drained [] tt in
      (
        record tty1 { kb_flag = mods_flag m; secondary = q' },
        ground (
          arith,
          idle.waiting.counted,
          two,
          queue_enq-ok 0xe0 idle.waiting (omega arith),
          tty_cook_loop-begun m c small fb room tty1 idle.flag idle.drained (suc 0) one,
          run,
        ),
        record { flag = refl; waiting = one; drained = drained },
      )

  interrupt-escaped : Idle (keys true m) tty → Handled (keys true m) c fb tty
  unfolding on_keyboard_interrupt tty_cook decode
  interrupt-escaped idle =
      let tty1 : TtyStruct = record tty { read_q = after_enq tty.read_q c } in
      let both = after_enq-Holds c idle.waiting (omega arith) in
      let three : (after_enq tty.read_q c).count + 1 ≡ suc (suc 1) =
        omega (arith, idle.waiting.counted) in
      let (q', run, drained) = drain-typed idle.drained [] tt in
      (
        record tty1 {
          kb_flag = mods_flag m;
          read_q = after_deq (after_deq tty1.read_q);
          secondary = q';
        },
        ground (
          arith,
          idle.waiting.counted,
          three,
          queue_enq-ok c idle.waiting (omega arith),
          tty_cook_loop-escaped m c small fb room tty1 idle.flag idle.drained 1 both,
          run,
        ),
        record { flag = refl; waiting = after_deq-Holds (after_deq-Holds both); drained = drained },
      )

  -- The fields of the decoder's state stand apart, to be matched.
  interrupt_cases : (escaped : Bool) → Idle (keys escaped m) tty → Handled (keys escaped m) c fb tty
  interrupt_cases true idle = interrupt-escaped idle
  interrupt_cases false idle = elim (ℕ_discrete c 0xe0) [
    | yes e ↦ subst (λ c. Handled (keys false m) c fb tty) (sym e) (interrupt-begun idle)
    | no ne ↦ interrupt-key ne idle
  ]

-- One keyboard interrupt in an idle terminal, at any scan code below 256 and with anything in a
-- `filter_buf` that has room for a character, returns: it does not panic and touches nothing
-- outside the queues. It scrolls as the reference decoder says, and leaves the terminal idle in
-- the state of the decoder.
pub on_keyboard_interrupt-decode :
    (s : Keys) (c : ℕ) (fb : List ℕ) (tty : TtyStruct)
    → c < 256
    → 0 < length fb
    → Idle s tty
    → (tty' : TtyStruct) × (on_keyboard_interrupt fb c tty ≡ ok (scrolls_of (decode s c).1, tty'))
      × Idle (decode s c).0 tty'
on_keyboard_interrupt-decode s c fb tty small room idle =
    interrupt_cases s.mods c small fb room tty s.escaped idle

-- Scan codes are bytes, and a stack buffer has room for a character.
abbrev pub AllBytes : List (List ℕ × ℕ) → Type 0
AllBytes [] = Unit
AllBytes ((fb, c) ∷ codes) = (0 < length fb) × (c < 256) × AllBytes codes

abbrev pub scan_codes : List (List ℕ × ℕ) → List ℕ
scan_codes [] = []
scan_codes ((_, c) ∷ codes) = c ∷ scan_codes codes

interrupts-decode_all :
    (codes : List (List ℕ × ℕ)) (s : Keys) (tty : TtyStruct)
    → AllBytes codes
    → Idle s tty
    → (tty' : TtyStruct) × (interrupts codes tty ≡ ok ((decode_all s (scan_codes codes)).1, tty'))
      × Idle (decode_all s (scan_codes codes)).0 tty'
unfolding interrupts decode_all
interrupts-decode_all [] s tty bytes idle = (tty, refl, idle)
interrupts-decode_all ((fb, c) ∷ codes) s tty bytes idle =
    let (tty1, first, idle1) = on_keyboard_interrupt-decode s c fb tty bytes.1 bytes.0 idle in
    let (tty2, rest, idle2) = interrupts-decode_all codes (decode s c).0 tty1 bytes.2 idle1 in
    (tty2, rw (first, rest), idle2)

abbrev pub no_keys : Keys
no_keys = keys false (record { ctrl = false; alt = false; shift = false })

tty_init-Idle :
    (tty : TtyStruct)
    → tty.kb_flag ≡ 0
    → length tty.read_q.buffer ≡ queue_buf_sz
    → length tty.secondary.buffer ≡ queue_buf_sz
    → Idle no_keys (tty_init tty)
unfolding tty_init
tty_init-Idle tty flag read second = record {
  flag = flag;
  waiting = queue_init-Holds tty.read_q read;
  drained = queue_init-Holds tty.secondary second;
}

-- From the state that `tty_init` makes of a terminal with no flag set and with buffers of 16
-- places, whatever they held, no sequence of scan codes below 256 makes the keyboard interrupts
-- panic, "keyboard buffer is full" included, if `filter_buf` has room for a character. Their
-- calls of `scroll_screen` are those of the reference decoder, and they end in the decoder's
-- state.
pub interrupts-tty_init :
    (codes : List (List ℕ × ℕ)) (tty : TtyStruct)
    → AllBytes codes
    → tty.kb_flag ≡ 0
    → length tty.read_q.buffer ≡ queue_buf_sz
    → length tty.secondary.buffer ≡ queue_buf_sz
    → (tty' : TtyStruct) × (interrupts codes (tty_init tty)
        ≡ ok ((decode_all no_keys (scan_codes codes)).1, tty'))
      × Idle (decode_all no_keys (scan_codes codes)).0 tty'
interrupts-tty_init codes tty bytes flag read second =
    interrupts-decode_all codes no_keys (tty_init tty) bytes (tty_init-Idle tty flag read second)
