-- ===== src/Tty/Cook.antt =====
-- `cook` of kernel/io.c on a scan code, against the reference: checked for every scan code in every
-- state of the modifiers.
use rxd_os.Prelude.{
  ℕ, ◌<◌, ◌≡◌, refl, ap, ◌∙◌, Bool, true, false, ◌&&◌, Outcome, ok, ◌==◌, if◌then◌else◌, length,
  get_or, bit_and, every_below, every_below-at, arith,
}
use rxd_os.Keyboard.{kb_keycode, kb_ascii}
use rxd_os.Keyboard.Layout.{us_layout}
use rxd_os.Tty.{CookState, cs_normal, cs_e0, cs_done, Cooked, cook}
use rxd_os.Tty.Decode.{Mods, mods_flag, decode_key}

-- What `cook` is to leave behind, from `*count = 0` and `*out = out`.
unfoldable pub cooked_key : Mods → (scan_code out : ℕ) → Cooked
cooked_key m c out =
    if c == 0xe0
    then record { cstate = cs_e0; kb_flag = mods_flag m; count = 0; out = out }
    else let (m', cs) = decode_key m c in
      record { cstate = cs_done; kb_flag = mods_flag m'; count = length cs; out = get_or cs 0 out }

same_state : CookState → CookState → Bool
same_state cs_e0 cs_e0 = true
same_state cs_done cs_done = true
same_state _ _ = false

same_state_sound : (a b : CookState) → same_state a b ≡ true → a ≡ b
unfolding same_state
same_state_sound cs_e0 cs_e0 h = refl
same_state_sound cs_done cs_done h = refl
same_state_sound _ _ h = cc

same : Outcome Cooked → Cooked → Bool
same (ok a) b =
    same_state a.cstate b.cstate
    && (a.kb_flag == b.kb_flag && (a.count == b.count && a.out == b.out))
same _ b = false

same_sound : (o : Outcome Cooked) (b : Cooked) → same o b ≡ true → o ≡ ok b
unfolding same
same_sound (ok a) b h = ground (arith, same_state_sound a.cstate b.cstate)
same_sound _ b h = cc

mods : (ctrl alt shift : Bool) → Mods
mods ctrl alt shift = record { ctrl = ctrl; alt = alt; shift = shift }

agrees : Mods → Bool
agrees m = every_below 256 (λ c. same (cook c cs_normal (mods_flag m) 0 0) (cooked_key m c 0))

table : (ctrl alt shift : Bool) → agrees (mods ctrl alt shift) ≡ true
unfolding agrees mods every_below same same_state cook kb_keycode kb_ascii cooked_key decode_key
    us_layout
table true true true = refl
table true true false = refl
table true false true = refl
table true false false = refl
table false true true = refl
table false true false = refl
table false false true = refl
table false false false = refl

cook_zero :
    (m : Mods) (c : ℕ) → c < 256 → cook c cs_normal (mods_flag m) 0 0 ≡ ok (cooked_key m c 0)
unfolding agrees mods
cook_zero m c h = same_sound _ _ (
    every_below-at 256 (λ c. same (cook c cs_normal (mods_flag m) 0 0) (cooked_key m c 0)) c
      (table m.ctrl m.alt m.shift) h)

-- `*out` is written only together with `*count`.
cook_out :
    (c f out : ℕ) (r : Cooked)
    → cook c cs_normal f 0 0 ≡ ok r
    → cook c cs_normal f 0 out ≡ ok (record r { out = if r.count == 0 then out else r.out })
unfolding cook
cook_out c f out r h = ground arith

cooked_key_out :
    (m : Mods) (c out : ℕ)
    → record (cooked_key m c 0) {
      out = if (cooked_key m c 0).count == 0 then out else (cooked_key m c 0).out;
    }
      ≡ cooked_key m c out
unfolding cooked_key decode_key
cooked_key_out m c out = ground arith

-- In CS_NORMAL every scan code below 256, in every state of the modifiers and from a count of 0,
-- does what the reference says: `cook` panics nowhere, updates the flag word, and leaves the
-- character, if there is one, in `*out`.
pub cook-decode_key :
    (m : Mods) (c out : ℕ)
    → c < 256
    → cook c cs_normal (mods_flag m) 0 out ≡ ok (cooked_key m c out)
cook-decode_key m c out h =
    cook_out c (mods_flag m) out (cooked_key m c 0) (cook_zero m c h)
    ∙ ap ok (cooked_key_out m c out)

byte_table : every_below 256 (λ c. bit_and c 0xffffff00 == 0) ≡ true
unfolding every_below
byte_table = refl

-- In CS_E0 every scan code ends the sequence and types nothing.
pub cook-e0 :
    (c f out : ℕ)
    → c < 256
    → cook c cs_e0 f 0 out ≡ ok (record { cstate = cs_done; kb_flag = f; count = 0; out = out })
unfolding cook
cook-e0 c f out h =
    ground (arith, every_below-at 256 (λ c. bit_and c 0xffffff00 == 0) c byte_table h)
