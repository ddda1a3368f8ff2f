-- ===== src/Tty.antt =====
-- kernel/io.c and the queue macros of include/io.h: the keyboard queue, the scan code state machine
-- and the keyboard interrupt.
pub mod Queue
pub mod Decode
pub mod Cook
pub mod Loop
pub mod Interrupt
mod Tests
use rxd_os.Prelude.{
  ℕ, zero, suc, ◌+◌, ◌-◌, ◌%◌, Bool, not, ◌&&◌, ◌||◌, List, [], ◌∷◌, ◌++◌, bit_and, bit_or, Outcome,
  ok, panic, out_of_fuel, ◌>>=◌, ◌>>◌, assert, load, store, ltb, leb, ◌==◌, if◌then◌else◌,
}
use rxd_os.Keyboard.{key_ctrl_l, key_shift_l, key_alt_l, kb_f_ctrl, kb_f_shift, kb_f_alt}
use rxd_os.Keyboard.{kb_keycode, kb_ascii}

abbrev pub queue_buf_sz : ℕ
queue_buf_sz = 16

-- `struct tty_queue`. The pointers `head` and `tail` are kept as their distance from `buffer`.
pub record TtyQueue : Type 0 where
  pub head : ℕ
  pub tail : ℕ
  pub count : ℕ
  pub buffer : List ℕ

pub record TtyStruct : Type 0 where
  pub kb_flag : ℕ
  pub read_q : TtyQueue
  pub secondary : TtyQueue

abbrev pub queue_full : TtyQueue → Bool
queue_full q = q.count == queue_buf_sz

abbrev pub queue_empty : TtyQueue → Bool
queue_empty q = q.count == 0

pub queue_init : TtyQueue → TtyQueue
queue_init q = record q { head = 0; tail = 0; count = 0 }

-- `tail` is brought back into the buffer just before the write.
pub queue_enq : TtyQueue → ℕ → Outcome TtyQueue
queue_enq q v = do
  assert (ltb q.count queue_buf_sz)
  let tail = (if leb queue_buf_sz q.tail then q.tail - queue_buf_sz else q.tail)
  buffer ← store q.buffer tail v
  ok (record q { tail = tail + 1; count = q.count + 1; buffer = buffer })

-- `head` is brought back into the buffer just after the read.
pub queue_deq : TtyQueue → Outcome (ℕ × TtyQueue)
queue_deq q = do
  assert (ltb 0 q.count)
  v ← load q.buffer q.head
  let head = q.head + 1
  let head' = (if leb queue_buf_sz head then head - queue_buf_sz else head)
  ok (v, record q { head = head'; count = q.count - 1 })

pub tty_init : TtyStruct → TtyStruct
unfolding queue_init
tty_init tty = record tty { read_q = queue_init tty.read_q; secondary = queue_init tty.secondary }

-- `isprint` of kernel/io.c.
abbrev pub isprint : ℕ → Bool
isprint c = leb 0x20 c && leb c 0x7e

pub data CookState : Type 0 where
  cs_error cs_normal cs_e0 cs_done : CookState

-- What `cook` returns, and what it leaves in `*kb_flag`, `*count` and `*out`.
pub record Cooked : Type 0 where
  pub cstate : CookState
  pub kb_flag : ℕ
  pub count : ℕ
  pub out : ℕ

-- `(scan_code & 0x80) ? (kb_flag & ~mask) : (kb_flag | mask)`
abbrev pub toggle : (scan_code kb_flag mask : ℕ) → ℕ
toggle scan_code kb_flag mask =
    if bit_and scan_code 0x80 == 0 then bit_or kb_flag mask else bit_and kb_flag (0xffffffff - mask)

abbrev cooked : CookState → ℕ → ℕ → ℕ → Outcome Cooked
cooked s flag n c = ok (record { cstate = s; kb_flag = flag; count = n; out = c })

-- The case CS_NORMAL of `cook`.
cook_normal : (scan_code kb_flag count out : ℕ) → Outcome Cooked
cook_normal scan_code kb_flag count out =
    if scan_code == 0xe0 then cooked cs_e0 kb_flag count out else (do
      keycode ← kb_keycode scan_code
      if keycode == key_ctrl_l
          then cooked cs_done (toggle scan_code kb_flag kb_f_ctrl) count out
          else if keycode == key_shift_l
          then cooked cs_done (toggle scan_code kb_flag kb_f_shift) count out
          else if keycode == key_alt_l
          then cooked cs_done (toggle scan_code kb_flag kb_f_alt) count out
          else if bit_and scan_code 0x80 == 0
          then (do
            c ← kb_ascii scan_code kb_flag
            if isprint c then cooked cs_done kb_flag 1 c else cooked cs_done kb_flag count out)
          else cooked cs_done kb_flag count out)

pub cook : (scan_code : ℕ) → CookState → (kb_flag count out : ℕ) → Outcome Cooked
unfolding cook_normal
cook scan_code cstate kb_flag count out = do
  assert ((bit_and scan_code 0xffffff00 == 0) && (count == 0))
  elim cstate [
    | cs_normal ↦ cook_normal scan_code kb_flag count out
    | cs_e0 ↦ cooked cs_done kb_flag count out
    | cs_done ↦ panic
    | cs_error ↦ panic
  ]

-- How the inner loop of `tty_cook` ends: a whole key was read, or the queue ran out in a sequence.
pub data KeyRead : Type 0 where
  complete : TtyStruct → ℕ → List ℕ → KeyRead
  incomplete : TtyStruct → KeyRead

-- The inner loop, from a scan code that was just taken from the queue.
cook_loop : ℕ → ℕ → CookState → TtyStruct → (filter_cnt : ℕ) → List ℕ → Outcome KeyRead
cook_loop zero scan_code state tty filter_cnt filter_buf = out_of_fuel
cook_loop (suc fuel) scan_code state tty filter_cnt filter_buf = do
  out ← load filter_buf 0
  r ← cook scan_code state tty.kb_flag filter_cnt out
  filter_buf ← store filter_buf 0 r.out
  let tty = record tty { kb_flag = r.kb_flag }
  elim r.cstate [
    | cs_done ↦ ok (complete tty r.count filter_buf)
    | _ ↦ if queue_empty tty.read_q then ok (incomplete tty) else (do
      (scan_code, q) ← queue_deq tty.read_q
      cook_loop fuel scan_code r.cstate (record tty { read_q = q }) r.count filter_buf)
  ]

-- `while (--filter_cnt >= 0) { QUEUE_ENQ(tty->secondary, *(p++)); }`
copy_filter : (filter_cnt p : ℕ) → List ℕ → TtyQueue → Outcome TtyQueue
copy_filter zero p filter_buf q = ok q
copy_filter (suc filter_cnt) p filter_buf q = do
  c ← load filter_buf p
  q ← queue_enq q c
  copy_filter filter_cnt (p + 1) filter_buf q

-- The queue is restored by its head and its count; its tail did not move.
abbrev restore : TtyStruct → TtyQueue → TtyStruct
restore tty saved = record tty {
  read_q = record (tty.read_q) { head = saved.head; count = saved.count };
}

-- The outer loop. `filter_buf` lives outside of it and keeps what an earlier round left there.
pub tty_cook_loop : ℕ → TtyStruct → List ℕ → Outcome TtyStruct
tty_cook_loop zero tty filter_buf = out_of_fuel
tty_cook_loop (suc fuel) tty filter_buf =
    if not (queue_full tty.secondary) && not (queue_empty tty.read_q)
    then (do
      (scan_code, q) ← queue_deq tty.read_q
      key ← cook_loop (q.count + 1) scan_code cs_normal (record tty { read_q = q }) 0 filter_buf
      elim key [
        | incomplete tty' ↦ ok (restore tty' tty.read_q)
        | complete tty' filter_cnt filter_buf' ↦
            if ltb (queue_buf_sz - tty'.secondary.count) filter_cnt
            then ok (restore tty' tty.read_q)
            else (do
              secondary ← copy_filter filter_cnt 0 filter_buf' tty'.secondary
              tty_cook_loop fuel (record tty' { secondary = secondary }) filter_buf')
      ])
    else ok tty

-- Each round takes at least one scan code. `filter_buf` starts with whatever the stack held.
pub tty_cook : (filter_buf : List ℕ) → TtyStruct → Outcome TtyStruct
unfolding tty_cook_loop cook_loop copy_filter
tty_cook filter_buf tty = tty_cook_loop (tty.read_q.count + 1) tty filter_buf

-- A call of `scroll_screen`, with 3 or with -3.
pub data Scroll : Type 0 where
  scroll_forward scroll_back : Scroll

abbrev pub scroll_of : ℕ → List Scroll
scroll_of c =
    if c == b'j' || c == b'J'
    then scroll_forward ∷ []
    else if c == b'k' || c == b'K'
    then scroll_back ∷ []
    else []

-- The loop of the interrupt handler over `secondary`; `scan_code` is an unsigned char.
pub drain : ℕ → TtyQueue → Outcome (List Scroll × TtyQueue)
drain zero q = out_of_fuel
drain (suc fuel) q =
    if queue_empty q
    then ok ([], q)
    else (do (c, q) ← queue_deq q; (rest, q) ← drain fuel q; ok (scroll_of (c % 256) ++ rest, q))

-- `scan_code` is what `inb(0x60)` reads. The result lists the calls of `scroll_screen`.
pub on_keyboard_interrupt :
    (filter_buf : List ℕ) (scan_code : ℕ) → TtyStruct → Outcome (List Scroll × TtyStruct)
unfolding drain
on_keyboard_interrupt filter_buf scan_code tty = if queue_full tty.read_q then panic else (do
  q ← queue_enq tty.read_q scan_code
  tty ← tty_cook filter_buf (record tty { read_q = q })
  (scrolls, secondary) ← drain (tty.secondary.count + 1) tty.secondary
  ok (scrolls, record tty { secondary = secondary }))

-- The interrupts of a sequence of scan codes. Each finds its own `filter_buf` on the stack.
pub interrupts : List (List ℕ × ℕ) → TtyStruct → Outcome (List Scroll × TtyStruct)
interrupts [] tty = ok ([], tty)
interrupts ((filter_buf, scan_code) ∷ codes) tty = do
  (first, tty) ← on_keyboard_interrupt filter_buf scan_code tty
  (rest, tty) ← interrupts codes tty
  ok (first ++ rest, tty)
