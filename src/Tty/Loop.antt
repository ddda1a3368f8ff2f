-- ===== src/Tty/Loop.antt =====
-- The loops of `tty_cook` and of the interrupt handler in kernel/io.c, on the queues that occur:
-- one key, the first byte of a sequence, and the whole of a sequence.
use rxd_os.Prelude.{
  ℕ, suc, ◌+◌, ◌≤◌, ◌<◌, ◌≡◌, ◌≢◌, refl, List, [], ◌∷◌, ok, arith, length, get_or, set, load-ok,
  store-ok, length-set, get_or-set_self,
}
use native.Mathlib.Numerals.{add-one}
use rxd_os.Tty.{
  TtyQueue, TtyStruct, cs_normal, complete, incomplete, cook_loop, copy_filter, tty_cook_loop,
  drain,
}
use rxd_os.Tty.Queue.{
  Holds, after_enq, after_deq, queue_enq-ok, queue_deq-ok, after_enq-Holds, after_deq-Holds,
}
use rxd_os.Tty.Decode.{Mods, mods_flag, decode_key, scrolls_of}
use rxd_os.Tty.Cook.{cooked_key, cook-decode_key, cook-e0}

module _ (m : Mods) (c : ℕ) (small : c < 256) (fb : List ℕ) (room : 0 < length fb) where
  cook_loop-done :
      (k : ℕ) (tty : TtyStruct)
      → tty.kb_flag ≡ mods_flag m
      → c ≢ 0xe0
      → let (m', cs) = decode_key m c in
        cook_loop (suc k) c cs_normal tty 0 fb
        ≡ ok (
            complete
              (record tty { kb_flag = mods_flag m' })
              (length cs)
              (set fb 0 (get_or cs 0 (get_or fb 0 0))))
  unfolding cook_loop cooked_key
  cook_loop-done k tty e ne = ground (
    arith,
    load-ok fb 0 0 room,
    cook-decode_key m c (get_or fb 0 0) small,
    store-ok fb 0 (get_or (decode_key m c).1 0 (get_or fb 0 0)) room,
  )

  cook_loop-begun :
      (k : ℕ) (tty : TtyStruct)
      → tty.kb_flag ≡ mods_flag m
      → tty.read_q.count ≡ 0
      → cook_loop (suc k) 0xe0 cs_normal tty 0 fb
        ≡ ok (incomplete (record tty { kb_flag = mods_flag m }))
  unfolding cook_loop cooked_key
  cook_loop-begun k tty e none_left = ground (
    arith,
    load-ok fb 0 0 room,
    cook-decode_key m 0xe0 (get_or fb 0 0) (omega arith),
    store-ok fb 0 (get_or fb 0 0) room,
  )

  cook_loop-escaped :
      (k : ℕ) (tty : TtyStruct)
      → tty.kb_flag ≡ mods_flag m
      → Holds tty.read_q (c ∷ [])
      → let out = get_or fb 0 0 in
        let fb' = set fb 0 out in
        cook_loop (suc (suc k)) 0xe0 cs_normal tty 0 fb
        ≡ ok (
            complete
              (record tty { kb_flag = mods_flag m; read_q = after_deq tty.read_q })
              0
              (set fb' 0 (get_or fb' 0 0)))
  unfolding cook_loop cooked_key
  cook_loop-escaped k tty e holds =
      let out : ℕ = get_or fb 0 0 in
      let fb' : List ℕ = set fb 0 out in
      let room' : 0 < length fb' = omega (arith, length-set fb 0 out) in
      ground (
        arith,
        load-ok fb 0 0 room,
        cook-decode_key m 0xe0 out (omega arith),
        store-ok fb 0 out room,
        holds.counted,
        queue_deq-ok holds,
        load-ok fb' 0 0 room',
        cook-e0 c (mods_flag m) (get_or fb' 0 0) small,
        store-ok fb' 0 (get_or fb' 0 0) room',
      )

-- The queue after the characters of one key; a key types one character at most.
abbrev pub typed : List ℕ → TtyQueue → TtyQueue
typed [] q = q
typed (ch ∷ _) q = after_enq q ch

abbrev pub AtMostOne : List ℕ → Type 0
AtMostOne [] = Unit
AtMostOne (ch ∷ []) = ch < 256
AtMostOne (_ ∷ _ ∷ _) = ⊥

length-AtMostOne : (cs : List ℕ) → AtMostOne cs → length cs ≤ 1
length-AtMostOne [] few = omega arith
length-AtMostOne (_ ∷ []) few = omega arith
length-AtMostOne (_ ∷ _ ∷ _) few = absurd few

pub decode_key-AtMostOne : (m : Mods) (c : ℕ) → AtMostOne (decode_key m c).1
unfolding decode_key
decode_key-AtMostOne m c = ground arith

module _ {q : TtyQueue} (empty : Holds q []) where
  copy_filter-typed :
      (cs fb : List ℕ) (d : ℕ)
      → AtMostOne cs
      → 0 < length fb
      → copy_filter (length cs) 0 (set fb 0 (get_or cs 0 d)) q ≡ ok (typed cs q)
  unfolding copy_filter
  copy_filter-typed [] fb d few room = refl
  copy_filter-typed (ch ∷ []) fb d few room = ground (
    arith,
    load-ok (set fb 0 ch) 0 0 (omega (arith, length-set fb 0 ch)),
    get_or-set_self fb 0 ch 0 room,
    queue_enq-ok ch empty (omega arith),
  )
  copy_filter-typed (_ ∷ _ ∷ _) fb d few room = absurd few

  pub drain-typed :
      (cs : List ℕ)
      → AtMostOne cs
      → (q' : TtyQueue) × (drain ((typed cs q).count + 1) (typed cs q) ≡ ok (scrolls_of cs, q'))
        × Holds q' []
  unfolding drain scrolls_of
  drain-typed [] few = (q, ground (arith, empty.counted), empty)
  drain-typed (ch ∷ []) few =
      let full = after_enq-Holds ch empty (omega arith) in
      (
        after_deq (after_enq q ch),
        ground (arith, empty.counted, queue_deq-ok full),
        after_deq-Holds full,
      )
  drain-typed (_ ∷ _ ∷ _) few = absurd few

pub tty_cook_loop-empty :
    (k : ℕ) (tty : TtyStruct) (fb : List ℕ)
    → tty.read_q.count ≡ 0
    → tty_cook_loop (suc k) tty fb ≡ ok tty
unfolding tty_cook_loop
tty_cook_loop-empty k tty fb e = ground arith

-- The queues after a key that needed one scan code.
abbrev pub after_key : Mods → ℕ → TtyStruct → TtyStruct
after_key m c tty =
    let (m', cs) = decode_key m c in
    record {
      kb_flag = mods_flag m';
      read_q = after_deq tty.read_q;
      secondary = typed cs tty.secondary;
    }

module _ (m : Mods) (c : ℕ) (small : c < 256) (fb : List ℕ) (room : 0 < length fb) (tty : TtyStruct)
    (flag : tty.kb_flag ≡ mods_flag m) (drained : Holds tty.secondary []) where
  pub tty_cook_loop-key :
      (k : ℕ)
      → c ≢ 0xe0
      → Holds tty.read_q (c ∷ [])
      → tty_cook_loop (suc (suc k)) tty fb ≡ ok (after_key m c tty)
  unfolding tty_cook_loop
  tty_cook_loop-key k ne holds =
      let cs : List ℕ = (decode_key m c).1 in
      let few : AtMostOne cs = decode_key-AtMostOne m c in
      ground (
        arith,
        holds.counted,
        drained.counted,
        queue_deq-ok holds,
        add-one (after_deq tty.read_q).count,
        cook_loop-done m c small fb room (after_deq tty.read_q).count
            (record tty { read_q = after_deq tty.read_q }) flag ne,
        copy_filter-typed drained cs fb (get_or fb 0 0) few room,
        length-AtMostOne cs few,
        tty_cook_loop-empty k (after_key m c tty) (set fb 0 (get_or cs 0 (get_or fb 0 0))),
      )

  pub tty_cook_loop-begun :
      (k : ℕ)
      → Holds tty.read_q (0xe0 ∷ [])
      → tty_cook_loop (suc k) tty fb ≡ ok (record tty { kb_flag = mods_flag m })
  unfolding tty_cook_loop
  tty_cook_loop-begun k holds = ground (
    arith,
    holds.counted,
    drained.counted,
    queue_deq-ok holds,
    add-one (after_deq tty.read_q).count,
    cook_loop-begun m 0 (omega arith) fb room (after_deq tty.read_q).count
        (record tty { read_q = after_deq tty.read_q }) flag,
  )

  pub tty_cook_loop-escaped :
      (k : ℕ)
      → Holds tty.read_q (0xe0 ∷ c ∷ [])
      → tty_cook_loop (suc (suc k)) tty fb
        ≡ ok (record tty { kb_flag = mods_flag m; read_q = after_deq (after_deq tty.read_q) })
  unfolding tty_cook_loop copy_filter
  tty_cook_loop-escaped k holds =
      let q' : TtyQueue = after_deq tty.read_q in
      let two : q'.count + 1 ≡ suc (suc 0) = omega (arith, holds.counted) in
      let fb' : List ℕ = set fb 0 (get_or fb 0 0) in
      let tty' : TtyStruct = record tty { kb_flag = mods_flag m; read_q = after_deq q' } in
      ground (
        arith,
        holds.counted,
        drained.counted,
        queue_deq-ok holds,
        two,
        cook_loop-escaped m c small fb room 0 (record tty { read_q = q' }) flag
            (after_deq-Holds holds),
        tty_cook_loop-empty k tty' (set fb' 0 (get_or fb' 0 0)),
      )
