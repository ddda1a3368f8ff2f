-- ===== src/Tty/Queue.antt =====
-- The ring of include/io.h against a list: what a queue holds, oldest first.
use rxd_os.Prelude.{
  ℕ, ◌+◌, ◌-◌, ◌%◌, ◌≤◌, ◌<◌, ◌≡◌, refl, sym, ◌∙◌, List, [], ◌∷◌, ◌++◌, Outcome, ok, panic, arith,
  assert, ltb, le→ltb, ◌>>=◌, ◌>>◌, length, get_or, set, load-ok, store-ok, lt→ltb, length-set,
  length-append, get_or-set_self, get_or-set_ne, get_or-append_left, get_or-append_end,
}
use native.Mathlib.Decide.{dec_lt}
use rxd_os.Tty.{TtyQueue, queue_buf_sz, queue_enq, queue_deq, queue_init}

-- `head` and `tail` stay in the buffer, `tail` lies `count` places after `head`, and the `count`
-- values from `head` on, going round at the end, are those of the list.
pub record Holds (q : TtyQueue) (xs : List ℕ) : Type 0 where
  pub size : length q.buffer ≡ queue_buf_sz
  pub head_in : q.head < queue_buf_sz
  pub tail_in : q.tail ≤ queue_buf_sz
  pub fits : q.count ≤ queue_buf_sz
  pub counted : q.count ≡ length xs
  pub place : q.tail % queue_buf_sz ≡ (q.head + q.count) % queue_buf_sz
  pub values :
      (i : ℕ) → i < q.count → get_or q.buffer ((q.head + i) % queue_buf_sz) 0 ≡ get_or xs i 0

-- The index that a write uses.
abbrev pub slot : TtyQueue → ℕ
slot q = q.tail % queue_buf_sz

abbrev pub after_enq : TtyQueue → ℕ → TtyQueue
after_enq q v = record q {
  tail = slot q + 1;
  count = q.count + 1;
  buffer = set q.buffer (slot q) v;
}

abbrev pub after_deq : TtyQueue → TtyQueue
after_deq q = record q { head = (q.head + 1) % queue_buf_sz; count = q.count - 1 }

pub queue_enq-ok :
    {q : TtyQueue} {xs : List ℕ} (v : ℕ)
    → Holds q xs
    → length xs < queue_buf_sz
    → queue_enq q v ≡ ok (after_enq q v)
unfolding queue_enq
queue_enq-ok {q} v h room = ground (arith, lt→ltb room, store-ok q.buffer (slot q) v (omega arith))

pub queue_deq-ok :
    {q : TtyQueue} {x : ℕ} {xs : List ℕ} → Holds q (x ∷ xs) → queue_deq q ≡ ok (x, after_deq q)
unfolding queue_deq
queue_deq-ok {q} {x} {xs} h =
    let first : get_or q.buffer q.head 0 ≡ x = ground (arith, h.values 0 (omega arith)) in
    ground (arith, first, load-ok q.buffer q.head 0 (omega arith))

pub after_enq-Holds :
    {q : TtyQueue} {xs : List ℕ} (v : ℕ)
    → Holds q xs
    → length xs < queue_buf_sz
    → Holds (after_enq q v) (xs ++ v ∷ [])
after_enq-Holds {q} {xs} v h room = record {
  size = length-set q.buffer (slot q) v ∙ h.size;
  head_in = h.head_in;
  tail_in = omega arith;
  fits = omega arith;
  counted = omega (arith, length-append xs (v ∷ []));
  place = omega arith;
  values = λ i hi. elim (dec_lt i q.count) [
    | yes old ↦
        get_or-set_ne q.buffer (slot q) ((q.head + i) % queue_buf_sz) v 0 (omega arith)
        ∙ h.values i old
        ∙ sym (get_or-append_left xs (v ∷ []) i 0 (omega arith))
    | no new ↦
        ground
          (arith, get_or-set_self q.buffer (slot q) v 0 (omega arith), get_or-append_end xs v 0)
  ];
}

pub after_deq-Holds :
    {q : TtyQueue} {x : ℕ} {xs : List ℕ} → Holds q (x ∷ xs) → Holds (after_deq q) xs
after_deq-Holds {q} {x} {xs} h = record {
  size = h.size;
  head_in = omega arith;
  tail_in = h.tail_in;
  fits = omega arith;
  counted = omega arith;
  place = omega arith;
  values = λ i hi. ground (arith, h.values (i + 1) (omega arith));
}

pub queue_init-Holds : (q : TtyQueue) → length q.buffer ≡ queue_buf_sz → Holds (queue_init q) []
unfolding queue_init
queue_init-Holds q size = record {
  size = size;
  head_in = omega arith;
  tail_in = omega arith;
  fits = omega arith;
  counted = refl;
  place = refl;
  values = λ i h. absurd (omega arith);
}

-- A user of a queue: the values that it takes, in order.
pub data Op : Type 0 where
  enq : ℕ → Op
  deq : Op

unfoldable pub run : TtyQueue → List Op → Outcome (List ℕ)
run q [] = ok []
run q (enq v ∷ ops) = do q ← queue_enq q v; run q ops
run q (deq ∷ ops) = do (v, q) ← queue_deq q; rest ← run q ops; ok (v ∷ rest)

-- The same with a list of at most 16 values, oldest first; an `assert` guards both ends.
unfoldable pub run_list : List ℕ → List Op → Outcome (List ℕ)
run_list xs [] = ok []
run_list xs (enq v ∷ ops) = do assert (ltb (length xs) queue_buf_sz); run_list (xs ++ v ∷ []) ops
run_list [] (deq ∷ ops) = panic
run_list (x ∷ xs) (deq ∷ ops) = do rest ← run_list xs ops; ok (x ∷ rest)

queue_enq-full :
    {q : TtyQueue} {xs : List ℕ} (v : ℕ)
    → Holds q xs
    → queue_buf_sz ≤ length xs
    → queue_enq q v ≡ panic
unfolding queue_enq
queue_enq-full v h full = ground arith

queue_deq-empty : {q : TtyQueue} → Holds q [] → queue_deq q ≡ panic
unfolding queue_deq
queue_deq-empty h = ground arith

-- From a queue that holds a list, no sequence of QUEUE_ENQ and QUEUE_DEQ tells it from the list
-- of at most 16 values: the values come out in the order in which they went in, and the
-- assertions stop exactly an enqueue into a full and a dequeue from an empty queue. No access
-- leaves the buffer.
pub run_refines :
    (ops : List Op) {q : TtyQueue} {xs : List ℕ} → Holds q xs → run q ops ≡ run_list xs ops
unfolding run run_list
run_refines [] h = refl
run_refines (enq v ∷ ops) {q} {xs} h = elim (dec_lt (length xs) queue_buf_sz) [
  | yes room ↦ rw (queue_enq-ok v h room, lt→ltb room) (run_refines ops (after_enq-Holds v h room))
  | no full ↦
      rw (queue_enq-full v h (omega arith), le→ltb {a = length xs} {b = queue_buf_sz} (omega arith))
        refl
]
run_refines (deq ∷ ops) {xs = []} h = rw (queue_deq-empty h) refl
run_refines (deq ∷ ops) {xs = x ∷ xs} h =
    rw (queue_deq-ok h, run_refines ops (after_deq-Holds h)) refl
