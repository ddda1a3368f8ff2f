-- ===== src/Sched/Table.antt =====
-- kernel/proc.c: the slots of the task table.
use native.Mathlib.Decide.{ℕ_discrete}
use rxd_os.Prelude.{
  ℕ, zero, suc, ◌+◌, ◌≤◌, ◌<◌, ◌≡◌, ◌≢◌, refl, sym, ◌∙◌, ap, ◌⊎◌, inl, inr, List, Option, none,
  some, ok, panic, arith, length, get_or, set, load-ok, store-ok, length-set, get_or-set_self,
  get_or-set_ne,
}
use rxd_os.Sched.{nr_task, Sched, get_pid_loop, get_pid, add_task}
use rxd_os.Sched.Choice.{slot, IsValid}

-- The first empty slot at `i` or behind it, or none.
FirstEmpty : (i : ℕ) (table : List ℕ) → Option ℕ → Type 0
FirstEmpty i table none = (j : ℕ) → i ≤ j → j < nr_task → get_or table j 0 ≢ 0
FirstEmpty i table (some k) =
    (i ≤ k)
    × (k < nr_task)
    × (get_or table k 0 ≡ 0)
    × ((j : ℕ) → i ≤ j → j < k → get_or table j 0 ≢ 0)

FirstEmpty-behind :
    (i : ℕ) (table : List ℕ) (o : Option ℕ)
    → get_or table i 0 ≢ 0
    → FirstEmpty (i + 1) table o
    → FirstEmpty i table o
unfolding FirstEmpty
FirstEmpty-behind i table none ne f = λ j a b. elim (ℕ_discrete i j) [
  | yes e ↦ λ z. ne (ap (λ z. get_or table z 0) e ∙ z)
  | no later ↦ f j (omega arith) b
]
FirstEmpty-behind i table (some k) ne f = (
  omega (arith, f.0),
  f.1,
  f.2,
  λ j a b. elim (ℕ_discrete i j) [
    | yes e ↦ λ z. ne (ap (λ z. get_or table z 0) e ∙ z)
    | no later ↦ f.3 j (omega arith) b
  ],
)

get_pid_loop-FirstEmpty :
    (rounds i : ℕ) (table : List ℕ)
    → length table ≡ nr_task
    → i + rounds ≡ nr_task
    → (o : Option ℕ) × (get_pid_loop rounds i table ≡ ok o) × FirstEmpty i table o
unfolding get_pid_loop FirstEmpty
get_pid_loop-FirstEmpty zero i table size e = (none, refl, λ j a b. absurd (omega arith))
get_pid_loop-FirstEmpty (suc rounds) i table size e = elim (ℕ_discrete (get_or table i 0) 0) [
  | yes empty ↦ (
    some i,
    ground (arith, load-ok table i 0 (omega arith)),
    (omega arith, omega arith, empty, λ j a b. absurd (omega arith)),
  )
  | no full ↦
      let (o, run, f) = get_pid_loop-FirstEmpty rounds (i + 1) table size (omega arith) in
      (o, ground (arith, load-ok table i 0 (omega arith)), FirstEmpty-behind i table o full f)
]

-- On a table of 64 slots `get_pid` returns the lowest one that is empty, or -1, and then all are
-- taken.
pub get_pid-lowest :
    (s : Sched)
    → length s.task_table ≡ nr_task
    → (get_pid s ≡ ok none) × ((j : ℕ) → j < nr_task → slot s j ≢ 0)
      ⊎ (k : ℕ) × (get_pid s ≡ ok (some k))
        × (k < nr_task)
        × (slot s k ≡ 0)
        × ((j : ℕ) → j < k → slot s j ≢ 0)
unfolding get_pid FirstEmpty
get_pid-lowest s size = cases (get_pid_loop-FirstEmpty nr_task 0 s.task_table size refl)
  where
    cases :
        (o : Option ℕ) × (get_pid_loop nr_task 0 s.task_table ≡ ok o) × FirstEmpty 0 s.task_table o
        → (get_pid s ≡ ok none) × ((j : ℕ) → j < nr_task → slot s j ≢ 0)
          ⊎ (k : ℕ) × (get_pid s ≡ ok (some k))
            × (k < nr_task)
            × (slot s k ≡ 0)
            × ((j : ℕ) → j < k → slot s j ≢ 0)
    cases (none, run, f) = inl (run, λ j h. f j (omega arith) h)
    cases (some k, run, f) = inr (k, run, f.1, f.2, λ j h. f.3 j (omega arith) h)

-- In a valid state `add_task` of a task that is not NULL and stands nowhere in the table puts it
-- into the slot of its pid, if that is a slot and empty, keeps the state valid and moves no other
-- task.
pub add_task-IsValid :
    {c : ℕ} {s : Sched} (task : ℕ)
    → IsValid c s
    → task ≢ 0
    → ((j : ℕ) → j < nr_task → slot s j ≢ task)
    → (s.tasks task).pid < nr_task
    → slot s (s.tasks task).pid ≡ 0
    → (s' : Sched) × (add_task task s ≡ ok s')
      × IsValid c s'
      × (slot s' (s.tasks task).pid ≡ task)
      × ((j : ℕ) → (s.tasks task).pid ≢ j → slot s' j ≡ slot s j)
unfolding add_task
add_task-IsValid {c} {s} task v live new h empty = (
  record s { task_table = table },
  ground (arith, load-ok s.task_table pid 0 inside, store-ok s.task_table pid task inside),
  record {
    size = length-set s.task_table pid task ∙ v.size;
    inside = v.inside;
    current = kept c away ∙ v.current;
    live = v.live;
    stack = v.stack;
    ldt = v.ldt;
    distinct = distinct;
  },
  placed,
  kept,
)
  where
    pid : ℕ
    pid = (s.tasks task).pid

    table : List ℕ
    table = set s.task_table pid task

    inside : pid < length s.task_table
    inside = omega (arith, v.size)

    placed : get_or table pid 0 ≡ task
    placed = get_or-set_self s.task_table pid task 0 inside

    kept : (j : ℕ) → pid ≢ j → get_or table j 0 ≡ slot s j
    kept j ne = get_or-set_ne s.task_table pid j task 0 ne

    away : pid ≢ c
    away e = v.live (sym v.current ∙ ap (slot s) (sym e) ∙ empty)

    distinct :
        (i j : ℕ)
        → i < nr_task
        → j < nr_task
        → get_or table i 0 ≢ 0
        → get_or table i 0 ≡ get_or table j 0
        → i ≡ j
    distinct i j a b ne e = elim (ℕ_discrete pid i) [
      | yes p ↦ elim (ℕ_discrete pid j) [
        | yes q ↦ sym p ∙ q
        | no q ↦
            absurd (new j b (sym (kept j q) ∙ sym e ∙ ap (λ z. get_or table z 0) (sym p) ∙ placed))
      ]
      | no p ↦ elim (ℕ_discrete pid j) [
        | yes q ↦
            absurd (new i a (sym (kept i p) ∙ e ∙ ap (λ z. get_or table z 0) (sym q) ∙ placed))
        | no q ↦ v.distinct i j a b (λ z. ne (kept i p ∙ z)) (sym (kept i p) ∙ e ∙ kept j q)
      ]
    ]

-- A slot that is taken stops `add_task`.
pub add_task-panic :
    {c : ℕ} {s : Sched} (task : ℕ)
    → IsValid c s
    → (s.tasks task).pid < nr_task
    → slot s (s.tasks task).pid ≢ 0
    → add_task task s ≡ panic
unfolding add_task
add_task-panic {c} {s} task v h full =
    ground (arith, load-ok s.task_table (s.tasks task).pid 0 (omega (arith, v.size)))
