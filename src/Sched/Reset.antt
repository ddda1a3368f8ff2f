-- ===== src/Sched/Reset.antt =====
-- kernel/proc.c: `schedule` when no task has time left.
use native.Mathlib.Decide.{ℕ_discrete}
use rxd_os.Prelude.{
  ℕ, zero, suc, ◌+◌, ◌≤◌, ◌<◌, ◌≡◌, ◌≢◌, refl, sym, ◌∙◌, ap, inl, inr, Bool, true, false, not, ◌&&◌,
  ◌||◌, List, ok, arith, ◌==◌, if◌then◌else◌, length, get_or, load-ok,
}
use rxd_os.Sched.{nr_task, Task, Sched, update, next_slot, reset, schedule}
use rxd_os.Sched.Choice.{
  slot, ready, IsValid, candidate, slot-load, find_current-ok, Picked, pick-Picked,
}
use rxd_os.Sched.Tick.{Ran, schedule-ready}

-- `a` is the address of a task in one of the `rounds` slots from `p` on.
pub listed : (rounds p a : ℕ) → List ℕ → Bool
listed zero p a table = false
listed (suc rounds) p a table =
    (not (get_or table p 0 == 0) && get_or table p 0 == a) || listed rounds (p + 1) a table

abbrev pub refreshed : Task → Task
refreshed t = record t { timespan = t.priority }

-- The tasks in some slots of the table have their priority as their time; nothing else changed.
pub record Refreshed (rounds p : ℕ) (s s' : Sched) : Type 0 where
  pub table : s'.task_table ≡ s.task_table
  pub current : s'.current_task ≡ s.current_task
  pub stack : s'.esp0 ≡ s.esp0
  pub ldt : s'.ldtr ≡ s.ldtr
  pub times :
      (a : ℕ)
      → s'.tasks a ≡ (if listed rounds p a s.task_table then refreshed (s.tasks a) else s.tasks a)

reset-Refreshed :
    (rounds p : ℕ) (s : Sched)
    → length s.task_table ≡ nr_task
    → p + rounds ≡ nr_task
    → (s' : Sched) × (reset rounds p s ≡ ok s') × Refreshed rounds p s s'
unfolding reset listed
reset-Refreshed zero p s size e =
    (s, refl, record { table = refl; current = refl; stack = refl; ldt = refl; times = λ a. refl })
reset-Refreshed (suc rounds) p s size e =
    let t : ℕ = slot s p in
    let s1 : Sched =
      (if t == 0 then s else record s { tasks = update s.tasks t (refreshed (s.tasks t)) }) in
    let same : s1.task_table ≡ s.task_table = ground arith in
    let (s', run, r) = reset-Refreshed rounds (p + 1) s1 (ap length same ∙ size) (omega arith) in
    (
      s',
      ground (arith, load-ok s.task_table p 0 (omega arith)),
      record {
        table = r.table ∙ same;
        current = ground (arith, r.current);
        stack = ground (arith, r.stack);
        ldt = ground (arith, r.ldt);
        times = λ a. ground (arith, r.times a);
      },
    )

listed-slot :
    (rounds p q : ℕ) (table : List ℕ)
    → p ≤ q
    → q < p + rounds
    → get_or table q 0 ≢ 0
    → listed rounds p (get_or table q 0) table ≡ true
unfolding listed
listed-slot zero p q table h g live = absurd (omega arith)
listed-slot (suc rounds) p q table h g live = elim (ℕ_discrete p q) [
  | yes e ↦ ground (arith, ap (λ z. get_or table z 0) e)
  | no ne ↦ ground (arith, listed-slot rounds (p + 1) q table (omega arith) (omega arith) live)
]

module _ {c : ℕ} {s : Sched} (v : IsValid c s) {s1 : Sched} (r : Refreshed nr_task 0 s s1) where
  slot-Refreshed : (p : ℕ) → slot s1 p ≡ slot s p
  slot-Refreshed p = ap (λ table. get_or table p 0) r.table

  pid-Refreshed : (a : ℕ) → (s1.tasks a).pid ≡ (s.tasks a).pid
  pid-Refreshed a = ground (arith, r.times a)

  IsValid-Refreshed : IsValid c s1
  IsValid-Refreshed = record {
    size = ap length r.table ∙ v.size;
    inside = v.inside;
    current = slot-Refreshed c ∙ v.current ∙ sym r.current;
    live = λ z. v.live (sym r.current ∙ z);
    stack = ground (arith, r.stack, r.current, v.stack);
    ldt = ground (arith, r.ldt, r.current, v.ldt, pid-Refreshed s.current_task);
    distinct = λ i j a b ne e.
        v.distinct i j a b (λ z. ne (slot-Refreshed i ∙ z))
          (sym (slot-Refreshed i) ∙ e ∙ slot-Refreshed j);
  }

  ready-Refreshed :
      (p : ℕ) → p < nr_task → slot s p ≢ 0 → 0 < (s.tasks (slot s p)).priority → ready s1 p ≡ true
  unfolding ready
  ready-Refreshed p h live prio = ground (
    arith,
    slot-Refreshed p,
    r.times (slot s p),
    listed-slot nr_task 0 p s.task_table (omega arith) (omega arith) live,
  )

schedule-again :
    {c : ℕ} {s s1 : Sched} (fuel k : ℕ) (v : IsValid c s)
    → Picked v 0 nr_task k
    → ready s (candidate c k) ≡ false
    → reset nr_task 0 s ≡ ok s1
    → schedule (suc fuel) s ≡ schedule fuel s1
unfolding schedule ready
schedule-again {c} {s} fuel k v picked dead run = ground (
  arith,
  find_current-ok v nr_task 0 refl (omega arith),
  first,
  picked.found,
  slot-load v (candidate c k) (omega arith),
  ap (slot s) home,
  v.current,
  run,
)
  where
    first : next_slot c ≡ candidate c 0
    first = ground (arith, v.inside)

    last : k ≡ 63
    last = elim (picked.good) [ inl good ↦ cc (sym good ∙ dead) | inr e ↦ e ]

    home : candidate c k ≡ c
    home = omega (arith, last, v.inside)

-- A clock interrupt in a valid state in which no task in the table has time left returns, if the
-- `j`-th task behind the current one has a priority that is not 0: every task in the table first
-- gets its priority as its time, and then the first task with time is chosen as ever. One call of
-- `schedule` by itself is enough.
pub schedule-exhausted :
    {c : ℕ} {s : Sched} (fuel j : ℕ)
    → IsValid c s
    → ((i : ℕ) → i < nr_task → ready s (candidate c i) ≡ false)
    → j < nr_task
    → slot s (candidate c j) ≢ 0
    → 0 < (s.tasks (slot s (candidate c j))).priority
    → (k : ℕ) × (s1 s' : Sched) × (k ≤ j)
      × Refreshed nr_task 0 s s1
      × ((i : ℕ) → i < k → ready s1 (candidate c i) ≡ false)
      × (schedule (suc (suc fuel)) s ≡ ok s')
      × Ran (candidate c k) s1 s'
      × IsValid (candidate c k) s'
schedule-exhausted {c} {s} fuel j v dead h live prio =
    let (s1, run, r) = reset-Refreshed nr_task 0 s v.size refl in
    let (k0, picked) = pick-Picked v nr_task 0 (omega arith) (omega arith) in
    let again = schedule-again (suc fuel) k0 v picked (dead k0 picked.within) run in
    let (k, s', le, first, done, ran, valid) =
      schedule-ready fuel j (IsValid-Refreshed v r) h
        (ready-Refreshed v r (candidate c j) (omega arith) live prio) in
    (k, s1, s', le, r, first, again ∙ done, ran, valid)
