-- ===== src/Sched/Tick.antt =====
-- kernel/proc.c: what one clock interrupt does to the tasks.
use native.Mathlib.Decide.{dec_lt}
use rxd_os.Prelude.{
  ℕ, suc, ◌+◌, ◌-◌, ◌≤◌, ◌<◌, ◌≡◌, ◌≢◌, refl, sym, ◌∙◌, ap, inl, inr, true, false, ok, arith, ◌==◌,
  if◌then◌else◌, length, get_or,
}
use rxd_os.Sched.{nr_task, Sched, update, switch_to, next_slot, schedule}
use rxd_os.Sched.Choice.{
  slot, ready, IsValid, candidate, slot-load, find_current-ok, Picked, pick-Picked,
}

-- From `s`, the task in slot `p` has been given the processor and one unit of its time is gone.
-- Nothing else has changed but the kernel stack and the LDT, which are the task's.
pub record Ran (p : ℕ) (s s' : Sched) : Type 0 where
  pub table : s'.task_table ≡ s.task_table
  pub running : s'.current_task ≡ slot s p
  pub charged : (s'.tasks (slot s p)).timespan + 1 ≡ (s.tasks (slot s p)).timespan
  pub same_pid : (s'.tasks (slot s p)).pid ≡ (s.tasks (slot s p)).pid
  pub same_priority : (s'.tasks (slot s p)).priority ≡ (s.tasks (slot s p)).priority
  pub others : (a : ℕ) → slot s p ≢ a → s'.tasks a ≡ s.tasks a

-- The state after the choice of slot `p`.
abbrev dispatch : (p : ℕ) → Sched → Sched
dispatch p s =
    let t = slot s p in
    let task = s.tasks t in
    let ran = record s {
      tasks = update s.tasks t (record task { timespan = task.timespan - 1 });
    } in
    if t == s.current_task then ran else switch_to t ran

dispatch-Ran : (p : ℕ) (s : Sched) → ready s p ≡ true → Ran p s (dispatch p s)
unfolding switch_to ready
dispatch-Ran p s r = record {
  table = ground arith;
  running = ground arith;
  charged = ground arith;
  same_pid = ground arith;
  same_priority = ground arith;
  others = λ a ne. ground arith;
}

dispatch-IsValid :
    {c : ℕ} {s : Sched} (p : ℕ)
    → IsValid c s
    → p < nr_task
    → ready s p ≡ true
    → IsValid p (dispatch p s)
unfolding ready switch_to
dispatch-IsValid {c} {s} p v h r = record {
  size = ap length same ∙ v.size;
  inside = h;
  current = ap (λ l. get_or l p 0) same ∙ sym ran.running;
  live = λ z. ground (arith, ran.running, z);
  stack = ground (arith, v.stack);
  ldt = ground (arith, v.ldt);
  distinct = λ i j a b ne e.
      v.distinct i j a b (λ z. ne (ap (λ l. get_or l i 0) same ∙ z))
        (sym (ap (λ l. get_or l i 0) same) ∙ e ∙ ap (λ l. get_or l j 0) same);
}
  where
    ran : Ran p s (dispatch p s)
    ran = dispatch-Ran p s r

    same : (dispatch p s).task_table ≡ s.task_table
    same = ran.table

schedule-dispatch :
    {c : ℕ} {s : Sched} (fuel k : ℕ) (v : IsValid c s)
    → Picked v 0 nr_task k
    → ready s (candidate c k) ≡ true
    → schedule (suc fuel) s ≡ ok (dispatch (candidate c k) s)
unfolding schedule ready
schedule-dispatch {c} {s} fuel k v picked r = ground (
  arith,
  find_current-ok v nr_task 0 refl (omega arith),
  first,
  picked.found,
  slot-load v (candidate c k) (omega arith),
)
  where
    first : next_slot c ≡ candidate c 0
    first = ground (arith, v.inside)

module _ {c : ℕ} {s : Sched} (v : IsValid c s) {k : ℕ} (picked : Picked v 0 nr_task k) where
  Picked-le : (j : ℕ) → ready s (candidate c j) ≡ true → k ≤ j
  Picked-le j r = elim (dec_lt j k) [
    | yes early ↦ cc (sym r ∙ picked.first j (omega arith) early)
    | no late ↦ omega arith
  ]

  Picked-ready :
      (j : ℕ) → j < nr_task → ready s (candidate c j) ≡ true → ready s (candidate c k) ≡ true
  Picked-ready j h r = elim (picked.good) [
    | inl good ↦ good
    | inr last ↦
        let e : j ≡ k = omega (arith, Picked-le j r) in
        ap (λ z. ready s (candidate c z)) (sym e) ∙ r
  ]

-- A clock interrupt in a valid state in which some task in the table has time left, the `j`-th
-- behind the current one, returns: the first such task in the order of the table behind the
-- current one is running and has paid one unit, nothing else has changed, and the state is valid
-- again.
pub schedule-ready :
    {c : ℕ} {s : Sched} (fuel j : ℕ)
    → IsValid c s
    → j < nr_task
    → ready s (candidate c j) ≡ true
    → (k : ℕ) × (s' : Sched) × (k ≤ j)
      × ((i : ℕ) → i < k → ready s (candidate c i) ≡ false)
      × (schedule (suc fuel) s ≡ ok s')
      × Ran (candidate c k) s s'
      × IsValid (candidate c k) s'
schedule-ready {c} {s} fuel j v h r =
    let (k, picked) = pick-Picked v nr_task 0 (omega arith) (omega arith) in
    let good = Picked-ready v picked j h r in
    (
      k,
      dispatch (candidate c k) s,
      Picked-le v picked j r,
      λ i below. picked.first i (omega arith) below,
      schedule-dispatch fuel k v picked good,
      dispatch-Ran (candidate c k) s good,
      dispatch-IsValid (candidate c k) v (omega arith) good,
    )
