-- ===== src/Sched/Tests.antt =====
-- kernel/proc.c: the theorems at a table of two tasks.
use rxd_os.Prelude.{
  ℕ, zero, suc, ◌≤◌, ◌<◌, ◌≡◌, ◌≢◌, refl, true, false, Bool, not, List, ◌∷◌, ok, arith, ◌==◌,
  if◌then◌else◌, get_or, replicate, every_below, every_below-at,
}
use rxd_os.Sched.{nr_task, Sched, add_task, schedule}
use rxd_os.Sched.Choice.{slot, ready, IsValid, candidate}
use rxd_os.Sched.Tick.{Ran, schedule-ready}
use rxd_os.Sched.Reset.{Refreshed, schedule-exhausted}
use rxd_os.Sched.Table.{add_task-IsValid}

-- Task 1000 runs with pid 0, and task 5000 has pid 1 and `span` units left. Task 9000 is not in the
-- table yet.
abbrev two_tasks : (span : ℕ) → Sched
two_tasks span = record {
  task_table = 1000 ∷ 5000 ∷ replicate 62 0;
  tasks = λ a.
      if a == 1000
      then record { pid = 0; priority = 3; timespan = 0 }
      else if a == 5000
      then record { pid = 1; priority = 2; timespan = span }
      else record { pid = 2; priority = 2; timespan = 2 };
  current_task = 1000;
  esp0 = 5096;
  ldtr = 40;
}

abbrev zeros : ℕ → List ℕ
zeros n = replicate n 0

get_or-zeros : (n i : ℕ) → get_or (zeros n) i 0 ≡ 0
get_or-zeros zero i = refl
get_or-zeros (suc n) zero = refl
get_or-zeros (suc n) (suc i) = get_or-zeros n i

two_tasks-distinct :
    (span i j : ℕ)
    → slot (two_tasks span) i ≢ 0
    → slot (two_tasks span) i ≡ slot (two_tasks span) j
    → i ≡ j
two_tasks-distinct span zero zero ne e = refl
two_tasks-distinct span zero (suc zero) ne e = absurd (omega (arith, e))
two_tasks-distinct span zero (suc (suc j)) ne e = absurd (omega (arith, e, get_or-zeros 62 j))
two_tasks-distinct span (suc zero) zero ne e = absurd (omega (arith, e))
two_tasks-distinct span (suc zero) (suc zero) ne e = refl
two_tasks-distinct span (suc zero) (suc (suc j)) ne e = absurd (omega (arith, e, get_or-zeros 62 j))
two_tasks-distinct span (suc (suc i)) j ne e = absurd (ne (get_or-zeros 62 i))

two_tasks-IsValid : (span : ℕ) → IsValid 0 (two_tasks span)
two_tasks-IsValid span = record {
  size = refl;
  inside = omega arith;
  current = refl;
  live = omega arith;
  stack = refl;
  ldt = refl;
  distinct = λ i j _ _. two_tasks-distinct span i j;
}

schedule-ready_example :
    (k : ℕ) × (s' : Sched) × (k ≤ 0)
    × ((i : ℕ) → i < k → ready (two_tasks 4) (candidate 0 i) ≡ false)
    × (schedule 1 (two_tasks 4) ≡ ok s')
    × Ran (candidate 0 k) (two_tasks 4) s'
    × IsValid (candidate 0 k) s'
unfolding ready
schedule-ready_example = schedule-ready 0 0 (two_tasks-IsValid 4) (omega arith) refl

idle_table : every_below 64 (λ i. not (ready (two_tasks 0) (candidate 0 i))) ≡ true
unfolding ready every_below
idle_table = refl

not-true : (b : Bool) → not b ≡ true → b ≡ false
not-true true h = cc
not-true false h = refl

two_tasks-idle : (i : ℕ) → i < nr_task → ready (two_tasks 0) (candidate 0 i) ≡ false
two_tasks-idle i h =
    not-true (ready (two_tasks 0) (candidate 0 i))
      (every_below-at 64 (λ i. not (ready (two_tasks 0) (candidate 0 i))) i idle_table h)

schedule-exhausted_example :
    (k : ℕ) × (s1 s' : Sched) × (k ≤ 0)
    × Refreshed nr_task 0 (two_tasks 0) s1
    × ((i : ℕ) → i < k → ready s1 (candidate 0 i) ≡ false)
    × (schedule 2 (two_tasks 0) ≡ ok s')
    × Ran (candidate 0 k) s1 s'
    × IsValid (candidate 0 k) s'
schedule-exhausted_example =
    schedule-exhausted 0 0 (two_tasks-IsValid 0) two_tasks-idle (omega arith) (omega arith)
      (omega arith)

two_tasks-fresh : (j : ℕ) → j < nr_task → slot (two_tasks 4) j ≢ 9000
two_tasks-fresh zero h = omega arith
two_tasks-fresh (suc zero) h = omega arith
two_tasks-fresh (suc (suc j)) h = omega (arith, get_or-zeros 62 j)

add_task-IsValid_example :
    (s' : Sched) × (add_task 9000 (two_tasks 4) ≡ ok s')
    × IsValid 0 s'
    × (slot s' 2 ≡ 9000)
    × ((j : ℕ) → 2 ≢ j → slot s' j ≡ slot (two_tasks 4) j)
add_task-IsValid_example =
    add_task-IsValid 9000 (two_tasks-IsValid 4) (omega arith) two_tasks-fresh (omega arith) refl
