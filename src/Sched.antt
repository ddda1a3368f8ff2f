-- ===== src/Sched.antt =====
-- kernel/proc.c and include/proc.h: the task table, and the choice of the next task on each clock
-- interrupt. A task is known by its address, 0 is NULL, and `tasks` holds the structures. What
-- `switch_to` does to registers and stacks is assembly and left out.
pub mod Choice
pub mod Tick
pub mod Reset
pub mod Table
mod Tests
use rxd_os.Prelude.{
  ℕ, zero, suc, ◌+◌, ◌-◌, ◌*◌, ◌<◌, ◌≡◌, ◌≢◌, Bool, true, false, not, ◌&&◌, List, [], ◌∷◌, Option,
  none, some, Outcome, ok, out_of_fuel, ◌>>=◌, ◌>>◌, assert, load, store, ltb, ◌==◌, if◌then◌else◌,
  length, replicate,
}

abbrev pub nr_task : ℕ
nr_task = 64

abbrev pub page_size : ℕ
page_size = 4096

-- `struct task_struct`, as far as scheduling goes: `thread` and `filp` are left out.
pub record Task : Type 0 where
  pub pid : ℕ
  pub priority : ℕ
  pub timespan : ℕ

-- `esp0` is `tss->esp0`, and `ldtr` what `lldt` loads.
pub record Sched : Type 0 where
  pub task_table : List ℕ
  pub tasks : ℕ → Task
  pub current_task : ℕ
  pub esp0 : ℕ
  pub ldtr : ℕ

abbrev pub update : (ℕ → Task) → ℕ → Task → ℕ → Task
update tasks p t q = if p == q then t else tasks q

get_pid_loop : (rounds i : ℕ) → List ℕ → Outcome (Option ℕ)
get_pid_loop zero i table = ok none
get_pid_loop (suc rounds) i table = do
  t ← load table i
  if t == 0 then ok (some i) else get_pid_loop rounds (i + 1) table

-- `none` is the result -1.
pub get_pid : Sched → Outcome (Option ℕ)
unfolding get_pid_loop
get_pid s = get_pid_loop nr_task 0 s.task_table

pub add_task : (task : ℕ) → Sched → Outcome Sched
add_task task s = do
  let pid = (s.tasks task).pid
  t ← load s.task_table pid
  assert (t == 0)
  table ← store s.task_table pid task
  ok (record s { task_table = table })

clear_table : (rounds i : ℕ) → List ℕ → Outcome (List ℕ)
clear_table zero i table = ok table
clear_table (suc rounds) i table = do table ← store table i 0; clear_table rounds (i + 1) table

-- The table of `sched_init`; `init_task` is the address of the first task. Its descriptor and the
-- handler of the clock interrupt are not part of this state.
pub sched_init : (init_task : ℕ) → Sched → Outcome Sched
unfolding clear_table
sched_init init_task s = do
  table ← clear_table nr_task 0 s.task_table
  table ← store table 0 init_task
  current ← load table 0
  ok (record s { task_table = table; current_task = current })

-- `_LDT(n)`, with the first LDT at index 5 of the GDT.
abbrev pub ldt_selector : ℕ → ℕ
ldt_selector n = n * 8 + 40

-- `__switch_to`
pub switch_to : (next : ℕ) → Sched → Sched
switch_to next s = record s {
  esp0 = next + page_size;
  ldtr = ldt_selector (s.tasks next).pid;
  current_task = next;
}

-- The first loop of `schedule`: the slot of the current task, or `nr_task`.
pub find_current : (rounds p : ℕ) → Sched → Outcome ℕ
find_current zero p s = ok p
find_current (suc rounds) p s = do
  t ← load s.task_table p
  if not (t == 0) && t == s.current_task then ok p else find_current rounds (p + 1) s

-- `++p_table; if (p_table == END) p_table = START;`
abbrev pub next_slot : ℕ → ℕ
next_slot p = if p + 1 == nr_task then 0 else p + 1

-- The second loop: the next slot with a task that has time left, or the slot of the current task.
pub pick : (fuel p : ℕ) → Sched → Outcome ℕ
pick zero p s = out_of_fuel
pick (suc fuel) p s = do
  t ← load s.task_table p
  if not (t == 0) && ltb 0 (s.tasks t).timespan then ok p else (do
    t' ← load s.task_table (next_slot p)
    if t' == s.current_task then ok (next_slot p) else pick fuel (next_slot p) s)

-- The third loop: every task gets its priority as its time.
pub reset : (rounds p : ℕ) → Sched → Outcome Sched
reset zero p s = ok s
reset (suc rounds) p s = do
  t ← load s.task_table p
  let task = record (s.tasks t) { timespan = (s.tasks t).priority }
  reset rounds (p + 1) (if t == 0 then s else record s { tasks = update s.tasks t task })

-- `fuel` bounds the calls of `schedule` by itself. The second loop makes at most `nr_task` rounds.
pub schedule : (fuel : ℕ) → Sched → Outcome Sched
schedule zero s = out_of_fuel
schedule (suc fuel) s = do
  p ← find_current nr_task 0 s
  assert (not (p == nr_task))
  p ← pick nr_task (next_slot p) s
  t ← load s.task_table p
  assert (not (t == 0))
  let task = s.tasks t
  let ran = record s { tasks = update s.tasks t (record task { timespan = task.timespan - 1 }) }
  if ltb 0 task.timespan
      then ok (if t == s.current_task then ran else switch_to t ran)
      else (do s ← reset nr_task 0 s; schedule fuel s)

-- `on_clock_interrupt`
pub on_clock_interrupt : (fuel : ℕ) → Sched → Outcome Sched
on_clock_interrupt fuel s = schedule fuel s
