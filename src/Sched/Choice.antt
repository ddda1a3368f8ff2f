-- ===== src/Sched/Choice.antt =====
-- kernel/proc.c: which task `schedule` chooses, and what it changes.
use native.Mathlib.Decide.{ℕ_discrete}
use rxd_os.Prelude.{
  ℕ, zero, suc, ◌+◌, ◌%◌, ◌≤◌, ◌<◌, ◌≡◌, ◌≢◌, refl, sym, ◌∙◌, ap, ◌⊎◌, inl, inr, Bool, true, false,
  not, ◌&&◌, ok, arith, ltb, ◌==◌, length, get_or, load, load-ok, Bool-cases,
}
use rxd_os.Sched.{nr_task, page_size, ldt_selector, Sched, find_current, next_slot, pick}

abbrev pub slot : Sched → ℕ → ℕ
slot s p = get_or s.task_table p 0

-- The slot holds a task that has time left.
unfoldable pub ready : Sched → ℕ → Bool
ready s p = not (slot s p == 0) && ltb 0 (s.tasks (slot s p)).timespan

-- The table has 64 slots, no task stands in two of them, and the current task stands in slot `c`.
-- The kernel stack and the LDT of the processor are those of the current task.
pub record IsValid (c : ℕ) (s : Sched) : Type 0 where
  pub size : length s.task_table ≡ nr_task
  pub inside : c < nr_task
  pub current : slot s c ≡ s.current_task
  pub live : s.current_task ≢ 0
  pub stack : s.esp0 ≡ s.current_task + page_size
  pub ldt : s.ldtr ≡ ldt_selector (s.tasks s.current_task).pid
  pub distinct : (i j : ℕ) → i < nr_task → j < nr_task → slot s i ≢ 0 → slot s i ≡ slot s j → i ≡ j

-- The slots in the order in which they are tried, from the one behind the current task's round to
-- the current task's own, which is the candidate 63.
abbrev pub candidate : (c k : ℕ) → ℕ
candidate c k = (c + 1 + k) % nr_task

module _ {c : ℕ} {s : Sched} (v : IsValid c s) where
  pub slot-load : (p : ℕ) → p < nr_task → load s.task_table p ≡ ok (slot s p)
  slot-load p h = load-ok s.task_table p 0 (omega (arith, v.size))

  pub find_current-ok :
      (rounds p : ℕ) → p + rounds ≡ nr_task → p ≤ c → find_current rounds p s ≡ ok c
  unfolding find_current
  find_current-ok zero p e h = absurd (omega (arith, v.inside))
  find_current-ok (suc rounds) p e h = elim (ℕ_discrete p c) [
    | yes here ↦ ground (arith, slot-load p (omega arith), v.current, v.live, ap (slot s) here)
    | no before ↦
        let other : slot s p ≢ 0 → slot s p ≢ s.current_task =
          λ ne same. before (v.distinct p c (omega arith) v.inside ne (same ∙ sym v.current)) in
        ground (
          arith,
          slot-load p (omega arith),
          other,
          find_current-ok rounds (p + 1) (omega arith) (omega arith),
        )
  ]

  module _ (fuel p : ℕ) (h : p < nr_task) where
    pick-ready : ready s p ≡ true → pick (suc fuel) p s ≡ ok p
    unfolding pick ready
    pick-ready r = ground (arith, slot-load p h)

    pick-home : ready s p ≡ false → next_slot p ≡ c → pick (suc fuel) p s ≡ ok c
    unfolding pick ready
    pick-home r e =
        ground
          (arith, slot-load p h, slot-load (next_slot p) (ground arith), v.current, ap (slot s) e)

    pick-on : ready s p ≡ false → next_slot p ≢ c → pick (suc fuel) p s ≡ pick fuel (next_slot p) s
    unfolding pick ready
    pick-on r ne =
        let other : slot s (next_slot p) ≢ s.current_task = λ e. ne (
          sym (
            v.distinct c (next_slot p) v.inside (ground arith) (λ z. v.live (sym v.current ∙ z))
              (v.current ∙ sym e))) in
        ground (arith, slot-load p h, slot-load (next_slot p) (ground arith), other)

  next_slot-candidate : (j : ℕ) → next_slot (candidate c j) ≡ candidate c (j + 1)
  next_slot-candidate j = ground arith

  -- What the second loop comes to from candidate `j` on: the first candidate that is ready, or the
  -- slot of the current task.
  pub record Picked (j fuel k : ℕ) : Type 0 where
    pub from : j ≤ k
    pub within : k < nr_task
    pub found : pick fuel (candidate c j) s ≡ ok (candidate c k)
    pub good : (ready s (candidate c k) ≡ true) ⊎ (k ≡ 63)
    pub first : (i : ℕ) → j ≤ i → i < k → ready s (candidate c i) ≡ false

  pub pick-Picked : (fuel j : ℕ) → j < 63 → 63 ≤ j + fuel → (k : ℕ) × Picked j fuel k
  pick-Picked zero j h f = absurd (omega arith)
  pick-Picked (suc fuel) j h f = elim (Bool-cases (ready s p)) [
    | inl now ↦ (
      j,
      record {
        from = omega arith;
        within = omega arith;
        found = pick-ready fuel p small now;
        good = inl now;
        first = λ i a b. absurd (omega arith);
      },
    )
    | inr later ↦ elim (ℕ_discrete j 62) [
      | yes last ↦ (
        63,
        record {
          from = omega arith;
          within = omega arith;
          found = pick-home fuel p small later (next_slot-candidate j ∙ home last) ∙ ap ok home';
          good = inr refl;
          first = λ i a b. ap (λ z. ready s (candidate c z)) (omega arith) ∙ later;
        },
      )
      | no more ↦
          let (k, rest) = pick-Picked fuel (j + 1) (omega arith) (omega arith) in
          (
            k,
            record {
              from = omega (arith, rest.from);
              within = rest.within;
              found =
                  pick-on fuel p small later (away more)
                  ∙ ap (λ z. pick fuel z s) (next_slot-candidate j)
                  ∙ rest.found;
              good = rest.good;
              first = λ i a b. elim (ℕ_discrete i j) [
                | yes e ↦ ap (λ z. ready s (candidate c z)) e ∙ later
                | no ne ↦ rest.first i (omega arith) b
              ];
            },
          )
    ]
  ]
    where
      p : ℕ
      p = candidate c j

      small : p < nr_task
      small = omega arith

      home : j ≡ 62 → candidate c (j + 1) ≡ c
      home e = omega (arith, v.inside)

      home' : c ≡ candidate c 63
      home' = omega (arith, v.inside)

      away : j ≢ 62 → next_slot p ≢ c
      away ne e = absurd (omega (arith, v.inside, next_slot-candidate j))
