-- ===== src/Kernel/Proc/Sched/Choice.antt =====
-- Which process each policy of kernel/proc.c selects, and which locks the scan leaves held.
use os_proj.Base.{
  ℕ, zero, suc, ◌+◌, ◌≤◌, ◌<◌, ◌≡◌, refl, ◌⊎◌, inl, inr, ◌&&◌, Bool, true, false, none, some, arith,
  ltb, ◌==◌, Bool-cases,
}
use os_proj.Kernel.Proc.Table.{nproc, is_runnable, Proc, Table}
use os_proj.Kernel.Proc.Sched.{
  Scan, scan_one, scan_min, start_scan, earliest_time, highest_priority, select,
}

abbrev pub Runnable : Proc → Type 0
Runnable p = is_runnable p.state ≡ true

-- The scan of the first `n` slots chose nothing, and no process has a key below `bound`; no lock is
-- held.
pub record Idle (field : Proc → ℕ) (proc : ℕ → Proc) (bound n : ℕ) (s : Scan) : Type 0 where
  pub best : s.best ≡ none
  pub key : s.key ≡ bound
  pub above : (j : ℕ) → j < n → Runnable (proc j) → bound ≤ field (proc j)
  pub held : (j : ℕ) → s.held j ≡ false

-- The scan of the first `n` slots chose `b`, the first of the runnable processes with the least
-- key; the lock of `b` is held and no other.
pub record Least (field : Proc → ℕ) (proc : ℕ → Proc) (bound n b : ℕ) (s : Scan) : Type 0 where
  pub best : s.best ≡ some b
  pub inside : b < n
  pub can_run : Runnable (proc b)
  pub key : field (proc b) ≡ s.key
  pub below : s.key < bound
  pub least : (j : ℕ) → j < n → Runnable (proc j) → s.key ≤ field (proc j)
  pub first : (j : ℕ) → j < b → Runnable (proc j) → s.key < field (proc j)
  pub held : (j : ℕ) → s.held j ≡ (j == b)

abbrev pub Chosen : (Proc → ℕ) → (ℕ → Proc) → ℕ → ℕ → Scan → Type 0
Chosen field proc bound n s = Idle field proc bound n s ⊎ ((b : ℕ) × Least field proc bound n b s)

module _ (field : Proc → ℕ) (proc : ℕ → Proc) (bound : ℕ) where
  abbrev better : ℕ → Scan → Bool
  better i s = is_runnable (proc i).state && ltb (field (proc i)) s.key

  scan_one-take :
      (i : ℕ) (s : Scan)
      → better i s ≡ true
      → Chosen field proc bound i s
      → Least field proc bound (i + 1) i (scan_one field proc i s)
  unfolding scan_one
  scan_one-take i s e (inl c) = record {
    best = ground arith;
    inside = omega arith;
    can_run = ground arith;
    key = ground arith;
    below = ground (arith, c.key);
    least = λ j h r. ground (arith, c.above j, c.key);
    first = λ j h r. ground (arith, c.above j, c.key);
    held = λ j. ground (arith, c.held j, c.best);
  }
  scan_one-take i s e (inr (b, c)) = record {
    best = ground arith;
    inside = omega arith;
    can_run = ground arith;
    key = ground arith;
    below = ground (arith, c.below);
    least = λ j h r. ground (arith, c.least j);
    first = λ j h r. ground (arith, c.least j);
    held = λ j. ground (arith, c.held j, c.best);
  }

  scan_one-skip :
      (i : ℕ) (s : Scan)
      → better i s ≡ false
      → Chosen field proc bound i s
      → Chosen field proc bound (i + 1) (scan_one field proc i s)
  unfolding scan_one
  scan_one-skip i s e (inl c) = inl (record {
    best = ground (arith, c.best);
    key = ground (arith, c.key);
    above = λ j h r. ground (arith, c.above j, c.key);
    held = λ j. ground (arith, c.held j);
  })
  scan_one-skip i s e (inr (b, c)) = inr (
    b,
    record {
      best = ground (arith, c.best);
      inside = omega (arith, c.inside);
      can_run = c.can_run;
      key = ground (arith, c.key);
      below = ground (arith, c.below);
      least = λ j h r. ground (arith, c.least j);
      first = λ j h r. ground (arith, c.first j);
      held = λ j. ground (arith, c.held j, c.inside);
    },
  )

  scan_one-Chosen :
      (i : ℕ) (s : Scan)
      → Chosen field proc bound i s
      → Chosen field proc bound (i + 1) (scan_one field proc i s)
  scan_one-Chosen i s c = elim (Bool-cases (better i s)) [
    | inl e ↦ inr (i, scan_one-take i s e c)
    | inr e ↦ scan_one-skip i s e c
  ]

  pub scan_min-Chosen :
      (k i n : ℕ) (s : Scan)
      → i + k ≡ n
      → Chosen field proc bound i s
      → Chosen field proc bound n (scan_min field proc k i s)
  unfolding scan_min
  scan_min-Chosen zero i n s e c = let e' : i ≡ n = omega arith in rw (← e') c
  scan_min-Chosen (suc k) i n s e c =
      scan_min-Chosen k (i + 1) n (scan_one field proc i s) (omega arith) (scan_one-Chosen i s c)

  start-Chosen : Chosen field proc bound 0 (start_scan bound)
  start-Chosen =
      inl (record {
        best = refl;
        key = refl;
        above = λ j h r. absurd (omega arith);
        held = λ j. refl;
      })

-- Under `SCHED_PRIORITY` the scheduler selects, with exactly its lock held, the first of the
-- runnable processes with the least priority number; it selects none, with no lock held, exactly
-- if no runnable process has a priority below 9999.
pub select-priority :
    (t : Table) → Chosen (λ p. p.priority) t.proc highest_priority nproc (select false false true t)
unfolding select
select-priority t =
    scan_min-Chosen (λ p. p.priority) t.proc highest_priority nproc 0 nproc
      (start_scan highest_priority) refl (start-Chosen (λ p. p.priority) t.proc highest_priority)

-- Under `SCHED_FCFS` the scheduler selects, with exactly its lock held, the first of the runnable
-- processes with the least `wait_time`; it selects none, with no lock held, exactly if no runnable
-- process has a `wait_time` below 2 ^ 64 - 1.
pub select-fcfs :
    (priority : Bool) (t : Table)
    → Chosen (λ p. p.wait_time) t.proc earliest_time nproc (select false true priority t)
unfolding select
select-fcfs priority t =
    scan_min-Chosen (λ p. p.wait_time) t.proc earliest_time nproc 0 nproc (start_scan earliest_time)
      refl (start-Chosen (λ p. p.wait_time) t.proc earliest_time)
