-- ===== src/Kernel/Proc/Sched/RoundRobin.antt =====
-- The policy `SCHED_ROUND_ROBIN` of kernel/proc.c, and what repeated rounds of it do.
use os_proj.Base.{
  ℕ, zero, suc, ◌+◌, ◌≤◌, ◌<◌, ◌≡◌, ◌≢◌, refl, ap, ◌⊎◌, inl, inr, Bool, true, false, Option, none,
  some, List, [], ◌∷◌, arith, ◌==◌, dec_lt, Bool-cases, ◌∙◌, update, cases_at,
}
use os_proj.Kernel.Proc.Table.{nproc, is_runnable, Proc, Table}
use os_proj.Kernel.Proc.Sched.{Scan, scan_rr, start_scan, select, dispatch, yield}
use os_proj.Kernel.Proc.Sched.Choice.{Runnable}

-- `b` is the first runnable process from slot `i` on, before slot `n`; its lock alone is held.
pub record First (proc : ℕ → Proc) (i n b : ℕ) (s : Scan) : Type 0 where
  pub best : s.best ≡ some b
  pub from : i ≤ b
  pub inside : b < n
  pub can_run : Runnable (proc b)
  pub first : (j : ℕ) → i ≤ j → j < b → is_runnable (proc j).state ≡ false
  pub held : (j : ℕ) → s.held j ≡ (j == b)

pub record Empty (proc : ℕ → Proc) (i n : ℕ) (s : Scan) : Type 0 where
  pub best : s.best ≡ none
  pub none_runs : (j : ℕ) → i ≤ j → j < n → is_runnable (proc j).state ≡ false
  pub held : (j : ℕ) → s.held j ≡ false

abbrev pub RoundRobin : (ℕ → Proc) → ℕ → ℕ → Scan → Type 0
RoundRobin proc i n s = Empty proc i n s ⊎ ((b : ℕ) × First proc i n b s)

module _ (proc : ℕ → Proc) where
  released : (i : ℕ) (s : Scan) → Scan
  released i s = record s { held = update (update s.held i true) i false }

  scan_rr_lem :
      (k i n : ℕ) (s : Scan)
      → i + k ≡ n
      → s.best ≡ none
      → ((j : ℕ) → s.held j ≡ false)
      → RoundRobin proc i n (scan_rr proc k i s)
  unfolding scan_rr released
  scan_rr_lem zero i n s e idle free =
      inl (record { best = idle; none_runs = λ j h h'. absurd (omega arith); held = free })
  scan_rr_lem (suc k) i n s e idle free = elim (Bool-cases (is_runnable (proc i).state)) [
    | inl run ↦ rw run (
        inr (
          i,
          record {
            best = refl;
            from = omega arith;
            inside = omega arith;
            can_run = run;
            first = λ j h h'. absurd (omega arith);
            held = λ j. ground (arith, free j);
          },
        ))
    | inr stop ↦
        rw stop
          (elim (scan_rr_lem k (i + 1) n (released i s) (omega arith) idle
            (λ j. ground (arith, free j))) [
              | inl c ↦ inl (record {
                best = c.best;
                none_runs = λ j h h'.
                    cases_at (λ m. is_runnable (proc m).state ≡ false) i j h stop
                      (λ lt. c.none_runs j (omega arith) h');
                held = c.held;
              })
              | inr (b, c) ↦ inr (
                b,
                record {
                  best = c.best;
                  from = omega (arith, c.from);
                  inside = c.inside;
                  can_run = c.can_run;
                  first = λ j h h'.
                      cases_at (λ m. is_runnable (proc m).state ≡ false) i j h stop
                        (λ lt. c.first j (omega arith) h');
                  held = c.held;
                },
              )
            ])
  ]

-- Under `SCHED_ROUND_ROBIN` the scheduler selects the runnable process with the least slot number,
-- with exactly its lock held, or none, with no lock held, exactly if no process is runnable.
pub select-RoundRobin :
    (fcfs priority : Bool) (t : Table) → RoundRobin t.proc 0 nproc (select true fcfs priority t)
unfolding select
select-RoundRobin fcfs priority t =
    scan_rr_lem t.proc nproc 0 nproc (start_scan 0) refl refl (λ j. refl)

abbrev pub rr : Table → Option ℕ
rr t = (select true false false t).best

-- One turn: the selected process runs and gives up the CPU, at times read from `r_time`.
turn_of : Option ℕ → ℕ × ℕ → Table → Table
turn_of none times t = t
turn_of (some b) (start, stop) t = yield b stop (dispatch b start t)

pub turns : List (ℕ × ℕ) → Table → Table
unfolding turn_of
turns [] t = t
turns (times ∷ rest) t = turns rest (turn_of (rr t) times t)

module _ (b : ℕ) (t : Table) (sel : rr t ≡ some b) where
  -- What the scheduler's choice of `b` says of the table.
  chosen : First t.proc 0 nproc b (select true false false t)
  chosen = elim (select-RoundRobin false false t) [
    | inl c ↦ absurd (cc (sel, c.best))
    | inr (d, c) ↦ let e : d ≡ b = cc (sel, c.best) in rw e at c
  ]

  module _ (times : ℕ × ℕ) where
    abbrev after : Table
    after = turn_of (some b) times t

    after-other : (j : ℕ) → j ≢ b → after.proc j ≡ t.proc j
    unfolding turn_of yield dispatch
    after-other j ne = ground arith

    after_self : Runnable (after.proc b)
    unfolding turn_of yield dispatch
    after_self = ground arith

    after-rr : rr after ≡ some b
    after-rr = elim (select-RoundRobin false false after) [
      | inl c ↦ absurd (cc (c.none_runs b (omega arith) chosen.inside, after_self))
      | inr (d, c) ↦ c.best ∙ ap some (same d c)
    ]
      where
        same : (d : ℕ) → First after.proc 0 nproc d (select true false false after) → d ≡ b
        same d c = elim (dec_lt d b) [
          | yes below ↦ absurd (
              cc (
                chosen.first d (omega arith) below,
                ap (λ (p : Proc). is_runnable p.state) (after-other d (omega arith)),
                c.can_run,
              ))
          | no ge ↦ elim (dec_lt b d) [
            | yes above ↦ absurd (cc (c.first b (omega arith) above, after_self))
            | no le ↦ omega arith
          ]
        ]

-- Round robin does not rotate: as long as the selected process runs and yields, every later
-- selection is that process again, and all others stay as they were, runnable ones included.
pub rr_monopoly :
    (ts : List (ℕ × ℕ)) (b : ℕ) (t : Table)
    → rr t ≡ some b
    → (rr (turns ts t) ≡ some b) × ((j : ℕ) → j ≢ b → (turns ts t).proc j ≡ t.proc j)
unfolding turns
rr_monopoly [] b t sel = (sel, λ j ne. refl)
rr_monopoly (times ∷ ts) b t sel =
    let (again, kept) = rr_monopoly ts b (turn_of (some b) times t) (after-rr b t sel times) in
    let e : turns (times ∷ ts) t ≡ turns ts (turn_of (some b) times t) = rw sel in
    (rw e again, λ j ne. rw e (kept j ne ∙ after-other b t sel times j ne))
