-- ===== src/Kernel/Proc/Sched.antt =====
-- `scheduler`, `yield` and the three selection policies of kernel/proc.c.
pub mod Choice
pub mod RoundRobin
use os_proj.Base.{
  ℕ, zero, suc, ◌+◌, ◌-◌, ◌%◌, ◌^◌, ◌&&◌, Bool, true, false, Option, none, some, ltb, ◌==◌,
  if◌then◌else◌, update,
}
use os_proj.Kernel.Proc.Table.{
  nproc, ProcState, runnable, running, is_runnable, Proc, Table, set_proc,
}

-- A scan over the table: the process chosen so far, its key, and the `p->lock`s that are held.
pub record Scan : Type 0 where
  pub best : Option ℕ
  pub key : ℕ
  pub held : ℕ → Bool

abbrev acquire : ℕ → Scan → Scan
acquire i s = record s { held = update s.held i true }

abbrev release : ℕ → Scan → Scan
release i s = record s { held = update s.held i false }

abbrev release_best : Scan → Scan
release_best s = elim (s.best) [ none ↦ s | some b ↦ release b s ]

-- `SCHED_ROUND_ROBIN`: stop at the first process that can run, with its lock held.
unfoldable pub scan_rr : (ℕ → Proc) → ℕ → ℕ → Scan → Scan
scan_rr proc zero i s = s
scan_rr proc (suc k) i s =
    let s' = acquire i s in
    let rest = scan_rr proc k (i + 1) (release i s') in
    if is_runnable (proc i).state then record s' { best = some i } else rest

-- The body of the loops of `SCHED_FCFS` and `SCHED_PRIORITY`, which differ in the field they
-- compare.
pub scan_one : (Proc → ℕ) → (ℕ → Proc) → ℕ → Scan → Scan
scan_one field proc i s =
    let s' = acquire i s in
    if is_runnable (proc i).state && ltb (field (proc i)) s.key
    then record (release_best s') { best = some i; key = field (proc i) }
    else release i s'

pub scan_min : (Proc → ℕ) → (ℕ → Proc) → ℕ → ℕ → Scan → Scan
scan_min field proc zero i s = s
scan_min field proc (suc k) i s = scan_min field proc k (i + 1) (scan_one field proc i s)

abbrev pub start_scan : ℕ → Scan
start_scan key = record { best = none; key = key; held = λ _. false }

abbrev pub earliest_time : ℕ
earliest_time = 0xffff_ffff_ffff_ffff

abbrev pub highest_priority : ℕ
highest_priority = 9999

-- The selection of `scheduler` under the three constants of kernel/trap.c.
unfoldable pub select : (round_robin fcfs priority : Bool) → Table → Scan
select true fcfs priority t = scan_rr t.proc nproc 0 (start_scan 0)
select false true priority t = scan_min (λ p. p.wait_time) t.proc nproc 0 (start_scan earliest_time)
select false false true t = scan_min (λ p. p.priority) t.proc nproc 0 (start_scan highest_priority)
select false false false t = start_scan 0

-- What `scheduler` does to the chosen process before `swtch`.
unfoldable pub dispatch : ℕ → ℕ → Table → Table
dispatch i now t =
    let p = t.proc i in
    set_proc i
      (record p {
        state = running;
        total_wait_time = (p.total_wait_time + (now + 2 ^ 64 - p.wait_time)) % 2 ^ 64;
        wait_time = now;
      })
      t

-- `yield` up to the call of `sched`.
unfoldable pub yield : ℕ → ℕ → Table → Table
yield cur now t = set_proc cur (record (t.proc cur) { state = runnable; wait_time = now }) t
