-- ===== src/Kernel/Proc/Examples.antt =====
-- Concrete process tables for the theorems on kernel/proc.c.
use os_proj.Base.{
  ℕ, ◌<◌, ◌≡◌, ◌≢◌, ◌⊎◌, refl, arith, ◌==◌, if◌then◌else◌, [], ◌∷◌, ok, panic, true, false, some,
  none, Option, Res, pos, minus_one,
}
use os_proj.Kernel.Proc.Table.{
  nproc, ProcState, unused, sleeping, runnable, zombie, is_unused, null, of_proc, Proc, Table,
  Memory,
}
use os_proj.Kernel.Proc.Wake.{wakeup, wake_one, wake_loop, kill, killed}
use os_proj.Kernel.Proc.Wake.Laws.{woken, wakeup_lem, Killed, kill-Killed}
use os_proj.Kernel.Proc.Life.{
  same_slot, fork, exit_close, close_files, reparent, reparent_loop, reparent_one, exit, wait,
  reaped, failed, slept,
}
use os_proj.Kernel.Proc.Life.Fork.{Forked, fork-Forked}
use os_proj.Kernel.Proc.Life.Exit.{Exited, exit-Exited, exit-wait}
use os_proj.Kernel.Proc.Life.Wait.{Child, wait-no_zombie}
use os_proj.Kernel.Proc.Sched.{select, highest_priority, scan_rr}
use os_proj.Kernel.Proc.Sched.Choice.{Chosen, select-priority}
use os_proj.Kernel.Proc.Sched.RoundRobin.{rr, turns, rr_monopoly}

-- A process with a state, a pid and a parent.
abbrev proc_of : ProcState → ℕ → Option ℕ → Proc
proc_of state pid parent = record {
  state = state;
  chan = if pid == 1 then of_proc 0 else null;
  killed = false;
  xstate = pos 0;
  pid = pid;
  parent = parent;
  sz = 4096;
  pagetable = 0;
  trapframe = 0;
  ofile = λ fd. none;
  cwd = 5;
  name = [];
  start_time = 0;
  turnaround_time = 0;
  wait_time = pid;
  total_wait_time = 0;
  wait_time_ticks = 0;
  end_time = 0;
  priority = 10;
}

abbrev blank : Table
blank = record { proc = λ i. proc_of unused 0 none; nextpid = 1; initproc = none; calls = [] }

-- init sleeps for its children in slot 0, slots 1 and 2 can run, and slot 3 is a zombie of slot 1.
abbrev busy : Table
busy = record {
  proc = λ i.
      if i == 0
      then proc_of sleeping 1 none
      else if i == 1
      then proc_of runnable 2 (some 0)
      else if i == 2
      then proc_of runnable 3 (some 0)
      else if i == 3
      then proc_of zombie 4 (some 1)
      else proc_of unused 0 none;
  nextpid = 5;
  initproc = some 0;
  calls = [];
}

abbrev memory : Memory
memory = record { page = 1000; pagetable = 2000 }

abbrev now : ℕ → ℕ
now i = 77

wakeup_lem_example :
    (wakeup 1 (of_proc 0) now busy).proc 0 ≡ woken 1 (of_proc 0) now 0 (busy.proc 0)
wakeup_lem_example = wakeup_lem 1 (of_proc 0) now busy 0

kill-Killed_example : Killed 3 busy (kill 3 busy)
kill-Killed_example = kill-Killed 3 busy

fork-Forked_example :
    (((j : ℕ) → j < nproc → is_unused (busy.proc j).state ≡ false)
      × (fork 1 memory true 99 busy ≡ (minus_one, busy)))
    ⊎ ((np : ℕ) × Forked 1 np memory 99 busy
          (fork 1 memory true 99 busy).0
          (fork 1 memory true 99 busy).1)
fork-Forked_example = fork-Forked 1 memory 99 busy refl (omega arith) (omega arith)

exit-Exited_example :
    ((busy.initproc ≡ some 1) × (exit 1 (pos 3) 50 now busy ≡ panic))
    ⊎ ((busy.initproc ≢ some 1)
        × ((t' : Table) × (exit 1 (pos 3) 50 now busy ≡ ok t') × Exited 1 (pos 3) 50 busy t'))
exit-Exited_example = exit-Exited 1 (pos 3) 50 now busy

wait-no_zombie_example :
    ((((j : ℕ) → j < nproc → same_slot (busy.proc j).parent (some 0) ≡ false)
        ⊎ (killed 0 busy ≡ true))
      × (wait 0 0 true busy ≡ (failed, busy)))
    ⊎ (((j : ℕ) × (j < nproc) × Child 0 (busy.proc j))
        × (killed 0 busy ≡ false)
        × (wait 0 0 true busy ≡ (slept, busy)))
wait-no_zombie_example = wait-no_zombie 0 0 true busy (λ j lt child. ground arith)

select-priority_example :
    Chosen (λ p. p.priority) busy.proc highest_priority nproc (select false false true busy)
select-priority_example = select-priority busy

-- Slot 2 can run and never does.
rr_monopoly_example :
    (rr (turns ((10, 20) ∷ (30, 40) ∷ []) busy) ≡ some 1)
    × ((j : ℕ) → j ≢ 1 → (turns ((10, 20) ∷ (30, 40) ∷ []) busy).proc j ≡ busy.proc j)
unfolding select scan_rr
rr_monopoly_example = rr_monopoly ((10, 20) ∷ (30, 40) ∷ []) 1 busy refl

abbrev of_res : Res Table → Table
of_res panic = blank
of_res (ok t) = t

abbrev exited : Table
exited = of_res (exit 1 (pos 3) 50 now busy)

exits : exit 1 (pos 3) 50 now busy ≡ ok exited
unfolding exit exit_close close_files reparent reparent_loop reparent_one wakeup wake_loop wake_one
exits = refl

exit-wait_example : (pid : ℕ) × ((wait 0 0 true exited).0 ≡ reaped pid none)
exit-wait_example =
    exit-wait 1 0 (pos 3) 50 now true busy exited exits (omega arith) (omega arith) refl
