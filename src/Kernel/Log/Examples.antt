-- ===== src/Kernel/Log/Examples.antt =====
-- Concrete logs for the theorems on kernel/log.c.
use os_proj.Base.{
  ℕ, ◌+◌, ◌≡◌, ◌≢◌, ◌↔◌, refl, inr, arith, ◌==◌, if◌then◌else◌, [], ◌∷◌, panic, update, false,
}
use os_proj.Kernel.Log.{
  Block, Store, Header, Log, bpin, reboot, begin_op, initlog, commit, log_write, find_block,
  maxopblocks, logsize,
}
use os_proj.Kernel.Log.Recovery.{Committed}
use os_proj.Kernel.Log.Crash.{Ready, recovered, commit_atomic}
use os_proj.Kernel.Log.Restart.{recovery_restarts}
use os_proj.Kernel.Log.Ops.{System, begin, write, init, Reach, here, next}
use os_proj.Kernel.Log.Append.{Distinct}
use os_proj.Kernel.Log.Space.{log_write-reserved, log_write-mkfs, logged-Distinct}

abbrev sevens : Block
sevens i = 7

abbrev zeros : Block
zeros i = 0

abbrev log_at_2 : Log
log_at_2 = record {
  start = 2;
  size = 30;
  outstanding = 0;
  committing = false;
  lh = record { n = 1; block = λ _. 40 };
}

-- Block 40 is logged; two disk writes are left, those of the log block and of the header.
abbrev stopping : Store
stopping = record {
  mem = λ a. if a == 40 then sevens else zeros;
  disk = λ a. zeros;
  pins = λ a. 0;
  power = 2;
}

stopping-Ready : Ready log_at_2 stopping
stopping-Ready = record {
  cleared = refl;
  apart = λ i a lt lo hi. omega arith;
  synced = λ a home out. let h : 40 ≢ a = out 0 (omega arith) in ground arith;
}

commit_atomic_example : recovered log_at_2 1 (commit log_at_2 stopping).1 40 ≡ sevens
commit_atomic_example =
    commit_atomic log_at_2 stopping stopping-Ready 1 (omega arith) 40 (inr (omega arith))

abbrev header : Header
header = record { n = 1; block = λ _. 40 }

abbrev header_block : Block
header_block i = if i == 0 then 1 else 40

abbrev committed_disk : Store
committed_disk = record {
  mem = λ a. zeros;
  disk = λ a. if a == 2 then header_block else if a == 3 then sevens else zeros;
  pins = λ a. 0;
  power = 0;
}

disk-Committed : Committed 2 header (λ a. sevens) committed_disk.disk
disk-Committed = record {
  count = refl;
  blocks = λ i lt. ground arith;
  slots = λ i lt. let e : i ≡ 0 = omega arith in rw e refl;
  apart = λ i a lt lo hi. omega arith;
}

recovery_restarts_example :
    recovered log_at_2 1 (initlog 2 30 (reboot 0 committed_disk)).1 40
    ≡ recovered log_at_2 1 committed_disk 40
recovery_restarts_example =
    recovery_restarts log_at_2 committed_disk disk-Committed 0 1 (omega arith) 40
      (inr (omega arith))

abbrev idle : ℕ → System
idle size = init 2 size zeros stopping

abbrev begun : ℕ → Log
begun size = record {
  start = 2;
  size = size;
  outstanding = 1;
  committing = false;
  lh = record { n = 0; block = zeros };
}

abbrev running : ℕ → System
running size = record { log = begun size; store = stopping; ops = maxopblocks ∷ [] }

runs : (size : ℕ) → Reach (idle size) (running size)
unfolding begin_op
runs size = next here (begin refl)

log_write-reserved_example : log_write 40 (begun 31) stopping ≢ panic
log_write-reserved_example =
    log_write-reserved 2 31 zeros stopping (omega arith) (runs 31) [] [] 9 refl 40

log_write-mkfs_example : (log_write 40 (begun 30) stopping ≡ panic) ↔ (0 + 1 ≡ logsize)
log_write-mkfs_example = log_write-mkfs 2 zeros stopping (runs 30) [] [] 9 refl 40

abbrev wrote : Log
wrote = record {
  start = 2;
  size = 30;
  outstanding = 1;
  committing = false;
  lh = record { n = 1; block = update zeros 0 40 };
}

logged-Distinct_example : Distinct wrote.lh
unfolding log_write find_block bpin
logged-Distinct_example =
    logged-Distinct 2 30 zeros stopping (next (runs 30) (write 40 [] [] 9 refl refl))
