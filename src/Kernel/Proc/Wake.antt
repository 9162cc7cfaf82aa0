-- ===== src/Kernel/Proc/Wake.antt =====
-- `wakeup`, `sleep`, `kill`, `setkilled` and `killed` of kernel/proc.c. `now i` is what `r_time`
-- returns when the loop is at slot `i`.
pub mod Laws
use os_proj.Base.{
  ℕ, zero, suc, ◌+◌, ◌&&◌, Bool, true, false, Option, none, some, ◌==◌, if◌then◌else◌, not, ℤ, pos,
  minus_one,
}
use os_proj.Kernel.Proc.Table.{
  nproc, ProcState, sleeping, runnable, is_sleeping, Chan, null, same_chan, Proc, Table, set_proc,
  find_first,
}

-- The body of the loop of `wakeup`, called by the process in slot `cur`.
unfoldable pub wake_one : ℕ → Chan → (ℕ → ℕ) → ℕ → Table → Table
wake_one cur chan now i t =
    let p = t.proc i in
    if i == cur
    then t
    else if is_sleeping p.state && same_chan p.chan chan
    then set_proc i (record p { state = runnable; wait_time = now i }) t
    else t

unfoldable pub wake_loop : ℕ → Chan → (ℕ → ℕ) → ℕ → ℕ → Table → Table
wake_loop cur chan now zero i t = t
wake_loop cur chan now (suc k) i t = wake_loop cur chan now k (i + 1) (wake_one cur chan now i t)

unfoldable pub wakeup : ℕ → Chan → (ℕ → ℕ) → Table → Table
wakeup cur chan now t = wake_loop cur chan now nproc 0 t

-- `sleep` up to the call of `sched`, and after it.
unfoldable pub sleep_begin : ℕ → Chan → Table → Table
sleep_begin cur chan t = set_proc cur (record (t.proc cur) { chan = chan; state = sleeping }) t

unfoldable pub sleep_end : ℕ → Table → Table
sleep_end cur t = set_proc cur (record (t.proc cur) { chan = null }) t

pub kill_at : Option ℕ → Table → ℤ × Table
kill_at none t = (minus_one, t)
kill_at (some i) t =
    let p = t.proc i in
    (
      pos 0,
      set_proc i
          (record p { killed = true; state = if is_sleeping p.state then runnable else p.state }) t,
    )

pub kill : ℕ → Table → ℤ × Table
unfolding kill_at
kill pid t = kill_at (find_first (λ i. (t.proc i).pid == pid) nproc 0) t

unfoldable pub setkilled : ℕ → Table → Table
setkilled i t = set_proc i (record (t.proc i) { killed = true }) t

pub killed : ℕ → Table → Bool
killed i t = (t.proc i).killed
