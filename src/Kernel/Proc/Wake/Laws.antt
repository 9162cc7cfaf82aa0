-- ===== src/Kernel/Proc/Wake/Laws.antt =====
-- What `wakeup` and `kill` of kernel/proc.c do to each slot of the process table.
use os_proj.Base.{
  ℕ, zero, suc, ◌+◌, ◌<◌, ◌≡◌, ◌≢◌, refl, ◌⊎◌, inl, inr, ◌&&◌, true, arith, ltb, leb, ◌==◌,
  if◌then◌else◌, ℤ, pos, minus_one, ◌∙◌,
}
use os_proj.Kernel.Proc.Table.{nproc, runnable, is_sleeping, Chan, same_chan, Proc, Table, set_proc}
use os_proj.Kernel.Proc.Table.Search.{find_first_lem}
use os_proj.Kernel.Proc.Wake.{wake_one, wake_loop, wakeup, kill}

-- What the loop of `wakeup` makes of the process in slot `j`.
unfoldable pub woken : ℕ → Chan → (ℕ → ℕ) → ℕ → Proc → Proc
woken cur chan now j p =
    if j == cur
    then p
    else if is_sleeping p.state && same_chan p.chan chan
    then record p { state = runnable; wait_time = now j }
    else p

module _ (cur : ℕ) (chan : Chan) (now : ℕ → ℕ) where
  wake_one_lem :
      (i : ℕ) (t : Table) (j : ℕ)
      → (wake_one cur chan now i t).proc j
        ≡ (if j == i then woken cur chan now j (t.proc j) else t.proc j)
  unfolding wake_one woken
  wake_one_lem i t j = ground arith

  wake_loop_lem :
      (k i : ℕ) (t : Table) (j : ℕ)
      → (wake_loop cur chan now k i t).proc j
        ≡ (if leb i j && ltb j (i + k) then woken cur chan now j (t.proc j) else t.proc j)
  unfolding wake_loop
  wake_loop_lem zero i t j = ground arith
  wake_loop_lem (suc k) i t j =
      ground (arith, wake_one_lem i t j, wake_loop_lem k (i + 1) (wake_one cur chan now i t) j)

  wake_loop-rest :
      (k i : ℕ) (t : Table)
      → ((wake_loop cur chan now k i t).initproc ≡ t.initproc)
        × ((wake_loop cur chan now k i t).nextpid ≡ t.nextpid)
        × ((wake_loop cur chan now k i t).calls ≡ t.calls)
  unfolding wake_loop wake_one
  wake_loop-rest zero i t = (refl, refl, refl)
  wake_loop-rest (suc k) i t = ground (arith, wake_loop-rest k (i + 1) (wake_one cur chan now i t))

  pub wakeup-rest :
      (t : Table)
      → ((wakeup cur chan now t).initproc ≡ t.initproc)
        × ((wakeup cur chan now t).nextpid ≡ t.nextpid)
        × ((wakeup cur chan now t).calls ≡ t.calls)
  unfolding wakeup
  wakeup-rest t = wake_loop-rest nproc 0 t

  -- `wakeup` makes runnable, with a new waiting time, exactly the processes of the table that sleep
  -- on the channel, the caller excepted, and changes no other process.
  pub wakeup_lem :
      (t : Table) (j : ℕ)
      → (wakeup cur chan now t).proc j
        ≡ (if ltb j nproc then woken cur chan now j (t.proc j) else t.proc j)
  unfolding wakeup
  wakeup_lem t j = wake_loop_lem nproc 0 t j ∙ ground arith

  -- The caller itself is not woken.
  pub wakeup_self : (t : Table) → (wakeup cur chan now t).proc cur ≡ t.proc cur
  unfolding woken
  wakeup_self t = ground (arith, wakeup_lem t cur)

abbrev killed_proc : Proc → Proc
killed_proc p = record p {
  killed = true;
  state = if is_sleeping p.state then runnable else p.state;
}

-- `kill(pid)` returns 0 and marks the first process with that pid, waking it if it sleeps; it
-- returns -1 and changes nothing exactly if no process has the pid.
abbrev pub Killed : ℕ → Table → ℤ × Table → Type 0
Killed pid t (r, t') =
    ((r ≡ minus_one) × (t' ≡ t) × ((j : ℕ) → j < nproc → (t.proc j).pid ≢ pid))
    ⊎ ((i : ℕ) × (r ≡ pos 0)
        × (i < nproc)
        × ((t.proc i).pid ≡ pid)
        × ((j : ℕ) → j < i → (t.proc j).pid ≢ pid)
        × (t' ≡ set_proc i (killed_proc (t.proc i)) t))

-- `kill` marks the first process with the pid as killed, makes it runnable if it sleeps, and
-- changes nothing else, `wait_time` included; without such a process it returns -1 and changes
-- nothing.
pub kill-Killed : (pid : ℕ) (t : Table) → Killed pid t (kill pid t)
unfolding kill
kill-Killed pid t = elim (find_first_lem (λ i. (t.proc i).pid == pid) nproc 0) [
  | inl (e, out) ↦ rw e (inl (refl, refl, λ j h. ground (arith, out j)))
  | inr (i, e, lo, hi, y, out) ↦
      rw e (inr (i, refl, omega arith, ground arith, λ j h. ground (arith, out j), refl))
]
