-- ===== src/Kernel/Proc/Life.antt =====
-- `fork`, `reparent`, `exit` and `wait` of kernel/proc.c. `cur` is the slot of the calling process.
pub mod Files
pub mod Fork
pub mod Reparent
pub mod Exit
pub mod Wait
pub mod Reap
use os_proj.Base.{
  ℕ, zero, suc, ◌+◌, ◌-◌, ◌%◌, ◌^◌, ◌&&◌, ◌||◌, Bool, true, false, Option, none, some, List, [],
  ◌∷◌, ◌==◌, if◌then◌else◌, not, update, ℤ, pos, minus_one, Res, ok, panic, ◌>>=◌, ◌>>◌, panic_if,
}
use os_proj.Kernel.Cstring.{safestrcpy}
use os_proj.Kernel.Proc.Table.{
  nproc, nofile, ProcState, runnable, zombie, is_zombie, Chan, null, of_proc, Proc, Call, filedup,
  fileclose, idup, iput, Table, set_proc, log_call, Memory, allocproc, freeproc,
}
use os_proj.Kernel.Proc.Wake.{wakeup, killed}

-- The string "initcode".
abbrev initcode_name : List ℕ
initcode_name = b'i' ∷ b'n' ∷ b'i' ∷ b't' ∷ b'c' ∷ b'o' ∷ b'd' ∷ b'e' ∷ []

unfoldable pub userinit_with : Option ℕ → (cwd ticks start wait : ℕ) → Table → Option Table
userinit_with none cwd ticks start wait t = none
userinit_with (some i) cwd ticks start wait t =
    let u = record t { initproc = some i } in
    let p = u.proc i in
    some (
      set_proc i
        (record p {
          sz = 4096;
          name = safestrcpy p.name initcode_name 16;
          cwd = cwd;
          state = runnable;
          wait_time_ticks = ticks;
          start_time = start;
          wait_time = wait;
        })
        u)

-- `userinit`, less the page of code that `uvmfirst` copies. `cwd` is what `namei("/")` returns,
-- and the two times are read one after the other. The source does not test the result of
-- `allocproc`; where that is null it would go on to write through it, and the result here is
-- `none`.
unfoldable pub userinit : Memory → (cwd ticks start wait : ℕ) → Table → Option Table
unfolding userinit_with
userinit m cwd ticks start wait t =
    let (np, t') = allocproc m t in userinit_with np cwd ticks start wait t'

-- `if (p->ofile[i]) np->ofile[i] = filedup(p->ofile[i]);`
pub dup_one : Option ℕ → ℕ → ℕ → Table → Table
dup_one none np fd t = t
dup_one (some f) np fd t =
    let c = t.proc np in
    set_proc np (record c { ofile = update c.ofile fd (some f) }) (log_call (filedup f) t)

-- The loop of `fork` over the open files of slot `cur`, for the child in slot `np`.
pub dup_files : ℕ → ℕ → ℕ → ℕ → Table → Table
unfolding dup_one
dup_files cur np zero fd t = t
dup_files cur np (suc k) fd t =
    dup_files cur np k (fd + 1) (dup_one ((t.proc cur).ofile fd) np fd t)

-- The body of `fork` after `uvmcopy`; `copied` is whether that succeeded. The registers in the
-- trapframe and the console output are left out.
pub fork_child : ℕ → ℕ → Bool → ℕ → Table → ℤ × Table
fork_child cur np copied now t =
    let t₁ = set_proc np (record (t.proc np) { sz = (t.proc cur).sz }) t in
    let t₂ = dup_files cur np nofile 0 t₁ in
    let t₃ = log_call (idup (t₂.proc cur).cwd) t₂ in
    let c = t₃.proc np in
    let child = record c {
      cwd = (t₃.proc cur).cwd;
      name = safestrcpy c.name (t₃.proc cur).name 16;
      parent = some cur;
      state = runnable;
      start_time = now;
      wait_time = now;
    } in
    if copied then (pos c.pid, set_proc np child t₃) else (minus_one, freeproc np t)

pub fork_with : Option ℕ → ℕ → Bool → ℕ → Table → ℤ × Table
fork_with none cur copied now t = (minus_one, t)
fork_with (some np) cur copied now t = fork_child cur np copied now t

pub fork : ℕ → Memory → Bool → ℕ → Table → ℤ × Table
unfolding fork_with
fork cur m copied now t = let (np, t') = allocproc m t in fork_with np cur copied now t'

abbrev pub same_slot : Option ℕ → Option ℕ → Bool
same_slot (some i) (some j) = i == j
same_slot none none = true
same_slot _ _ = false

-- `wakeup(initproc)` and `wakeup(p->parent)`: the address of a process, or a null pointer.
abbrev pub chan_of : Option ℕ → Chan
chan_of none = null
chan_of (some i) = of_proc i

unfoldable pub reparent_one : ℕ → (ℕ → ℕ) → ℕ → Table → Table
reparent_one cur now i t =
    if same_slot (t.proc i).parent (some cur)
    then wakeup cur (chan_of t.initproc) now
        (set_proc i (record (t.proc i) { parent = t.initproc }) t)
    else t

unfoldable pub reparent_loop : ℕ → (ℕ → ℕ) → ℕ → ℕ → Table → Table
reparent_loop cur now zero i t = t
reparent_loop cur now (suc k) i t = reparent_loop cur now k (i + 1) (reparent_one cur now i t)

unfoldable pub reparent : ℕ → (ℕ → ℕ) → Table → Table
reparent cur now t = reparent_loop cur now nproc 0 t

-- `if (p->ofile[fd]) { fileclose(f); p->ofile[fd] = 0; }`
pub close_one : Option ℕ → ℕ → ℕ → Table → Table
close_one none cur fd t = t
close_one (some f) cur fd t =
    let p = t.proc cur in
    set_proc cur (record p { ofile = update p.ofile fd none }) (log_call (fileclose f) t)

unfoldable pub close_files : ℕ → ℕ → ℕ → Table → Table
unfolding close_one
close_files cur zero fd t = t
close_files cur (suc k) fd t =
    close_files cur k (fd + 1) (close_one ((t.proc cur).ofile fd) cur fd t)

-- `exit` up to the calls of `reparent` and `wakeup`. `stop` is the time read for `end_time`.
unfoldable pub exit_close : ℕ → ℕ → Table → Table
exit_close cur stop t =
    let p = t.proc cur in
    let timed = record p {
      end_time = stop;
      turnaround_time = (stop + 2 ^ 64 - p.start_time) % 2 ^ 64;
    } in
    let t₁ = if p.start_time == 0 then t else set_proc cur timed t in
    let t₂ = close_files cur nofile 0 t₁ in
    let t₃ = log_call (iput (t₂.proc cur).cwd) t₂ in
    set_proc cur (record (t₃.proc cur) { cwd = 0 }) t₃

-- `exit` up to the call of `sched`, which does not return.
unfoldable pub exit : ℕ → ℤ → ℕ → (ℕ → ℕ) → Table → Res Table
unfolding exit_close
exit cur status stop now t = do
  panic_if (same_slot (some cur) t.initproc)
  let t₄ = exit_close cur stop t
  let t₅ = reparent cur now t₄
  let t₆ = wakeup cur (chan_of (t₅.proc cur).parent) now t₅
  ok (set_proc cur (record (t₆.proc cur) { xstate = status; state = zombie }) t₆)

-- `struct proc_time`, as `wait` fills it.
pub record ProcTime : Type 0 where
  pub pid : ℕ
  pub start_time : ℕ
  pub turnaround_time : ℕ
  pub wait_time : ℕ
  pub total_wait_time : ℕ
  pub end_time : ℕ
  pub priority : ℕ

pub times : Proc → ProcTime
times p = record {
  pid = p.pid;
  start_time = p.start_time;
  turnaround_time = p.turnaround_time;
  wait_time = p.wait_time;
  total_wait_time = p.total_wait_time;
  end_time = p.end_time;
  priority = p.priority;
}

-- What one pass of the loop of `wait` ends with: a child reaped, with its pid and what was copied
-- out; -1; or a sleep on the caller's own address.
pub data Waited : Type 0 where
  reaped : (pid : ℕ) → Option ProcTime → Waited
  failed : Waited
  slept : Waited

-- The inner loop: the first zombie child from slot `i` on, or whether there was any child.
pub find_zombie : ℕ → (ℕ → Proc) → ℕ → ℕ → Bool → Option ℕ × Bool
find_zombie cur proc zero i havekids = (none, havekids)
find_zombie cur proc (suc k) i havekids =
    let child = same_slot (proc i).parent (some cur) in
    let rest = find_zombie cur proc k (i + 1) (havekids || child) in
    if child && is_zombie (proc i).state then (some i, true) else rest

pub wait_with : Option ℕ → Bool → ℕ → ℕ → Bool → Table → Waited × Table
wait_with (some i) havekids cur address copied t =
    let p = t.proc i in
    if address == 0
    then (reaped p.pid none, freeproc i t)
    else if copied
    then (reaped p.pid (some (times p)), freeproc i t)
    else (failed, t)
wait_with none havekids cur address copied t =
    if not havekids || killed cur t then (failed, t) else (slept, t)

-- One pass of `wait(addr)`; `copied` is whether `copyout` succeeded.
pub wait : ℕ → ℕ → Bool → Table → Waited × Table
unfolding wait_with
wait cur address copied t =
    let (zombie_child, havekids) = find_zombie cur t.proc nproc 0 false in
    wait_with zombie_child havekids cur address copied t
