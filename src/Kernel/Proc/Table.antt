-- ===== src/Kernel/Proc/Table.antt =====
-- `struct proc` and the process table of kernel/proc.c, its searches, `allocpid`, `allocproc` and
-- `freeproc`.
pub mod Search
use os_proj.Base.{
  ℕ, zero, suc, ◌+◌, ◌&&◌, Bool, true, false, Option, none, some, List, [], ◌∷◌, ◌++◌, ◌==◌,
  if◌then◌else◌, update, ℤ, pos,
}

abbrev pub nproc : ℕ
nproc = 64

abbrev pub nofile : ℕ
nofile = 16

pub data ProcState : Type 0 where
  unused used sleeping runnable running zombie : ProcState

abbrev pub is_unused : ProcState → Bool
is_unused unused = true
is_unused _ = false

abbrev pub is_sleeping : ProcState → Bool
is_sleeping sleeping = true
is_sleeping _ = false

abbrev pub is_runnable : ProcState → Bool
is_runnable runnable = true
is_runnable _ = false

abbrev pub is_zombie : ProcState → Bool
is_zombie zombie = true
is_zombie _ = false

-- `void *chan`: a null pointer, the address of a process, or another address.
pub data Chan : Type 0 where
  null : Chan
  of_proc : ℕ → Chan
  addr : ℕ → Chan

abbrev pub same_chan : Chan → Chan → Bool
same_chan null null = true
same_chan (of_proc i) (of_proc j) = i == j
same_chan (addr a) (addr b) = a == b
same_chan _ _ = false

-- `struct proc`, less `lock`, `kstack` and `context`. `parent` and `ofile` hold table indices, the
-- other pointers are addresses with 0 for a null pointer, and `name` is the string in the array.
pub record Proc : Type 0 where
  pub state : ProcState
  pub chan : Chan
  pub killed : Bool
  pub xstate : ℤ
  pub pid : ℕ
  pub parent : Option ℕ
  pub sz : ℕ
  pub pagetable : ℕ
  pub trapframe : ℕ
  pub ofile : ℕ → Option ℕ
  pub cwd : ℕ
  pub name : List ℕ
  pub start_time : ℕ
  pub turnaround_time : ℕ
  pub wait_time : ℕ
  pub total_wait_time : ℕ
  pub wait_time_ticks : ℕ
  pub end_time : ℕ
  pub priority : ℕ

-- A call of another part of the kernel, in the order made.
pub data Call : Type 0 where
  kfree : ℕ → Call
  freepagetable : (pagetable sz : ℕ) → Call
  filedup : ℕ → Call
  fileclose : ℕ → Call
  idup : ℕ → Call
  iput : ℕ → Call

-- `proc`, `nextpid`, `initproc` and the calls made so far, the latest first.
pub record Table : Type 0 where
  pub proc : ℕ → Proc
  pub nextpid : ℕ
  pub initproc : Option ℕ
  pub calls : List Call

abbrev pub set_proc : ℕ → Proc → Table → Table
set_proc i p t = record t { proc = update t.proc i p }

abbrev pub log_call : Call → Table → Table
log_call c t = record t { calls = c ∷ t.calls }

-- `for (p = proc; p < &proc[NPROC]; p++) if (test) ...`: the first index from `i` on, with `k`
-- rounds left, that passes.
unfoldable pub find_first : (ℕ → Bool) → ℕ → ℕ → Option ℕ
find_first test zero i = none
find_first test (suc k) i = let rest = find_first test k (i + 1) in if test i then some i else rest

-- `int` overflow of `nextpid` is undefined in C, and is left out.
unfoldable pub allocpid : Table → ℕ × Table
allocpid t = (t.nextpid, record t { nextpid = t.nextpid + 1 })

unfoldable pub freeproc : ℕ → Table → Table
freeproc i t =
    let p = t.proc i in
    let t₁ = if p.trapframe == 0 then t else log_call (kfree p.trapframe) t in
    let t₂ = if p.pagetable == 0 then t₁ else log_call (freepagetable p.pagetable p.sz) t₁ in
    set_proc i
      (record p {
        trapframe = 0;
        pagetable = 0;
        sz = 0;
        pid = 0;
        parent = none;
        name = [];
        chan = null;
        killed = false;
        xstate = pos 0;
        state = unused;
      })
      t₂

-- What `kalloc` and `proc_pagetable` answer: an address, or 0.
pub record Memory : Type 0 where
  pub page : ℕ
  pub pagetable : ℕ

-- The rest of `allocproc`, from the label `found` on or after the loop.
unfoldable pub allocproc_at : Option ℕ → Memory → Table → Option ℕ × Table
allocproc_at none m t = (none, t)
allocproc_at (some i) m t =
    let (pid, t₁) = allocpid t in
    let p = record (t.proc i) { pid = pid; priority = 10; state = used; trapframe = m.page } in
    let t₂ = set_proc i p t₁ in
    let t₃ = set_proc i (record p { pagetable = m.pagetable }) t₂ in
    if m.page == 0
    then (none, freeproc i t₂)
    else if m.pagetable == 0
    then (none, freeproc i t₃)
    else (some i, t₃)

unfoldable pub allocproc : Memory → Table → Option ℕ × Table
allocproc m t = allocproc_at (find_first (λ i. is_unused (t.proc i).state) nproc 0) m t
