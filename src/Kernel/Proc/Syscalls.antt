-- ===== src/Kernel/Proc/Syscalls.antt =====
-- The system calls of kernel/sysproc.c that read or write the process table.
use os_proj.Base.{
  ℕ, zero, suc, ◌+◌, ◌&&◌, Bool, Option, none, some, List, [], ◌∷◌, ltb, ◌==◌, if◌then◌else◌, not,
  ℤ, pos, negsuc, minus_one, length,
}
use os_proj.Kernel.Cstring.{safestrcpy}
use os_proj.Kernel.Proc.Table.{nproc, ProcState, is_unused, Table, set_proc, find_first}

-- `proc_parent_pid` of kernel/proc.c.
pub parent_pid : Table → ℕ → ℕ
parent_pid t i = elim ((t.proc i).parent) [ none ↦ 0 | some q ↦ (t.proc q).pid ]

pub sys_getpid : Table → ℕ → ℕ
sys_getpid t cur = (t.proc cur).pid

pub sys_getppid : Table → ℕ → ℕ
sys_getppid t cur = parent_pid t cur

-- `struct pinfo` of `sys_getptable`.
pub record Pinfo : Type 0 where
  pub pid : ℕ
  pub ppid : ℕ
  pub state : ProcState
  pub name : List ℕ
  pub sz : ℕ

pub pinfo : Table → ℕ → Pinfo
pinfo t i =
    let p = t.proc i in
    record {
      pid = p.pid;
      ppid = parent_pid t i;
      state = p.state;
      name = safestrcpy [] p.name 16;
      sz = p.sz;
    }

pub ptable_loop : Table → ℕ → ℕ → List Pinfo
ptable_loop t zero i = []
ptable_loop t (suc k) i =
    let rest = ptable_loop t k (i + 1) in
    if is_unused (t.proc i).state then rest else pinfo t i ∷ rest

-- The entries copied out and the result; `copied` is whether `copyout` succeeded.
pub sys_getptable : Bool → Table → List Pinfo × ℤ
sys_getptable copied t =
    let entries = ptable_loop t nproc 0 in
    if copied then (entries, pos (length entries)) else ([], minus_one)

-- `if (p->pid == pid && p->state != UNUSED)`
abbrev pub is_live_pid : Table → ℕ → ℕ → Bool
is_live_pid t pid i = (t.proc i).pid == pid && not (is_unused (t.proc i).state)

unfoldable pub set_priority_at : Option ℕ → ℕ → Table → ℤ × Table
set_priority_at none priority t = (minus_one, t)
set_priority_at (some i) priority t =
    (pos 0, set_proc i (record (t.proc i) { priority = priority }) t)

unfoldable pub sys_set_priority : ℕ → ℤ → Table → ℤ × Table
unfolding set_priority_at
sys_set_priority pid (negsuc _) t = (minus_one, t)
sys_set_priority pid (pos priority) t =
    if ltb 20 priority
    then (minus_one, t)
    else set_priority_at (find_first (is_live_pid t pid) nproc 0) priority t
