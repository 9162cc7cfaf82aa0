-- ===== src/Kernel/Proc/Life/Reap.antt =====
-- `wait` of kernel/proc.c reaps a zombie child, and gives its slot back.
use os_proj.Base.{ℕ, ◌≡◌, false, none, ◌≢◌, [], ◌∷◌, ◌++◌, pos, ◌==◌, if◌then◌else◌}
use os_proj.Kernel.Proc.Table.{Table, unused, null, kfree, freepagetable}

-- The slot `z` is free again, with no pid, parent, name, channel, mark of a kill, status or
-- memory; its page and its page table were given back, in this order, if it had them, and neither
-- another slot nor the next pid nor init has changed.
pub record Vacated (z : ℕ) (t t' : Table) : Type 0 where
  pub no_process : (t'.proc z).state ≡ unused
  pub no_pid : (t'.proc z).pid ≡ 0
  pub no_parent : (t'.proc z).parent ≡ none
  pub no_name : (t'.proc z).name ≡ []
  pub no_chan : (t'.proc z).chan ≡ null
  pub not_killed : (t'.proc z).killed ≡ false
  pub no_status : (t'.proc z).xstate ≡ pos 0
  pub no_pages : ((t'.proc z).trapframe ≡ 0) × ((t'.proc z).pagetable ≡ 0) × ((t'.proc z).sz ≡ 0)
  pub others : (j : ℕ) → j ≢ z → t'.proc j ≡ t.proc j
  pub no_new_pid : t'.nextpid ≡ t.nextpid
  pub init_kept : t'.initproc ≡ t.initproc
  pub given_back :
      t'.calls
      ≡ (if (t.proc z).pagetable == 0
          then []
          else freepagetable (t.proc z).pagetable (t.proc z).sz ∷ [])
        ++ (if (t.proc z).trapframe == 0 then [] else kfree (t.proc z).trapframe ∷ [])
        ++ t.calls
