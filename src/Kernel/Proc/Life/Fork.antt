-- ===== src/Kernel/Proc/Life/Fork.antt =====
-- What `fork` of kernel/proc.c makes of the process table.
use os_proj.Base.{
  ℕ, ◌+◌, ◌≤◌, ◌<◌, ◌≡◌, ◌≢◌, refl, ap, ◌∙◌, ◌⊎◌, inl, inr, Bool, true, false, Option, none, some,
  arith, ltb, if◌then◌else◌, fun_ext, ℕ_discrete, ℤ, pos, minus_one,
}
use os_proj.Kernel.Cstring.{safestrcpy}
use os_proj.Kernel.Proc.Table.{
  nproc, nofile, ProcState, runnable, is_unused, Proc, Table, set_proc, Memory, allocproc,
  allocproc_at, allocpid, freeproc,
}
use os_proj.Kernel.Proc.Table.Search.{find_first_lem}
use os_proj.Kernel.Proc.Life.{dup_files, fork_child, fork_with, fork}
use os_proj.Kernel.Proc.Life.Files.{FilesOnly, dup_files-FilesOnly, or_else, dup_files-ofile}

-- The child in slot `np` as `fork` leaves it, made from what the slot held before.
abbrev pub child : ℕ → ℕ → Memory → ℕ → Table → Proc
child cur np m now t =
    let p = t.proc cur in
    let old = t.proc np in
    record old {
      state = runnable;
      pid = t.nextpid;
      parent = some cur;
      sz = p.sz;
      pagetable = m.pagetable;
      trapframe = m.page;
      ofile = λ i. if ltb i nofile then or_else (p.ofile i) (old.ofile i) else old.ofile i;
      cwd = p.cwd;
      name = safestrcpy old.name p.name 16;
      start_time = now;
      wait_time = now;
      priority = 10;
    }

-- `fork` succeeded with the child in slot `np`.
pub record Forked (cur np : ℕ) (m : Memory) (now : ℕ) (t : Table) (r : ℤ) (t' : Table)
    : Type 0 where
  pub inside : np < nproc
  pub was_unused : is_unused (t.proc np).state ≡ true
  pub first : (j : ℕ) → j < np → is_unused (t.proc j).state ≡ false
  pub pid : r ≡ pos t.nextpid
  pub made : t'.proc np ≡ child cur np m now t
  pub others : (j : ℕ) → j ≢ np → t'.proc j ≡ t.proc j
  pub counted : t'.nextpid ≡ t.nextpid + 1

module _ (cur np : ℕ) (ne : cur ≢ np) (m : Memory) (now : ℕ) (t : Table) where
  -- The table with which `fork_child` begins.
  abbrev t₀ : Table
  t₀ = (allocproc_at (some np) m t).1

  abbrev t₁ : Table
  t₁ = set_proc np (record (t₀.proc np) { sz = (t₀.proc cur).sz }) t₀

  t₁-np :
      m.page ≢ 0
      → m.pagetable ≢ 0
      → t₁.proc np ≡ record (t.proc np) {
        state = ProcState.used;
        pid = t.nextpid;
        sz = (t.proc cur).sz;
        pagetable = m.pagetable;
        trapframe = m.page;
        priority = 10;
      }
  unfolding allocproc_at allocpid
  t₁-np h h' = ground arith

  t₁-other : m.page ≢ 0 → m.pagetable ≢ 0 → (j : ℕ) → j ≢ np → t₁.proc j ≡ t.proc j
  unfolding allocproc_at allocpid
  t₁-other h h' j n = ground arith

  abbrev t₂ : Table
  t₂ = dup_files cur np nofile 0 t₁

  t₂-only : FilesOnly np t₁ t₂
  t₂-only = dup_files-FilesOnly cur np nofile 0 t₁

  module _ (h : m.page ≢ 0) (h' : m.pagetable ≢ 0) where
    t₂-cur : t₂.proc cur ≡ t.proc cur
    t₂-cur = t₂-only.0 cur ne ∙ t₁-other h h' cur ne

    t₂-files : (t₂.proc np).ofile ≡ (child cur np m now t).ofile
    t₂-files = fun_ext λ i.
        ground (arith, dup_files-ofile cur np ne nofile 0 t₁ i, t₁-np h h', t₁-other h h' cur ne)

    fork_child-made : (fork_child cur np true now t₀).1.proc np ≡ child cur np m now t
    unfolding fork_child
    fork_child-made = ground (arith, t₁-np h h', t₂-only.1, t₂-cur, t₂-files)

    fork_child-others : (j : ℕ) → j ≢ np → (fork_child cur np true now t₀).1.proc j ≡ t.proc j
    unfolding fork_child
    fork_child-others j n = ground (arith, t₁-other h h' j n, t₂-only.0 j n)

    fork_child-pid : (fork_child cur np true now t₀).0 ≡ pos t.nextpid
    unfolding fork_child
    fork_child-pid = ground (arith, t₁-np h h', t₂-only.1)

    t₁-nextpid : t₁.nextpid ≡ t.nextpid + 1
    unfolding allocproc_at allocpid
    t₁-nextpid = ground arith

    fork_child-nextpid : (fork_child cur np true now t₀).1.nextpid ≡ t.nextpid + 1
    unfolding fork_child
    fork_child-nextpid = t₂-only.3 ∙ t₁-nextpid

    allocproc_at-ok : allocproc_at (some np) m t ≡ (some np, t₀)
    unfolding allocproc_at
    allocproc_at-ok = ground arith

fork_with-none :
    (cur : ℕ) (m : Memory) (now : ℕ) (t : Table)
    → fork_with (allocproc_at none m t).0 cur true now (allocproc_at none m t).1 ≡ (minus_one, t)
unfolding fork_with allocproc_at
fork_with-none cur m now t = refl

-- With memory to be had and a caller that is in use, `fork` takes the first unused slot and makes
-- there a runnable child with a new pid, the parent's size, directory, name and open files, times
-- from now and priority 10, and changes no other slot; without an unused slot it returns -1 and
-- changes nothing. The other fields of the child, `total_wait_time` among them, are those that the
-- slot held before.
pub fork-Forked :
    (cur : ℕ) (m : Memory) (now : ℕ) (t : Table)
    → is_unused (t.proc cur).state ≡ false
    → m.page ≢ 0
    → m.pagetable ≢ 0
    → (((j : ℕ) → j < nproc → is_unused (t.proc j).state ≡ false)
        × (fork cur m true now t ≡ (minus_one, t)))
      ⊎ ((np : ℕ) × Forked cur np m now t (fork cur m true now t).0 (fork cur m true now t).1)
unfolding fork allocproc
fork-Forked cur m now t busy h h' =
    elim (find_first_lem (λ i. is_unused (t.proc i).state) nproc 0) [
      | inl (e, out) ↦
          inl (λ j lt. out j (omega arith) (omega arith), rw e (fork_with-none cur m now t))
      | inr (np, e, lo, hi, y, out) ↦
          let ne : cur ≢ np = λ q. cc (ap (λ j. is_unused (t.proc j).state) q) in
          inr (
            np,
            rw (e, allocproc_at-ok cur np ne m now t h h')
                (record {
                  inside = omega arith;
                  was_unused = y;
                  first = λ j lt. out j (omega arith) lt;
                  pid = fork_child-pid cur np ne m now t h h';
                  made = fork_child-made cur np ne m now t h h';
                  others = fork_child-others cur np ne m now t h h';
                  counted = fork_child-nextpid cur np ne m now t h h';
                }),
          )
    ]

-- The slot that a failing `fork` took and gave back.
abbrev pub Untouched : Table → Table → Type 0
Untouched t t' =
    (t.nextpid ≤ t'.nextpid)
    × ((j : ℕ)
        → (t'.proc j ≡ t.proc j)
          ⊎ ((is_unused (t.proc j).state ≡ true) × (is_unused (t'.proc j).state ≡ true)))

-- The slot that was found is unused.
abbrev Free : Option ℕ → Table → Type 0
Free none t = Unit
Free (some np) t = is_unused (t.proc np).state ≡ true

fork_with-fails :
    (o : Option ℕ) (cur : ℕ) (m : Memory) (copied : Bool) (now : ℕ) (t : Table)
    → (m.page ≡ 0) ⊎ (m.pagetable ≡ 0) ⊎ (copied ≡ false)
    → Free o t
    → ((fork_with (allocproc_at o m t).0 cur copied now (allocproc_at o m t).1).0 ≡ minus_one)
      × Untouched t (fork_with (allocproc_at o m t).0 cur copied now (allocproc_at o m t).1).1
unfolding fork_with fork_child allocproc_at allocpid freeproc
fork_with-fails none cur m copied now t short y = (refl, (omega arith, λ j. inl refl))
fork_with-fails (some np) cur m copied now t short y = (
  ground arith,
  (
    ground arith,
    λ j. elim (ℕ_discrete j np) [
      | yes e ↦ rw e (inr (y, ground arith))
      | no ne ↦ inl (ground arith)
    ],
  ),
)

-- A `fork` without the memory it needs returns -1, and every slot is as it was, but for one that
-- was unused and is unused again.
pub fork-fails :
    (cur : ℕ) (m : Memory) (copied : Bool) (now : ℕ) (t : Table)
    → (m.page ≡ 0) ⊎ (m.pagetable ≡ 0) ⊎ (copied ≡ false)
    → ((fork cur m copied now t).0 ≡ minus_one) × Untouched t (fork cur m copied now t).1
unfolding fork allocproc
fork-fails cur m copied now t short =
    elim (find_first_lem (λ i. is_unused (t.proc i).state) nproc 0) [
      | inl (e, out) ↦ rw e (fork_with-fails none cur m copied now t short tt)
      | inr (np, e, lo, hi, y, out) ↦ rw e (fork_with-fails (some np) cur m copied now t short y)
    ]
