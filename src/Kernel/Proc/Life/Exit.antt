-- ===== src/Kernel/Proc/Life/Exit.antt =====
-- What `exit` of kernel/proc.c leaves behind, and that the parent's next `wait` sees it.
use os_proj.Base.{
  ℕ, ◌+◌, ◌-◌, ◌%◌, ◌^◌, ◌<◌, ◌≡◌, ◌≢◌, refl, ap, ◌∙◌, ◌⊎◌, inl, inr, Bool, ◌∷◌, false, none, some,
  arith, ◌==◌, if◌then◌else◌, Bool-cases, ℤ, ok, panic,
}
use os_proj.Kernel.Proc.Table.{
  nproc, nofile, ProcState, runnable, zombie, iput, of_proc, Proc, Table, set_proc,
}
use os_proj.Kernel.Proc.Wake.{wakeup}
use os_proj.Kernel.Proc.Wake.Laws.{woken, wakeup_lem, wakeup-rest, wakeup_self}
use os_proj.Kernel.Proc.Life.{same_slot, chan_of, reparent, exit_close, exit, Waited, reaped, wait}
use os_proj.Kernel.Proc.Life.Files.{
  file_closes, close_files-all, close_files-FilesOnly, close_files-ofile,
}
use os_proj.Kernel.Proc.Life.Wait.{wait_reaps, find_zombie_lem}
use os_proj.Kernel.Proc.Life.Reparent.{
  Woken, wakeup-Woken, new_parent, Reparented, reparent_loop-Reparented,
}

-- What an `exit` by slot `cur` leaves.
pub record Exited (cur : ℕ) (status : ℤ) (stop : ℕ) (t t' : Table) : Type 0 where
  pub dead : (t'.proc cur).state ≡ zombie
  pub no_new_pid : t'.nextpid ≡ t.nextpid
  pub init_kept : t'.initproc ≡ t.initproc
  pub own : t'.proc cur ≡ record (t.proc cur) {
    state = zombie;
    xstate = status;
    ofile = (t'.proc cur).ofile;
    cwd = 0;
    parent = new_parent cur 0 nproc cur t.initproc (t.proc cur).parent;
    end_time = if (t.proc cur).start_time == 0 then (t.proc cur).end_time else stop;
    turnaround_time =
        if (t.proc cur).start_time == 0
        then (t.proc cur).turnaround_time
        else (stop + 2 ^ 64 - (t.proc cur).start_time) % 2 ^ 64;
  }
  pub let_go : t'.calls ≡ iput (t.proc cur).cwd ∷ file_closes (t.proc cur).ofile nofile t.calls
  pub status_kept : (t'.proc cur).xstate ≡ status
  pub pid_kept : (t'.proc cur).pid ≡ (t.proc cur).pid
  pub closed : (fd : ℕ) → fd < nofile → (t'.proc cur).ofile fd ≡ none
  pub no_cwd : (t'.proc cur).cwd ≡ 0
  pub own_parent : (t'.proc cur).parent ≡ new_parent cur 0 nproc cur t.initproc (t.proc cur).parent
  pub others :
      (j : ℕ)
      → j ≢ cur
      → Woken
          (record (t.proc j) { parent = new_parent cur 0 nproc j t.initproc (t.proc j).parent })
          (t'.proc j)
  pub parent_woken :
      (q : ℕ)
      → q ≢ cur
      → q < nproc
      → (t.proc cur).parent ≡ some q
      → (t.proc q).state ≡ ProcState.sleeping
      → (t.proc q).chan ≡ of_proc q
      → (t'.proc q).state ≡ runnable

module _ (cur : ℕ) (status : ℤ) (stop : ℕ) (now : ℕ → ℕ) (t : Table) where
  abbrev t₄ : Table
  t₄ = exit_close cur stop t

  abbrev t₅ : Table
  t₅ = reparent cur now t₄

  abbrev t₆ : Table
  t₆ = wakeup cur (chan_of (t₅.proc cur).parent) now t₅

  abbrev t₇ : Table
  t₇ = set_proc cur (record (t₆.proc cur) { xstate = status; state = zombie }) t₆

  -- `exit_close` keeps the other processes, and of its own the fields that are named here.
  record Closed : Type 0 where
    init_kept : t₄.initproc ≡ t.initproc
    next_kept : t₄.nextpid ≡ t.nextpid
    kept : (j : ℕ) → j ≢ cur → t₄.proc j ≡ t.proc j
    no_cwd : (t₄.proc cur).cwd ≡ 0
    closed : (fd : ℕ) → fd < nofile → (t₄.proc cur).ofile fd ≡ none
    own_parent : (t₄.proc cur).parent ≡ (t.proc cur).parent
    own_pid : (t₄.proc cur).pid ≡ (t.proc cur).pid
    own : t₄.proc cur ≡ record (t.proc cur) {
      ofile = (t₄.proc cur).ofile;
      cwd = 0;
      end_time = if (t.proc cur).start_time == 0 then (t.proc cur).end_time else stop;
      turnaround_time =
          if (t.proc cur).start_time == 0
          then (t.proc cur).turnaround_time
          else (stop + 2 ^ 64 - (t.proc cur).start_time) % 2 ^ 64;
    }
    let_go : t₄.calls ≡ iput (t.proc cur).cwd ∷ file_closes (t.proc cur).ofile nofile t.calls

  exit_close-Closed : Closed
  unfolding exit_close
  exit_close-Closed =
      let p = t.proc cur in
      let timed = record p {
        end_time = stop;
        turnaround_time = (stop + 2 ^ 64 - p.start_time) % 2 ^ 64;
      } in
      let u = if p.start_time == 0 then t else set_proc cur timed t in
      let only = close_files-FilesOnly cur nofile 0 u in
      record {
        init_kept = ground (arith, only.2);
        next_kept = ground (arith, only.3);
        kept = λ j ne. ground (arith, only.0 j ne);
        no_cwd = ground arith;
        closed = λ fd lt. ground (arith, close_files-ofile cur nofile 0 u fd);
        own_parent = ground (arith, only.1);
        own_pid = ground (arith, only.1);
        own = ground (arith, only.1);
        let_go = ground (arith, only.1, close_files-all cur u);
      }

  reparented : Reparented cur 0 nproc t₄ t₅
  unfolding reparent
  reparented = reparent_loop-Reparented cur now nproc 0 t₄

  last_wake : (j : ℕ) → Woken (t₅.proc j) (t₆.proc j)
  last_wake = wakeup-Woken cur (chan_of (t₅.proc cur).parent) now t₅

  wakes_parent :
      (q : ℕ)
      → q ≢ cur
      → q < nproc
      → (t.proc cur).parent ≡ some q
      → (t.proc q).state ≡ ProcState.sleeping
      → (t.proc q).chan ≡ of_proc q
      → (t₇.proc q).state ≡ runnable
  unfolding woken
  wakes_parent q ne lt e asleep on =
      let c = exit_close-Closed in
      let mine : (t₅.proc cur).parent ≡ some q =
        ground (arith, (reparented.moved cur).0, c.own_parent) in
      let same : t₄.proc q ≡ t.proc q = c.kept q ne in
      let on₅ : (t₅.proc q).chan ≡ of_proc q = ground (arith, (reparented.moved q).0) in
      let moved : ((t₅.proc q).state ≡ ProcState.sleeping) ⊎ ((t₅.proc q).state ≡ runnable) =
        elim ((reparented.moved q).1) [
          | inl kept ↦ inl (kept ∙ ap (λ (p : Proc). p.state) same ∙ asleep)
          | inr woke ↦ inr woke.1
        ] in
      elim moved [
        | inl s ↦ ground (arith, wakeup_lem cur (chan_of (t₅.proc cur).parent) now t₅ q)
        | inr r ↦ ground (arith, (last_wake q).1)
      ]

  own_lem : t₇.proc cur ≡ record (t.proc cur) {
    state = zombie;
    xstate = status;
    ofile = (t₇.proc cur).ofile;
    cwd = 0;
    parent = new_parent cur 0 nproc cur t.initproc (t.proc cur).parent;
    end_time = if (t.proc cur).start_time == 0 then (t.proc cur).end_time else stop;
    turnaround_time =
        if (t.proc cur).start_time == 0
        then (t.proc cur).turnaround_time
        else (stop + 2 ^ 64 - (t.proc cur).start_time) % 2 ^ 64;
  }
  own_lem =
      let c = exit_close-Closed in
      let woke = wakeup_self cur (chan_of (t₅.proc cur).parent) now t₅ in
      ground (arith, woke, reparented.own, c.own, c.own_parent, c.init_kept)

  exited : Exited cur status stop t t₇
  exited =
      let c = exit_close-Closed in
      record {
        dead = ground arith;
        no_new_pid =
            (wakeup-rest cur (chan_of (t₅.proc cur).parent) now t₅).1
            ∙ reparented.pid_kept
            ∙ c.next_kept;
        init_kept =
            (wakeup-rest cur (chan_of (t₅.proc cur).parent) now t₅).0
            ∙ reparented.init_kept
            ∙ c.init_kept;
        own = own_lem;
        let_go =
            (wakeup-rest cur (chan_of (t₅.proc cur).parent) now t₅).2
            ∙ reparented.calls_kept
            ∙ c.let_go;
        status_kept = ground arith;
        pid_kept = ground (arith, (last_wake cur).0, (reparented.moved cur).0, c.own_pid);
        closed = λ fd lt. ground (arith, (last_wake cur).0, (reparented.moved cur).0, c.closed fd);
        no_cwd = ground (arith, (last_wake cur).0, (reparented.moved cur).0, c.no_cwd);
        own_parent =
            ground (arith, (last_wake cur).0, (reparented.moved cur).0, c.own_parent, c.init_kept);
        others = λ j ne. ground (arith, last_wake j, reparented.moved j, c.kept j ne, c.init_kept);
        parent_woken = wakes_parent;
      }

-- `exit` of a process other than init leaves it a zombie with its status, no open file and no
-- directory, and with the time of its end and the time since its start where it has a start time;
-- its other fields are as before, but that its parent is init if it was its own parent.
-- `fileclose` was called for each of its open files, in the order of the descriptors, and then
-- `iput` for its directory. Its children get init as their parent, its own parent is woken if it
-- waits, and of the other processes nothing else changes but that sleeping ones may be woken; nor
-- do the next pid and init. `exit` of init panics.
pub exit-Exited :
    (cur : ℕ) (status : ℤ) (stop : ℕ) (now : ℕ → ℕ) (t : Table)
    → ((t.initproc ≡ some cur) × (exit cur status stop now t ≡ panic))
      ⊎ ((t.initproc ≢ some cur)
          × ((t' : Table) × (exit cur status stop now t ≡ ok t') × Exited cur status stop t t'))
unfolding exit
exit-Exited cur status stop now t = elim (Bool-cases (same_slot (some cur) t.initproc)) [
  | inl y ↦ inl (ground arith, rw y)
  | inr n ↦ inr (λ e. ground arith, (t₇ cur status stop now t, rw n, exited cur status stop now t))
]

-- No exit is lost: after a process that is not init exits, the next `wait` of its parent,
-- wherever a status address of 0 is given, reaps a child, and so neither fails nor sleeps.
pub exit-wait :
    (cur q : ℕ) (status : ℤ) (stop : ℕ) (now : ℕ → ℕ) (copied : Bool) (t t' : Table)
    → exit cur status stop now t ≡ ok t'
    → cur < nproc
    → q ≢ cur
    → (t.proc cur).parent ≡ some q
    → (pid : ℕ) × ((wait q 0 copied t').0 ≡ reaped pid none)
exit-wait cur q status stop now copied t t' e lt ne par = elim (exit-Exited cur status stop now t) [
  | inl (init, stopped) ↦ absurd (cc (e, stopped))
  | inr (other, (t'', done, x)) ↦ let same : t'' ≡ t' = cc (e, done) in reap (rw same at x)
]
  where
    reap : Exited cur status stop t t' → (pid : ℕ) × ((wait q 0 copied t').0 ≡ reaped pid none)
    reap x = elim (find_zombie_lem q t'.proc nproc 0 nproc false refl) [
      | inl c ↦ absurd (cc (c.alive cur (omega arith) lt (ground (arith, x.own_parent)), x.dead))
      | inr (z, c) ↦ (
        (t'.proc z).pid,
        ap (λ (r : Waited × Table). r.0)
            (wait_reaps q 0 copied t' z c.inside c.dead (λ j h. c.first j (omega arith) h)),
      )
    ]
