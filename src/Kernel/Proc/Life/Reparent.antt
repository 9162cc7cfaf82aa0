-- ===== src/Kernel/Proc/Life/Reparent.antt =====
-- `reparent` of kernel/proc.c: which parents change, and who is woken.
use os_proj.Base.{
  ℕ, zero, suc, ◌+◌, ◌≡◌, refl, ◌∙◌, ◌⊎◌, inl, inr, ◌&&◌, Option, some, arith, ltb, leb,
  if◌then◌else◌, Bool-cases,
}
use os_proj.Kernel.Proc.Table.{nproc, ProcState, runnable, Chan, Proc, Table, set_proc}
use os_proj.Kernel.Proc.Wake.{wakeup}
use os_proj.Kernel.Proc.Wake.Laws.{woken, wakeup_lem, wakeup-rest, wakeup_self}
use os_proj.Kernel.Proc.Life.{same_slot, chan_of, reparent_one, reparent_loop}

-- `wakeup` changes at most the state of a process, from sleeping to runnable, and its waiting time.
abbrev pub Woken : Proc → Proc → Type 0
Woken p q =
    (q ≡ record p { state = q.state; wait_time = q.wait_time })
    × ((q.state ≡ p.state) ⊎ ((p.state ≡ ProcState.sleeping) × (q.state ≡ runnable)))

pub woken-Woken :
    (cur : ℕ) (c : Chan) (now : ℕ → ℕ) (j : ℕ) (p : Proc) → Woken p (woken cur c now j p)
unfolding woken
woken-Woken cur c now j p = (ground arith, ground arith)

pub Woken-refl : (p : Proc) → Woken p p
Woken-refl p = (refl, inl refl)

pub Woken-trans : (p q r : Proc) → Woken p q → Woken q r → Woken p r
Woken-trans p q r a b = (ground arith, ground arith)

pub wakeup-Woken :
    (cur : ℕ) (c : Chan) (now : ℕ → ℕ) (t : Table) (j : ℕ)
    → Woken (t.proc j) ((wakeup cur c now t).proc j)
wakeup-Woken cur c now t j = rw (wakeup_lem cur c now t j) (elim (Bool-cases (ltb j nproc)) [
  | inl y ↦ rw y (woken-Woken cur c now j (t.proc j))
  | inr y ↦ rw y (Woken-refl (t.proc j))
])

-- What `reparent` does to the parent of the process in slot `j`, in the slots from `i` to `i + k`.
abbrev pub new_parent : ℕ → ℕ → ℕ → ℕ → Option ℕ → Option ℕ → Option ℕ
new_parent cur i k j init old =
    if leb i j && ltb j (i + k) && same_slot old (some cur) then init else old

-- Parents are replaced in these slots, and processes are at most woken.
pub record Reparented (cur i k : ℕ) (t t' : Table) : Type 0 where
  pub init_kept : t'.initproc ≡ t.initproc
  pub pid_kept : t'.nextpid ≡ t.nextpid
  pub calls_kept : t'.calls ≡ t.calls
  pub own :
      t'.proc cur
      ≡ record (t.proc cur) { parent = new_parent cur i k cur t.initproc (t.proc cur).parent }
  pub moved :
      (j : ℕ)
      → Woken
          (record (t.proc j) { parent = new_parent cur i k j t.initproc (t.proc j).parent })
          (t'.proc j)

pub reparent_one-Reparented :
    (cur : ℕ) (now : ℕ → ℕ) (i : ℕ) (t : Table) → Reparented cur i 1 t (reparent_one cur now i t)
unfolding reparent_one
reparent_one-Reparented cur now i t = elim (Bool-cases (same_slot (t.proc i).parent (some cur))) [
  | inl y ↦
      let u = set_proc i (record (t.proc i) { parent = t.initproc }) t in
      rw y (record {
        init_kept = (wakeup-rest cur (chan_of t.initproc) now u).0;
        pid_kept = (wakeup-rest cur (chan_of t.initproc) now u).1;
        calls_kept = (wakeup-rest cur (chan_of t.initproc) now u).2;
        own = wakeup_self cur (chan_of t.initproc) now u ∙ ground arith;
        moved = λ j. ground (arith, wakeup-Woken cur (chan_of t.initproc) now u j);
      })
  | inr y ↦ rw y (record {
    init_kept = refl;
    pid_kept = refl;
    calls_kept = refl;
    own = ground arith;
    moved = λ j. ground arith;
  })
]

pub reparent_loop-Reparented :
    (cur : ℕ) (now : ℕ → ℕ) (k i : ℕ) (t : Table)
    → Reparented cur i k t (reparent_loop cur now k i t)
unfolding reparent_loop
reparent_loop-Reparented cur now zero i t = record {
  init_kept = refl;
  pid_kept = refl;
  calls_kept = refl;
  own = ground arith;
  moved = λ j. ground arith;
}
reparent_loop-Reparented cur now (suc k) i t =
    let u = reparent_one cur now i t in
    let one = reparent_one-Reparented cur now i t in
    let rest = reparent_loop-Reparented cur now k (i + 1) u in
    record {
      init_kept = rest.init_kept ∙ one.init_kept;
      pid_kept = rest.pid_kept ∙ one.pid_kept;
      calls_kept = rest.calls_kept ∙ one.calls_kept;
      own = ground (arith, rest.own, one.own, one.init_kept);
      moved = λ j. ground (arith, one.moved j, rest.moved j, one.init_kept);
    }
