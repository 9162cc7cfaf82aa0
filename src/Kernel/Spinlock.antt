-- ===== src/Kernel/Spinlock.antt =====
-- kernel/spinlock.c: spinlocks, and the nesting of disabled interrupts on each CPU. The atomic
-- swap of `acquire` is one step, which fails while the lock is held.
pub mod Nesting
pub mod Examples
use os_proj.Base.{
  ℕ, zero, suc, ◌+◌, ◌-◌, ◌&&◌, Bool, true, false, not, Option, none, some, ltb, ◌==◌,
  if◌then◌else◌, Res, ok, panic, ◌>>=◌, ◌>>◌, panic_if,
}

-- `noff` and `intena` of a `struct cpu`, and whether interrupts are on.
pub record Cpu : Type 0 where
  pub noff : ℕ
  pub intena : Bool
  pub intr : Bool

-- `struct spinlock`, with the CPU that holds it.
pub record Spinlock : Type 0 where
  pub locked : Bool
  pub cpu : Option ℕ

pub initlock : Spinlock
initlock = record { locked = false; cpu = none }

pub push_off : Cpu → Cpu
push_off c = record {
  noff = c.noff + 1;
  intena = if c.noff == 0 then c.intr else c.intena;
  intr = false;
}

pub pop_off : Cpu → Res Cpu
pop_off c = do
  panic_if c.intr
  panic_if (ltb c.noff 1)
  let noff = c.noff - 1
  ok (record { noff = noff; intena = c.intena; intr = noff == 0 && c.intena })

-- Whether CPU `me` holds the lock.
pub holding : ℕ → Spinlock → Bool
holding me lk = lk.locked && elim (lk.cpu) [ none ↦ false | some c ↦ c == me ]

-- The first part of `acquire`, which leaves interrupts off.
pub acquire_begin : ℕ → Spinlock → Cpu → Res Cpu
acquire_begin me lk c = do let c' = push_off c; panic_if (holding me lk); ok c'

-- One swap of its loop; `none` if the lock was held.
pub acquire_try : ℕ → Spinlock → Option Spinlock
acquire_try me lk = if lk.locked then none else some (record { locked = true; cpu = some me })

pub release : ℕ → Spinlock → Cpu → Res (Spinlock × Cpu)
release me lk c = do
  panic_if (not (holding me lk))
  c' ← pop_off c
  ok (record { locked = false; cpu = none }, c')
