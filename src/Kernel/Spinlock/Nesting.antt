-- ===== src/Kernel/Spinlock/Nesting.antt =====
-- Nested `push_off` and `pop_off` of kernel/spinlock.c.
use os_proj.Base.{
  ℕ, zero, suc, ◌-◌, ◌≤◌, ◌<◌, ◌≡◌, arith, false, ◌==◌, if◌then◌else◌, ok, Res, ◌>>=◌,
}
use os_proj.Kernel.Spinlock.{Cpu, push_off, pop_off}

pub pushes : ℕ → Cpu → Cpu
pushes zero c = c
pushes (suc n) c = push_off (pushes n c)

pub pops : ℕ → Cpu → Res Cpu
pops zero c = ok c
pops (suc n) c = pops n c >>= pop_off

pushes-lem :
    (n : ℕ) (c : Cpu)
    → c.noff ≡ 0
    → pushes (suc n) c ≡ record { noff = suc n; intena = c.intr; intr = false }
unfolding pushes push_off
pushes-lem zero c e = ground arith
pushes-lem (suc n) c e = let ih = pushes-lem n c e in ground arith

pops-lem :
    (m n : ℕ) (c : Cpu)
    → c.noff ≡ 0
    → m ≤ suc n
    → pops m (pushes (suc n) c)
      ≡ ok (record {
        noff = suc n - m;
        intena = c.intr;
        intr = if m == suc n then c.intr else false;
      })
unfolding pops pop_off
pops-lem zero n c e le = let p = pushes-lem n c e in ground arith
pops-lem (suc m) n c e le = let ih = pops-lem m n c e (omega arith) in ground arith

-- On a CPU with no lock held, after `n > 0` calls of `push_off` and at most as many of `pop_off`,
-- no call panics, as many levels are left as the calls differ by, and interrupts are off until
-- the last one, which sets them to what they were before the first.
pub nesting :
    (m n : ℕ) (c : Cpu)
    → c.noff ≡ 0
    → 0 < n
    → m ≤ n
    → pops m (pushes n c)
      ≡ ok (record { noff = n - m; intena = c.intr; intr = if m == n then c.intr else false })
nesting m zero c e pos le = absurd (omega arith)
nesting m (suc n) c e pos le = pops-lem m n c e le
