-- ===== src/Kernel/Spinlock/Examples.antt =====
-- A concrete CPU for the theorem on kernel/spinlock.c.
use os_proj.Base.{◌≡◌, refl, arith, true, false, ok}
use os_proj.Kernel.Spinlock.{Cpu}
use os_proj.Kernel.Spinlock.Nesting.{pushes, pops, nesting}

abbrev idle : Cpu
idle = record { noff = 0; intena = false; intr = true }

nesting_example : pops 2 (pushes 3 idle) ≡ ok (record { noff = 1; intena = true; intr = false })
nesting_example = nesting 2 3 idle refl (omega arith) (omega arith)
