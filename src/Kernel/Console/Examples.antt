-- ===== src/Kernel/Console/Examples.antt =====
-- A concrete ring for the theorems on kernel/console.c.
use os_proj.Base.{◌%◌, arith, true, false, [], ◌∷◌}
use os_proj.Kernel.Console.{Cons, consoleintr, consoleread}
use os_proj.Kernel.Console.Input.{Valid, Kept, consoleintr-Kept}
use os_proj.Kernel.Console.Read.{Taken, consoleread-Taken}

-- One line is ready, two bytes are being edited, and the indices have wrapped around.
abbrev ring : Cons
ring = record { buf = λ i. i % 100; r = 4294967294; w = 3; e = 5 }

ring-Valid : Valid ring
ring-Valid = record {
  r_bound = omega arith;
  w_bound = omega arith;
  e_bound = omega arith;
  order = omega arith;
  room = omega arith;
}

consoleintr-Kept_example : Kept ring (consoleintr b'x' ring).1
consoleintr-Kept_example = consoleintr-Kept b'x' ring ring-Valid

consoleread-Taken_example :
    Taken ring
      (consoleread false (true ∷ true ∷ []) 0 ring).1
      (consoleread false (true ∷ true ∷ []) 0 ring).2
consoleread-Taken_example = consoleread-Taken false (true ∷ true ∷ []) 0 ring ring-Valid
