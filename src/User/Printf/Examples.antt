-- ===== src/User/Printf/Examples.antt =====
-- The number -42.
use os_proj.Base.{◌^◌, ◌≤◌, ◌≡◌, ◌≢◌, arith, true, length}
use os_proj.User.Ulib.{to_int, atoi}
use os_proj.User.Printf.{printint}
use os_proj.User.Printf.Numbers.{atoi-printint}

atoi-printint_example :
    (4294967254 ≢ 2 ^ 31 → atoi (printint 4294967254 10 true) ≡ to_int 4294967254)
    × (length (printint 4294967254 10 true) ≤ 11)
atoi-printint_example = atoi-printint 4294967254 (omega arith)
