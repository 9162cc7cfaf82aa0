-- ===== src/Base/Panic.antt =====
-- Kernel code that may panic, as a monad: `panic` stops the machine.
use mathlib.Core.Bool.{Bool, true, false}

pub data Res {ℓ} (A : Type ℓ) : Type ℓ where
  ok : A → Res A
  panic : Res A

infixl 5 ◌>>=◌ ◌>>◌
abbrev pub ◌>>=◌ {ℓ κ} : {A : Type ℓ} {B : Type κ} → Res A → (A → Res B) → Res B
ok a >>= f = f a
panic >>= f = panic

abbrev pub ◌>>◌ {ℓ} : {B : Type ℓ} → Res (Unit {0}) → Res B → Res B
m >> k = m >>= λ _. k

-- `if(bad) panic(...)`.
abbrev pub panic_if : Bool → Res (Unit {0})
panic_if true = panic
panic_if false = ok tt
