-- ===== src/Base/Family.antt =====
-- Families indexed by numbers: C arrays and tables as functions, written one place at a time.
use Prim.Native.Nat.{ℕ, ◌≤◌, ◌<◌}
use native.Mathlib.Decide.{dec_lt}
use mathlib.Core.Path.{◌≡◌}
use mathlib.Core.Logic.{◌≢◌}
use native.Mathlib.Omega.{arith}
use os_proj.Base.Tests.{◌==◌, if◌then◌else◌}

module _ {ℓ} {A : Type ℓ} where
  abbrev pub update : (ℕ → A) → ℕ → A → ℕ → A
  update f i a j = if j == i then a else f j

  pub update_self : (f : ℕ → A) (i : ℕ) (a : A) → update f i a i ≡ a
  update_self f i a = ground arith

  pub update_ne : (f : ℕ → A) (i : ℕ) (a : A) (j : ℕ) → j ≢ i → update f i a j ≡ f j
  update_ne f i a j h = ground arith

-- A fact about every index from `i` on: it holds at `i`, and later.
pub cases_at {ℓ} : (P : ℕ → Type ℓ) (i j : ℕ) → i ≤ j → P i → (i < j → P j) → P j
cases_at P i j h p later = elim (dec_lt i j) [
  | yes lt ↦ later lt
  | no ge ↦ let e : j ≡ i = omega arith in rw e p
]
