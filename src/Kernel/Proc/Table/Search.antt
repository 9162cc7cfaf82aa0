-- ===== src/Kernel/Proc/Table/Search.antt =====
-- The search loop over the process table.
use os_proj.Base.{
  ℕ, zero, suc, ◌+◌, ◌≤◌, ◌<◌, ◌≡◌, refl, ◌⊎◌, inl, inr, Bool, true, false, none, some, arith,
  Bool-cases, cases_at,
}
use os_proj.Kernel.Proc.Table.{find_first}

-- The first index that passes the test, or that none does.
pub find_first_lem :
    (test : ℕ → Bool) (k i : ℕ)
    → ((find_first test k i ≡ none) × ((j : ℕ) → i ≤ j → j < i + k → test j ≡ false))
      ⊎ ((n : ℕ) × (find_first test k i ≡ some n)
          × (i ≤ n)
          × (n < i + k)
          × (test n ≡ true)
          × ((j : ℕ) → i ≤ j → j < n → test j ≡ false))
unfolding find_first
find_first_lem test zero i = inl (refl, λ j h h'. absurd (omega arith))
find_first_lem test (suc k) i = elim (Bool-cases (test i)) [
  | inl e ↦ inr (i, rw e, omega arith, omega arith, e, λ j h h'. absurd (omega arith))
  | inr e ↦ elim (find_first_lem test k (i + 1)) [
    | inl (q, out) ↦ inl (
      rw e q,
      λ j h h'. cases_at (λ n. test n ≡ false) i j h e (λ lt. out j (omega arith) (omega arith)),
    )
    | inr (n, q, lo, hi, y, out) ↦ inr (
      n,
      rw e q,
      omega arith,
      omega arith,
      y,
      λ j h h'. cases_at (λ n. test n ≡ false) i j h e (λ lt. out j (omega arith) h'),
    )
  ]
]
