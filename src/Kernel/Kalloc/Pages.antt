-- ===== src/Kernel/Kalloc/Pages.antt =====
-- Which pages kernel/kalloc.c has to give.
use os_proj.Base.{
  ℕ, zero, suc, ◌+◌, ◌*◌, ◌/◌, ◌%◌, ◌≤◌, ◌<◌, ◌≡◌, refl, arith, Bool, false, ◌&&◌, ◌||◌, List, [],
  ◌∷◌, leb, ◌==◌, ok, Bool-cases, inl, inr,
}
use os_proj.Kernel.Cstring.{memset}
use os_proj.Kernel.Kalloc.{Kmem, kfree, freerange_loop, freerange, kinit, pgsize, pgroundup}

abbrev pub member : List ℕ → ℕ → Bool
member [] a = false
member (x ∷ xs) a = a == x || member xs a

-- A whole page from `p` on.
abbrev pub is_page : ℕ → ℕ → ℕ → Bool
is_page p pa_end a = a % pgsize == 0 && (leb p a && leb (a + pgsize) pa_end)

module _ (end_addr phystop : ℕ) where
  kfree-page :
      (p : ℕ) (k : Kmem)
      → p % pgsize ≡ 0
      → end_addr ≤ p
      → p < phystop
      → (k' : Kmem) × (kfree end_addr phystop p k ≡ ok k') × (k'.freelist ≡ p ∷ k.freelist)
  unfolding kfree
  kfree-page p k al lo hi =
      (record { freelist = p ∷ k.freelist; mem = memset p 1 pgsize k.mem }, ground arith, refl)

  freerange_loop-lem :
      (fuel p : ℕ) (k : Kmem)
      → p % pgsize ≡ 0
      → end_addr ≤ p
      → phystop < p + fuel * pgsize
      → (k' : Kmem) × (freerange_loop end_addr phystop fuel p phystop k ≡ ok k')
        × ((a : ℕ) → member k'.freelist a ≡ (member k.freelist a || is_page p phystop a))
  unfolding freerange_loop
  freerange_loop-lem zero p k al lo enough = (k, refl, λ a. ground arith)
  freerange_loop-lem (suc fuel) p k al lo enough = elim (Bool-cases (leb (p + pgsize) phystop)) [
    | inr out ↦ (k, ground arith, λ a. ground arith)
    | inl room ↦
        let (k₁, e₁, l₁) = kfree-page p k al lo (ground arith) in
        let (k₂, e₂, l₂) =
          freerange_loop-lem fuel (p + pgsize) k₁ (omega arith) (omega arith) (omega arith) in
        (k₂, ground arith, λ a. ground (arith, l₂ a))
  ]

  -- `kinit` does not panic, and the pages it frees, on a list that was empty, are exactly those
  -- that lie between `end` and `PHYSTOP`.
  pub kinit-pages :
      (mem : ℕ → ℕ)
      → (k : Kmem) × (kinit end_addr phystop (record { freelist = []; mem = mem }) ≡ ok k)
        × ((a : ℕ) → member k.freelist a ≡ is_page end_addr phystop a)
  unfolding kinit freerange
  kinit-pages mem =
      let start = pgroundup end_addr in
      let (k, e, l) =
        freerange_loop-lem (phystop / pgsize + 1) start (record { freelist = []; mem = mem })
          (omega arith) (omega arith) (omega arith) in
      (k, e, λ a. ground (arith, l a))
