-- ===== src/Kernel/Kalloc.antt =====
-- kernel/kalloc.c: the free pages. Physical memory holds bytes; the list that the free pages hold
-- in their first words is a list of addresses, since nothing but the two functions reads those
-- words.
pub mod Pages
pub mod Examples
use os_proj.Base.{
  ℕ, zero, suc, ◌+◌, ◌-◌, ◌*◌, ◌/◌, ◌%◌, ◌||◌, Bool, true, false, not, Option, none, some, List, [],
  ◌∷◌, ltb, leb, ◌==◌, if◌then◌else◌, Res, ok, panic, ◌>>=◌, ◌>>◌, panic_if,
}
use os_proj.Kernel.Cstring.{memset}

abbrev pub pgsize : ℕ
pgsize = 4096

-- `kmem.freelist` and the bytes of physical memory.
pub record Kmem : Type 0 where
  pub freelist : List ℕ
  pub mem : ℕ → ℕ

-- `end` and `PHYSTOP` are arguments: the linker sets the one.
pub kfree : (end_addr phystop : ℕ) → ℕ → Kmem → Res Kmem
kfree end_addr phystop pa k = do
  panic_if (not (pa % pgsize == 0) || ltb pa end_addr || leb phystop pa)
  ok (record { freelist = pa ∷ k.freelist; mem = memset pa 1 pgsize k.mem })

-- The address, or 0.
pub kalloc : Kmem → ℕ × Kmem
kalloc k = elim (k.freelist) [
  | [] ↦ (0, k)
  | r ∷ rest ↦ (r, record { freelist = rest; mem = memset r 5 pgsize k.mem })
]

-- `PGROUNDUP`.
abbrev pub pgroundup : ℕ → ℕ
pgroundup sz = (sz + pgsize - 1) / pgsize * pgsize

-- The loop of `freerange`, on fuel.
pub freerange_loop : (end_addr phystop : ℕ) → ℕ → ℕ → ℕ → Kmem → Res Kmem
freerange_loop end_addr phystop zero p pa_end k = ok k
freerange_loop end_addr phystop (suc fuel) p pa_end k =
    if leb (p + pgsize) pa_end
    then (kfree end_addr phystop p k >>= freerange_loop end_addr phystop fuel (p + pgsize) pa_end)
    else ok k

pub freerange : (end_addr phystop : ℕ) → ℕ → ℕ → Kmem → Res Kmem
freerange end_addr phystop pa_start pa_end k =
    freerange_loop end_addr phystop (pa_end / pgsize + 1) (pgroundup pa_start) pa_end k

pub kinit : (end_addr phystop : ℕ) → Kmem → Res Kmem
kinit end_addr phystop k = freerange end_addr phystop end_addr phystop k
