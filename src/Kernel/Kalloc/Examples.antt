-- ===== src/Kernel/Kalloc/Examples.antt =====
-- A concrete memory for the theorem on kernel/kalloc.c.
use os_proj.Base.{ℕ, ◌≡◌, ok, []}
use os_proj.Kernel.Kalloc.{Kmem, kinit}
use os_proj.Kernel.Kalloc.Pages.{member, is_page, kinit-pages}

abbrev zeros : ℕ → ℕ
zeros a = 0

kinit-pages_example :
    (k : Kmem) × (kinit 100 20000 (record { freelist = []; mem = zeros }) ≡ ok k)
    × ((a : ℕ) → member k.freelist a ≡ is_page 100 20000 a)
kinit-pages_example = kinit-pages 100 20000 zeros
