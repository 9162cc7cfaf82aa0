-- ===== src/Kernel/Fs/Itable/Examples.antt =====
-- A table with one inode in use, which has one block and no link.
use os_proj.Base.{ℕ, ◌<◌, ◌≡◌, ◌≢◌, ◌⊎◌, sym, ◌∙◌, arith, false, update, ℕ_discrete, ok, panic}
use os_proj.Kernel.Fs.Trunc.Examples.{short_file}
use os_proj.Kernel.Fs.Itable.{Itable, ninode, is_inode, iget}
use os_proj.Kernel.Fs.Itable.Single.{Single, Got, iget-Got}

abbrev one_inode : Itable
one_inode =
    update (λ x. record { dev = 0; ref = 0; node = short_file }) 4
      (record { dev = 1; ref = 1; node = short_file })

unused_else : (x : ℕ) → x ≢ 4 → (one_inode x).ref ≡ 0
unused_else x ne = ground arith

only_four : (x : ℕ) → (one_inode x).ref ≢ 0 → x ≡ 4
only_four x ne = elim (ℕ_discrete x 4) [ yes e ↦ e | no n ↦ absurd (ne (unused_else x n)) ]

one_inode-Single : Single one_inode
one_inode-Single i j li lj ui uj q q' = only_four i ui ∙ sym (only_four j uj)

iget-Got_example :
    ((i : ℕ) × (t' : Itable) × (iget 1 1 one_inode ≡ ok (i, t')) × Got 1 1 one_inode i t')
    ⊎ (((x : ℕ) → x < ninode → (one_inode x).ref ≢ 0)
        × ((x : ℕ) → x < ninode → is_inode 1 1 (one_inode x) ≡ false)
        × (iget 1 1 one_inode ≡ panic))
iget-Got_example = iget-Got 1 1 one_inode one_inode-Single
