-- ===== src/Kernel/Fs/Bitmap/Examples.antt =====
-- A disk of eight blocks on which the results on the free map of kernel/fs.c apply.
use os_proj.Base.{ℕ, zero, suc, ◌<◌, ◌≡◌, ◌⊎◌, refl, arith, true, update}
use os_proj.Kernel.Fs.{Disk, Superblock}
use os_proj.Kernel.Fs.Bitmap.{is_used, get_bit, balloc}
use os_proj.Kernel.Fs.Bitmap.Laws.{Guarded, Allocated, balloc-Allocated}

abbrev pub small_sb : Superblock
small_sb = record { size = 8; inodestart = 2; bmapstart = 1 }

-- The map is block 1; it says that the blocks 0, 1 and 2 are in use.
abbrev pub small_disk : Disk
small_disk = update (λ b i. 0) 1 (update (λ i. 0) 0 7)

pub small_used : (x : ℕ) → x < 3 → is_used small_sb small_disk x ≡ true
unfolding is_used get_bit
small_used zero lt = refl
small_used (suc zero) lt = refl
small_used (suc (suc zero)) lt = refl
small_used (suc (suc (suc x))) lt = absurd (omega arith)

pub small_disk-Guarded : Guarded small_sb small_disk
unfolding Guarded
small_disk-Guarded = (small_used 0 (omega arith), λ x b lt lt' e. small_used x (omega arith))

-- Here the block 3 is in use too.
abbrev pub used_disk : Disk
used_disk = update (λ b i. 0) 1 (update (λ i. 0) 0 15)

pub used_disk_used : (x : ℕ) → x < 4 → is_used small_sb used_disk x ≡ true
unfolding is_used get_bit
used_disk_used zero lt = refl
used_disk_used (suc zero) lt = refl
used_disk_used (suc (suc zero)) lt = refl
used_disk_used (suc (suc (suc zero))) lt = refl
used_disk_used (suc (suc (suc (suc x)))) lt = absurd (omega arith)

pub used_disk-Guarded : Guarded small_sb used_disk
unfolding Guarded
used_disk-Guarded = (used_disk_used 0 (omega arith), λ x b lt lt' e. used_disk_used x (omega arith))

balloc-Allocated_example :
    (((x : ℕ) → x < small_sb.size → is_used small_sb small_disk x ≡ true)
      × (balloc small_sb small_disk ≡ (0, small_disk)))
    ⊎ ((b : ℕ) × (d' : Disk) × (balloc small_sb small_disk ≡ (b, d'))
        × Allocated small_sb small_disk b d')
balloc-Allocated_example = balloc-Allocated small_sb small_disk small_disk-Guarded
