-- ===== src/Kernel/Fs/Itable/Put.antt =====
-- `iput` of kernel/fs.c, and what the last one of an inode without links does.
use os_proj.Base.{
  ℕ, ◌-◌, ◌%◌, ◌<◌, ◌≡◌, ◌≢◌, refl, ap, ◌∙◌, arith, ◌&&◌, Bool, false, ℕ_discrete, ◌==◌, update,
  update_self, update_ne, ok,
}
use os_proj.Kernel.Fs.{Disk, Superblock}
use os_proj.Kernel.Fs.Bitmap.{is_used}
use os_proj.Kernel.Fs.Io.{iblock}
use os_proj.Kernel.Fs.Io.OnDisk.{OnDisk}
use os_proj.Kernel.Fs.Itable.Single.{Got}
use os_proj.Kernel.Fs.Trunc.Freed.{Among}
use os_proj.Kernel.Fs.Trunc.Laws.{blocks_of}
use os_proj.Kernel.Fs.Itable.{Entry, Itable, drop_ref, iput}

-- The last reference to an inode that no directory names.
abbrev pub is_last : Entry → Bool
is_last e = e.ref == 1 && (e.node.valid && e.node.nlink == 0)

-- The inode `ip` is gone from the table and from the disk.
pub record Forgotten (sb : Superblock) (t : Itable) (i : ℕ) (d : Disk) (t' : Itable) (d' : Disk)
    : Type 0 where
  pub no_ref : (t' i).ref ≡ 0
  pub no_type : (t' i).node.type_ ≡ 0
  pub stale : (t' i).node.valid ≡ false
  pub others : (x : ℕ) → x ≢ i → t' x ≡ t x
  pub saved :
      let home = iblock (t i).node.inum sb in
      OnDisk (d home) (d' home) ((t i).node.inum % 16) (t' i).node
  pub gone :
      (x : ℕ) → x < sb.size → Among (blocks_of (t i).node d) 0 269 x → is_used sb d' x ≡ false
  pub kept :
      (x : ℕ)
      → x < sb.size
      → ¬ Among (blocks_of (t i).node d) 0 269 x
      → is_used sb d' x ≡ is_used sb d x

-- The `iput` that gives back what `iget` took does not truncate: afterwards every entry has the
-- references that it had before.
pub iput-Got :
    (sb : Superblock) (dev inum : ℕ) (t : Itable) (i : ℕ) (t' : Itable) (d : Disk)
    → Got dev inum t i t'
    → (t'' : Itable) × (iput sb t' i d ≡ ok (t'', d)) × ((x : ℕ) → (t'' x).ref ≡ (t x).ref)
unfolding iput drop_ref
iput-Got sb dev inum t i t' d g =
    let e : Entry = record (t' i) { ref = (t' i).ref - 1 } in
    let kept : is_last (t' i) ≡ false = elim (ℕ_discrete (t i).ref 0) [
      | yes z ↦ ground (arith, g.fresh z, g.counted)
      | no ne ↦ ground (arith, g.counted)
    ] in
    (
      update t' i e,
      rw kept refl,
      λ x. elim (ℕ_discrete x i) [
        | yes q ↦
            let n : (t' i).ref - 1 ≡ (t i).ref = omega (arith, g.counted) in
            rw q (ap (λ (y : Entry). y.ref) (update_self t' i e) ∙ n)
        | no q ↦ ap (λ (y : Entry). y.ref) (update_ne t' i e x q ∙ g.others x q)
      ],
    )
