-- ===== src/Kernel/Fs/Itable.antt =====
-- The table of inodes in memory of kernel/fs.c: `iget`, `idup` and `iput`. A body stands for what
-- runs under the table's lock; in `iput` the lock is given up for the truncation, when no one
-- else has the inode.
pub mod Single
pub mod Put
pub mod Examples
use os_proj.Base.{
  ℕ, zero, suc, ◌+◌, ◌-◌, ◌&&◌, Bool, true, false, Option, none, some, ltb, ◌==◌, if◌then◌else◌,
  update, Res, ok, panic, ◌>>=◌,
}
use os_proj.Kernel.Fs.{Disk, Superblock}
use os_proj.Kernel.Fs.Bmap.{Inode}
use os_proj.Kernel.Fs.Io.{iupdate}
use os_proj.Kernel.Fs.Trunc.{itrunc}

-- `struct inode` with its device and its count of references.
pub record Entry : Type 0 where
  pub dev : ℕ
  pub ref : ℕ
  pub node : Inode

abbrev pub Itable : Type 0
Itable = ℕ → Entry

abbrev pub ninode : ℕ
ninode = 50

abbrev pub is_inode : ℕ → ℕ → Entry → Bool
is_inode dev inum e = ltb 0 e.ref && (e.dev == dev && e.node.inum == inum)

abbrev pub is_empty : Entry → Bool
is_empty e = e.ref == 0

-- The first of `k` entries from `i` on that passes the test; the loop of `iget` looks for the
-- inode and remembers the first empty entry.
pub find_entry : (Entry → Bool) → Itable → ℕ → ℕ → Option ℕ
find_entry test t zero i = none
find_entry test t (suc k) i =
    let later = find_entry test t k (i + 1) in if test (t i) then some i else later

abbrev pub recycle : ℕ → ℕ → Itable → Option ℕ → Res (ℕ × Itable)
recycle dev inum t none = panic
recycle dev inum t (some i) = ok (
  i,
  update t i
      (record { dev = dev; ref = 1; node = record ((t i).node) { inum = inum; valid = false } }),
)

abbrev pub iget_with : ℕ → ℕ → Itable → Option ℕ → Res (ℕ × Itable)
iget_with dev inum t (some i) = ok (i, update t i (record (t i) { ref = (t i).ref + 1 }))
iget_with dev inum t none = recycle dev inum t (find_entry is_empty t ninode 0)

pub iget : ℕ → ℕ → Itable → Res (ℕ × Itable)
iget dev inum t = iget_with dev inum t (find_entry (is_inode dev inum) t ninode 0)

pub idup : Itable → ℕ → Itable
idup t i = update t i (record (t i) { ref = (t i).ref + 1 })

-- `itrunc`, and the inode is marked as free.
pub free_inode : Superblock → Inode × Disk → Inode × Disk
free_inode sb (ip, d) =
    let ip' = record ip { type_ = 0 } in (record ip' { valid = false }, iupdate sb ip' d)

pub drop_ref : Itable → ℕ → Inode × Disk → Itable × Disk
drop_ref t i (ip, d) = (update t i (record (t i) { ref = (t i).ref - 1; node = ip }), d)

pub iput : Superblock → Itable → ℕ → Disk → Res (Itable × Disk)
iput sb t i d =
    let ip = (t i).node in
    if (t i).ref == 1 && (ip.valid && ip.nlink == 0)
    then itrunc sb ip d >>= (λ r. ok (drop_ref t i (free_inode sb r)))
    else ok (drop_ref t i (ip, d))
