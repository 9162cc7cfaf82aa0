-- ===== src/Kernel/Fs.antt =====
-- kernel/fs.c: the file system above the log. The buffer cache and the log stand by their
-- contract: a block that is read is what was last written, and a block that is changed is changed
-- for the whole transaction, as `log_write` makes it.
pub mod Bitmap
pub mod Bmap
pub mod Io
pub mod Trunc
pub mod Itable
pub mod Dir
pub mod Paths
use os_proj.Base.{ℕ, zero, suc, ◌+◌, ◌*◌, ◌/◌, ◌%◌, ◌==◌, if◌then◌else◌, update}

-- A block as its bytes, and the disk as its blocks.
abbrev pub Block : Type 0
Block = ℕ → ℕ

abbrev pub Disk : Type 0
Disk = ℕ → Block

abbrev pub bsize : ℕ
bsize = 1024

-- `struct superblock`, less its magic number and counts.
pub record Superblock : Type 0 where
  pub size : ℕ
  pub inodestart : ℕ
  pub bmapstart : ℕ

-- `bzero`.
pub bzero : ℕ → Disk → Disk
bzero b d = update d b (λ i. 0)
