-- ===== src/Kernel/File.antt =====
-- kernel/file.c: the table of open files. A body stands for what runs between `acquire` and
-- `release` of the table's lock.
pub mod Table
pub mod Examples
use os_proj.Base.{
  ℕ, zero, suc, ◌+◌, ◌-◌, Bool, true, false, Option, none, some, ltb, ◌==◌, if◌then◌else◌, update,
  Res, ok, panic, ◌>>◌, panic_if,
}

pub data FileType : Type 0 where
  fd_none : FileType
  fd_pipe : FileType
  fd_inode : FileType
  fd_device : FileType

-- `struct file`; a pipe and an inode are named by their place.
pub record File : Type 0 where
  pub type_ : FileType
  pub ref : ℕ
  pub readable : Bool
  pub writable : Bool
  pub pipe : ℕ
  pub ip : ℕ
  pub off : ℕ
  pub major : ℕ

abbrev pub Ftable : Type 0
Ftable = ℕ → File

abbrev pub nfile : ℕ
nfile = 100

-- The loop of `filealloc` over `k` entries from `i` on: the first that is free.
pub find_free : Ftable → ℕ → ℕ → Option ℕ
find_free t zero i = none
find_free t (suc k) i =
    let later = find_free t k (i + 1) in if (t i).ref == 0 then some i else later

abbrev pub take_file : Ftable → Option ℕ → Option ℕ × Ftable
take_file t none = (none, t)
take_file t (some f) = (some f, update t f (record (t f) { ref = 1 }))

pub filealloc : Ftable → Option ℕ × Ftable
filealloc t = take_file t (find_free t nfile 0)

pub filedup : Ftable → ℕ → Res Ftable
filedup t f = do panic_if (ltb (t f).ref 1); ok (update t f (record (t f) { ref = (t f).ref + 1 }))

-- What `fileclose` goes on to do when it closes the last reference.
pub data Closing : Type 0 where
  nothing : Closing
  close_pipe : ℕ → Bool → Closing
  put_inode : ℕ → Closing

pub closing : File → Closing
closing ff = elim ff.type_ [
  | fd_none ↦ nothing
  | fd_pipe ↦ close_pipe ff.pipe ff.writable
  | fd_inode ↦ put_inode ff.ip
  | fd_device ↦ put_inode ff.ip
]

pub fileclose : Ftable → ℕ → Res (Closing × Ftable)
fileclose t f = do
  panic_if (ltb (t f).ref 1)
  ok (
      if ltb 0 ((t f).ref - 1)
      then (nothing, update t f (record (t f) { ref = (t f).ref - 1 }))
      else (closing (t f), update t f (record (t f) { ref = 0; type_ = fd_none })))
