-- ===== src/Kernel/Fs/Dir.antt =====
-- Directories in kernel/fs.c: `namecmp`, `dirlookup` and `dirlink`. A name is the list of its
-- bytes before the NUL; the directory entry `de` of the code stands at the addresses 0 to 15 of
-- the memory.
pub mod Entries
pub mod Lookup
pub mod Names
pub mod Linked
pub mod Link
pub mod Examples
use os_proj.Base.{
  ℕ, zero, suc, ◌+◌, ◌-◌, ◌*◌, ◌/◌, ◌%◌, Bool, true, false, ◌&&◌, ◌||◌, not, Option, none, some,
  List, [], ◌∷◌, ltb, ◌==◌, if◌then◌else◌, update, ℤ, pos, negsuc, Res, ok, panic, ◌>>=◌, ◌>>◌,
  panic_if,
}
use os_proj.Kernel.Cstring.{strncmp, strncpy}
use os_proj.Kernel.Fs.{Disk, Superblock}
use os_proj.Kernel.Fs.Bmap.{Inode}
use os_proj.Kernel.Fs.Io.{Memory, add32, UserCopy, readi, writei}
use os_proj.Kernel.Fs.Itable.{Itable, iget, iput}

abbrev pub dirsiz : ℕ
dirsiz = 14

abbrev pub t_dir : ℕ
t_dir = 1

abbrev pub is_zero : ℤ → Bool
is_zero (pos n) = n == 0
is_zero (negsuc n) = false

-- The string at `a`, of at most `k` bytes.
pub name_at : Memory → ℕ → ℕ → List ℕ
name_at mem a zero = []
name_at mem a (suc k) = let rest = name_at mem (a + 1) k in if mem a == 0 then [] else mem a ∷ rest

pub namecmp : List ℕ → List ℕ → ℤ
namecmp s t = strncmp s t dirsiz

-- `de.inum`, and what the loops of `dirlookup` and `dirlink` look for.
unfoldable pub entry_inum : Memory → ℕ
entry_inum mem = mem 0 + 256 * mem 1

unfoldable pub is_free : Memory → Bool
is_free mem = entry_inum mem == 0

unfoldable pub is_named : List ℕ → Memory → Bool
is_named name mem = not (is_free mem) && is_zero (namecmp name (name_at mem 2 dirsiz))

-- A round of the loop over the entries after `readi`; `rest` is the rounds that follow.
pub scan_entry :
    (Memory → Bool)
    → ℕ
    → (Memory → Inode → Disk → Res (Bool × ℕ × Memory × Inode × Disk))
    → Option ℕ × Memory × Inode × Disk
    → Res (Bool × ℕ × Memory × Inode × Disk)
scan_entry test off rest (none, mem, dp, d) = panic
scan_entry test off rest (some got, mem, dp, d) =
    if got == 16 then if test mem then ok (true, off, mem, dp, d) else rest mem dp d else panic

-- The loop over the entries, on fuel, to the first that passes the test: whether there is one,
-- and the offset that the loop ends with.
pub scan_dir :
    UserCopy
    → Superblock
    → (Memory → Bool)
    → ℕ
    → ℕ
    → Memory
    → Inode
    → Disk
    → Res (Bool × ℕ × Memory × Inode × Disk)
scan_dir c sb test zero off mem dp d = ok (false, off, mem, dp, d)
scan_dir c sb test (suc fuel) off mem dp d =
    let rest : Memory → Inode → Disk → Res (Bool × ℕ × Memory × Inode × Disk) =
      λ mem' dp' d'. scan_dir c sb test fuel (add32 off 16) mem' dp' d' in
    if ltb off dp.size
    then readi c sb dp false 0 off 16 mem d >>= scan_entry test off rest
    else ok (false, off, mem, dp, d)

abbrev pub found_entry : Bool × ℕ × Memory × Inode × Disk → Option (ℕ × ℕ) × Memory × Inode × Disk
found_entry (false, off, mem, dp, d) = (none, mem, dp, d)
found_entry (true, off, mem, dp, d) = (some (entry_inum mem, off), mem, dp, d)

-- `dirlookup` up to the call of `iget`: the inode number, and the offset of the entry.
pub find_name :
    UserCopy
    → Superblock
    → Inode
    → List ℕ
    → Memory
    → Disk
    → Res (Option (ℕ × ℕ) × Memory × Inode × Disk)
find_name c sb dp name mem d = do
  panic_if (not (dp.type_ == t_dir))
  scan_dir c sb (is_named name) (dp.size + 1) 0 mem dp d >>= (λ r. ok (found_entry r))

-- `return iget(dp->dev, inum);`. The result is the entry of the table of inodes.
pub take_inode :
    ℕ
    → Itable
    → Option (ℕ × ℕ) × Memory × Inode × Disk
    → Res (Option (ℕ × ℕ) × Memory × Inode × Disk × Itable)
take_inode dev t (none, mem, dp, d) = ok (none, mem, dp, d, t)
take_inode dev t (some (inum, off), mem, dp, d) =
    iget dev inum t >>= (λ (i, t'). ok (some (i, off), mem, dp, d, t'))

-- `dev` is the device of `dp`.
pub dirlookup :
    UserCopy
    → Superblock
    → ℕ
    → Inode
    → List ℕ
    → Memory
    → Disk
    → Itable
    → Res (Option (ℕ × ℕ) × Memory × Inode × Disk × Itable)
dirlookup c sb dev dp name mem d t = find_name c sb dp name mem d >>= take_inode dev t

-- The bytes of `name` at `a`.
pub put_bytes : Memory → ℕ → List ℕ → Memory
put_bytes mem a [] = mem
put_bytes mem a (b ∷ bs) = put_bytes (update mem a b) (a + 1) bs

-- `strncpy(de.name, name, DIRSIZ); de.inum = inum;`.
pub put_entry : Memory → List ℕ → ℕ → Memory
put_entry mem name inum =
    update (update (put_bytes mem 2 (strncpy name dirsiz)) 0 (inum % 256)) 1 (inum / 256 % 256)

-- Whether `writei` wrote the whole entry: true is 0, false is -1.
abbrev pub linked : Itable → Option ℕ × Inode × Disk → Bool × Inode × Disk × Itable
linked t (none, dp, d) = (false, dp, d, t)
linked t (some got, dp, d) = (got == 16, dp, d, t)

pub link_at :
    UserCopy
    → Superblock
    → List ℕ
    → ℕ
    → Itable
    → Bool × ℕ × Memory × Inode × Disk
    → Res (Bool × Inode × Disk × Itable)
link_at c sb name inum t (found, off, mem, dp, d) =
    writei c sb dp false 0 off 16 (put_entry mem name inum) d >>= (λ r. ok (linked t r))

-- `dirlink` after its `dirlookup`.
pub link_new :
    UserCopy
    → Superblock
    → List ℕ
    → ℕ
    → Option (ℕ × ℕ) × Memory × Inode × Disk × Itable
    → Res (Bool × Inode × Disk × Itable)
link_new c sb name inum (some (i, off), mem, dp, d, t) =
    iput sb t i d >>= (λ (t', d'). ok (false, dp, d', t'))
link_new c sb name inum (none, mem, dp, d, t) =
    scan_dir c sb is_free (dp.size + 1) 0 mem dp d >>= link_at c sb name inum t

pub dirlink :
    UserCopy
    → Superblock
    → ℕ
    → Inode
    → List ℕ
    → ℕ
    → Memory
    → Disk
    → Itable
    → Res (Bool × Inode × Disk × Itable)
dirlink c sb dev dp name inum mem d t =
    dirlookup c sb dev dp name mem d t >>= link_new c sb name inum
