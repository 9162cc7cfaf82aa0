-- ===== src/Kernel/Fs/Bmap.antt =====
-- The block map of an inode in kernel/fs.c: `bmap`.
pub mod Words
pub mod Mapping
pub mod Laws
pub mod Slots
pub mod Allocation
pub mod Examples
use os_proj.Base.{
  ℕ, zero, suc, ◌+◌, ◌-◌, ◌*◌, ◌/◌, ◌%◌, Bool, true, false, ltb, ◌==◌, if◌then◌else◌, update, Res,
  ok, panic,
}
use os_proj.Kernel.Fs.{Block, Disk, Superblock}
use os_proj.Kernel.Fs.Bitmap.{balloc}

abbrev pub ndirect : ℕ
ndirect = 12

abbrev pub nindirect : ℕ
nindirect = 256

-- `MAXFILE`.
abbrev pub maxfile : ℕ
maxfile = 268

-- `struct inode`, less its lock, its device and its count of references.
pub record Inode : Type 0 where
  pub inum : ℕ
  pub valid : Bool
  pub type_ : ℕ
  pub major : ℕ
  pub minor : ℕ
  pub nlink : ℕ
  pub size : ℕ
  pub addrs : ℕ → ℕ

-- `((uint*)bp->data)[j]`, in the byte order of the machine, and the assignment to it.
pub get_word : Block → ℕ → ℕ
get_word bp j =
    bp (4 * j) + 256 * bp (4 * j + 1) + 65536 * bp (4 * j + 2) + 16777216 * bp (4 * j + 3)

pub put_word : Block → ℕ → ℕ → Block
put_word bp j v =
    update
      (update (update (update bp (4 * j) (v % 256)) (4 * j + 1) (v / 256 % 256)) (4 * j + 2)
        (v / 65536 % 256))
      (4 * j + 3) (v / 16777216 % 256)

-- `if ((addr = ip->addrs[k]) == 0) { addr = balloc(ip->dev); if (addr == 0) return 0; ... }`.
pub alloc_slot : Superblock → ℕ → Inode → Disk → ℕ × Inode × Disk
alloc_slot sb k ip d =
    let (addr, d') = balloc sb d in
    if ip.addrs k == 0
    then if addr == 0 then (0, ip, d') else (addr, record ip { addrs = update ip.addrs k addr }, d')
    else (ip.addrs k, ip, d)

-- The entry `j` of the indirect block `ind`.
pub alloc_word : Superblock → ℕ → ℕ → Disk → ℕ × Disk
alloc_word sb ind j d =
    let (addr, d') = balloc sb d in
    if get_word (d ind) j == 0
    then if addr == 0 then (0, d') else (addr, update d' ind (put_word (d' ind) j addr))
    else (get_word (d ind) j, d)

-- The branch of `bmap` for the entry `j` of the indirect block.
pub bmap_indirect : Superblock → Inode → ℕ → Disk → ℕ × Inode × Disk
bmap_indirect sb ip j d =
    let (ind, ip', d') = alloc_slot sb ndirect ip d in
    let (addr, d'') = alloc_word sb ind j d' in if ind == 0 then (0, ip', d') else (addr, ip', d'')

-- The block number, or 0 if the disk is full.
pub bmap : Superblock → Inode → ℕ → Disk → Res (ℕ × Inode × Disk)
bmap sb ip bn d =
    if ltb bn ndirect
    then ok (alloc_slot sb bn ip d)
    else if ltb (bn - ndirect) nindirect
    then ok (bmap_indirect sb ip (bn - ndirect) d)
    else panic
