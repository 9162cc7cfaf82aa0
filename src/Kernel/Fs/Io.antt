-- ===== src/Kernel/Fs/Io.antt =====
-- `readi`, `writei` and `iupdate` of kernel/fs.c: the bytes of a file.
pub mod OnDisk
pub mod Bytes
pub mod Read
pub mod Wrote
pub mod Write
pub mod Grow
pub mod Whole
pub mod Examples
use os_proj.Base.{
  ℕ, zero, suc, ◌+◌, ◌-◌, ◌*◌, ◌/◌, ◌%◌, min, Bool, true, false, ◌&&◌, ◌||◌, not, Option, none,
  some, ltb, ◌==◌, if◌then◌else◌, update, Res, ok, panic, ◌>>=◌,
}
use os_proj.Kernel.Fs.{Block, Disk, bsize, Superblock}
use os_proj.Kernel.Fs.Bmap.{Inode, maxfile, put_word, bmap}

-- The memory of the kernel or of the calling process.
abbrev pub Memory : Type 0
Memory = ℕ → ℕ

-- Sums of `uint` and of `uint64`.
abbrev pub add32 : ℕ → ℕ → ℕ
add32 a b = (a + b) % 4294967296

abbrev pub add64 : ℕ → ℕ → ℕ
add64 a b = (a + b) % 18446744073709551616

-- `memmove` of `len` bytes to `dst`.
unfoldable pub blit : Memory → ℕ → (ℕ → ℕ) → ℕ → Memory
blit mem dst src len i = if not (ltb i dst) && ltb i (dst + len) then src (i - dst) else mem i

-- `copyout` and `copyin` of kernel/vm.c for the page table of the calling process: whether the
-- pages are there, and what is then in the destination. `copyin mem src buf o len` copies to `buf
-- + o`.
pub record UserCopy : Type 0 where
  pub copyout : Memory → ℕ → (ℕ → ℕ) → ℕ → Bool × Memory
  pub copyin : Memory → ℕ → Block → ℕ → ℕ → Bool × Block

pub either_copyout : UserCopy → Bool → Memory → ℕ → (ℕ → ℕ) → ℕ → Bool × Memory
either_copyout c true mem dst src len = c.copyout mem dst src len
either_copyout c false mem dst src len = (true, blit mem dst src len)

pub either_copyin : UserCopy → Bool → Memory → ℕ → Block → ℕ → ℕ → Bool × Block
either_copyin c true mem src buf o len = c.copyin mem src buf o len
either_copyin c false mem src buf o len = (true, blit buf o (λ i. mem (src + i)) len)

-- A round of the loop of `readi` after `bmap`; `none` is -1, and `rest` the rounds that follow.
pub read_copied :
    (Memory → Inode → Disk → Res (Option ℕ × Memory × Inode × Disk))
    → Inode
    → Disk
    → Bool × Memory
    → Res (Option ℕ × Memory × Inode × Disk)
read_copied rest ip d (false, mem) = ok (none, mem, ip, d)
read_copied rest ip d (true, mem) = rest mem ip d

pub read_block :
    UserCopy
    → Bool
    → ℕ
    → ℕ
    → ℕ
    → ℕ
    → Memory
    → (Memory → Inode → Disk → Res (Option ℕ × Memory × Inode × Disk))
    → ℕ × Inode × Disk
    → Res (Option ℕ × Memory × Inode × Disk)
read_block c user_dst tot off dst m mem rest (addr, ip, d) =
    if addr == 0
    then ok (some tot, mem, ip, d)
    else read_copied rest ip d (either_copyout c user_dst mem dst (λ i. d addr (off % bsize + i)) m)

-- The loop of `readi`, on fuel.
pub read_blocks :
    UserCopy
    → Superblock
    → Bool
    → ℕ
    → ℕ
    → ℕ
    → ℕ
    → ℕ
    → Memory
    → Inode
    → Disk
    → Res (Option ℕ × Memory × Inode × Disk)
read_blocks c sb user_dst zero n tot off dst mem ip d = ok (some tot, mem, ip, d)
read_blocks c sb user_dst (suc fuel) n tot off dst mem ip d =
    let m = min (n - tot) (bsize - off % bsize) in
    let rest : Memory → Inode → Disk → Res (Option ℕ × Memory × Inode × Disk) = λ mem' ip' d'.
      read_blocks c sb user_dst fuel n (tot + m) (add32 off m) (add64 dst m) mem' ip' d' in
    if ltb tot n
    then bmap sb ip (off / bsize) d >>= read_block c user_dst tot off dst m mem rest
    else ok (some tot, mem, ip, d)

pub readi :
    UserCopy
    → Superblock
    → Inode
    → Bool
    → ℕ
    → ℕ
    → ℕ
    → Memory
    → Disk
    → Res (Option ℕ × Memory × Inode × Disk)
readi c sb ip user_dst dst off n mem d =
    let n' = if ltb ip.size (add32 off n) then ip.size - off else n in
    if ltb ip.size off || ltb (add32 off n) off
    then ok (some 0, mem, ip, d)
    else read_blocks c sb user_dst n' n' 0 off dst mem ip d

-- `IBLOCK`.
abbrev pub iblock : ℕ → Superblock → ℕ
iblock inum sb = inum / 16 + sb.inodestart

-- The assignment to a `short`, and those to the first `k` words from `base` on.
pub put_half : Block → ℕ → ℕ → Block
put_half bp j v = update (update bp (2 * j) (v % 256)) (2 * j + 1) (v / 256 % 256)

pub put_words : Block → ℕ → (ℕ → ℕ) → ℕ → Block
put_words bp base v zero = bp
put_words bp base v (suc k) = put_word (put_words bp base v k) (base + k) (v k)

-- The fields of `struct dinode` number `i` of a block.
pub put_dinode : Block → ℕ → Inode → Block
put_dinode bp i ip =
    let halves =
      put_half
        (put_half (put_half (put_half bp (32 * i) ip.type_) (32 * i + 1) ip.major) (32 * i + 2)
          ip.minor)
        (32 * i + 3) ip.nlink in
    put_words (put_word halves (16 * i + 2) ip.size) (16 * i + 3) ip.addrs 13

pub iupdate : Superblock → Inode → Disk → Disk
iupdate sb ip d =
    update d (iblock ip.inum sb) (put_dinode (d (iblock ip.inum sb)) (ip.inum % 16) ip)

-- A round of the loop of `writei` after `bmap`. It gives the count and the offset that it ends
-- with. What a failed copy has left in the buffer stays there.
pub write_copied :
    (Inode → Disk → Res (ℕ × ℕ × Inode × Disk))
    → ℕ
    → ℕ
    → ℕ
    → Inode
    → Disk
    → Bool × Block
    → Res (ℕ × ℕ × Inode × Disk)
write_copied rest tot off addr ip d (false, buf) = ok (tot, off, ip, update d addr buf)
write_copied rest tot off addr ip d (true, buf) = rest ip (update d addr buf)

pub write_block :
    UserCopy
    → Bool
    → ℕ
    → ℕ
    → ℕ
    → ℕ
    → Memory
    → (Inode → Disk → Res (ℕ × ℕ × Inode × Disk))
    → ℕ × Inode × Disk
    → Res (ℕ × ℕ × Inode × Disk)
write_block c user_src tot off src m mem rest (addr, ip, d) =
    if addr == 0
    then ok (tot, off, ip, d)
    else write_copied rest tot off addr ip d
        (either_copyin c user_src mem src (d addr) (off % bsize) m)

-- The loop of `writei`, on fuel.
pub write_blocks :
    UserCopy
    → Superblock
    → Bool
    → ℕ
    → ℕ
    → ℕ
    → ℕ
    → ℕ
    → Memory
    → Inode
    → Disk
    → Res (ℕ × ℕ × Inode × Disk)
write_blocks c sb user_src zero n tot off src mem ip d = ok (tot, off, ip, d)
write_blocks c sb user_src (suc fuel) n tot off src mem ip d =
    let m = min (n - tot) (bsize - off % bsize) in
    let rest : Inode → Disk → Res (ℕ × ℕ × Inode × Disk) = λ ip' d'.
      write_blocks c sb user_src fuel n (tot + m) (add32 off m) (add64 src m) mem ip' d' in
    if ltb tot n
    then bmap sb ip (off / bsize) d >>= write_block c user_src tot off src m mem rest
    else ok (tot, off, ip, d)

-- The end of `writei`: the size grows to the offset, and the inode goes to the disk.
pub grow : Superblock → ℕ × ℕ × Inode × Disk → Option ℕ × Inode × Disk
grow sb (tot, off, ip, d) =
    let ip' = if ltb ip.size off then record ip { size = off } else ip in
    (some tot, ip', iupdate sb ip' d)

pub writei :
    UserCopy → Superblock → Inode → Bool → ℕ → ℕ → ℕ → Memory → Disk → Res (Option ℕ × Inode × Disk)
writei c sb ip user_src src off n mem d =
    if ltb ip.size off || ltb (add32 off n) off || ltb (maxfile * bsize) (add32 off n)
    then ok (none, ip, d)
    else write_blocks c sb user_src n n 0 off src mem ip d >>= (λ r. ok (grow sb r))
