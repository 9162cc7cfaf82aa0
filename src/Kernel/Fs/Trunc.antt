-- ===== src/Kernel/Fs/Trunc.antt =====
-- `itrunc` of kernel/fs.c: the blocks of a file are freed.
pub mod Freed
pub mod Laws
pub mod Whole
pub mod Examples
use os_proj.Base.{
  ℕ, zero, suc, ◌+◌, Bool, true, false, ◌==◌, if◌then◌else◌, update, Res, ok, panic, ◌>>=◌,
}
use os_proj.Kernel.Fs.{Block, Disk, Superblock}
use os_proj.Kernel.Fs.Bitmap.{bfree}
use os_proj.Kernel.Fs.Bmap.{Inode, ndirect, nindirect, get_word}
use os_proj.Kernel.Fs.Io.{iupdate}

-- `if(b) bfree(ip->dev, b);`.
pub free_one : Superblock → ℕ → Disk → Res Disk
free_one sb b d = if b == 0 then ok d else bfree sb b d

-- The loop over `k` of the entries of an array, from `i` on.
pub free_blocks : Superblock → (ℕ → ℕ) → ℕ → ℕ → Disk → Res Disk
free_blocks sb a zero i d = ok d
free_blocks sb a (suc k) i d = free_one sb (a i) d >>= (λ d'. free_blocks sb a k (i + 1) d')

-- The loop over the direct entries, `k` of them from `i` on, which become 0.
pub trunc_direct : Superblock → ℕ → ℕ → Inode → Disk → Res (Inode × Disk)
trunc_direct sb zero i ip d = ok (ip, d)
trunc_direct sb (suc k) i ip d =
    free_one sb (ip.addrs i) d
    >>= (λ d'. trunc_direct sb k (i + 1) (record ip { addrs = update ip.addrs i 0 }) d')

pub trunc_indirect : Superblock → Inode × Disk → Res (Inode × Disk)
trunc_indirect sb (ip, d) =
    let ind = ip.addrs ndirect in
    if ind == 0
    then ok (ip, d)
    else free_blocks sb (get_word (d ind)) nindirect 0 d >>= (λ d'.
      bfree sb ind d' >>= (λ d''. ok (record ip { addrs = update ip.addrs ndirect 0 }, d'')))

pub trunc_end : Superblock → Inode × Disk → Inode × Disk
trunc_end sb (ip, d) = let ip' = record ip { size = 0 } in (ip', iupdate sb ip' d)

pub itrunc : Superblock → Inode → Disk → Res (Inode × Disk)
itrunc sb ip d =
    trunc_direct sb ndirect 0 ip d >>= (λ r. trunc_indirect sb r >>= (λ r'. ok (trunc_end sb r')))
