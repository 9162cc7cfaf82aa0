-- ===== src/Kernel/Fs/Bmap/Examples.antt =====
-- A new directory, whose first block `bmap` of kernel/fs.c allocates.
use os_proj.Base.{ℕ, ◌≤◌, ◌<◌, ◌≡◌, ◌⊎◌, refl, arith, true, ok, panic}
use os_proj.Kernel.Fs.{Disk}
use os_proj.Kernel.Fs.Bitmap.Examples.{small_sb, small_disk, small_disk-Guarded}
use os_proj.Kernel.Fs.Bmap.{Inode, maxfile, bmap}
use os_proj.Kernel.Fs.Bmap.Mapping.{addr_of}
use os_proj.Kernel.Fs.Bmap.Laws.{File, Bmapped}
use os_proj.Kernel.Fs.Bmap.Allocation.{bmap-Bmapped}

abbrev pub new_inode : Inode
new_inode = record {
  inum = 1;
  valid = true;
  type_ = 1;
  major = 0;
  minor = 0;
  nlink = 1;
  size = 0;
  addrs = λ i. 0;
}

pub new_addr : (bn : ℕ) → addr_of new_inode small_disk bn ≡ 0
unfolding addr_of
new_addr bn = ground arith

pub new_inode-File : File small_sb new_inode small_disk
new_inode-File = record {
  guarded = small_disk-Guarded;
  small = omega arith;
  owned = λ bn lt ne. absurd (ne (new_addr bn));
  distinct = λ bn bn' lt lt' ne e. absurd (ne (new_addr bn));
  ind_owned = λ ne. absurd (ne refl);
  ind_apart = λ bn lt ne. absurd (ne refl);
}

bmap-Bmapped_example :
    ((3 < maxfile)
      × ((a : ℕ) × (ip' : Inode) × (d' : Disk) × (bmap small_sb new_inode 3 small_disk
            ≡ ok (a, ip', d'))
          × Bmapped small_sb new_inode 3 small_disk a ip' d'))
    ⊎ ((maxfile ≤ 3) × (bmap small_sb new_inode 3 small_disk ≡ panic))
bmap-Bmapped_example = bmap-Bmapped small_sb new_inode small_disk new_inode-File 3
