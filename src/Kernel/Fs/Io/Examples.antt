-- ===== src/Kernel/Fs/Io/Examples.antt =====
-- Three bytes go into a new inode of kernel/fs.c and come back.
use os_proj.Base.{
  ℕ, ◌-◌, ◌+◌, ◌%◌, ◌≤◌, ◌<◌, ◌≡◌, ◌⊎◌, ap, sym, arith, Bool, true, false, none, some, ok,
}
use os_proj.Kernel.Fs.{Disk}
use os_proj.Kernel.Fs.Bitmap.Examples.{small_sb, small_disk, small_used}
use os_proj.Kernel.Fs.Bmap.{Inode}
use os_proj.Kernel.Fs.Bmap.Laws.{Outside}
use os_proj.Kernel.Fs.Bmap.Examples.{new_inode, new_addr, new_inode-File}
use os_proj.Kernel.Fs.Io.{Memory, blit, UserCopy, iblock, writei, readi}
use os_proj.Kernel.Fs.Io.Bytes.{byte_at, Dense, CopyLaws, OutFails}
use os_proj.Kernel.Fs.Io.Write.{Short}
use os_proj.Kernel.Fs.Io.Read.{readi-Reads}
use os_proj.Kernel.Fs.Io.Whole.{readi-writei}

-- A process that has every page.
abbrev pub all_mapped : UserCopy
all_mapped = record {
  copyout = λ mem dst src len. (true, blit mem dst src len);
  copyin = λ mem src buf o len. (true, blit buf o (λ i. mem (src + i)) len);
}

pub all_mapped-CopyLaws : CopyLaws all_mapped
all_mapped-CopyLaws = record {
  copyout_copies = λ mem mem' dst src len e. sym (ap (λ (r : Bool × Memory). r.1) e);
  copyin_copies = λ mem src buf buf' o len e. sym (ap (λ (r : Bool × (ℕ → ℕ)). r.1) e);
  copyin_range = λ mem src buf buf' o len i e out.
      let b : true ≡ false = ap (λ (r : Bool × (ℕ → ℕ)). r.0) e in absurd cc;
}

abbrev pub letters : Memory
letters = λ i. 97 + i % 26

pub new_inode-Dense : Dense new_inode small_disk
unfolding Dense
new_inode-Dense = (omega arith, λ x lt. absurd (omega arith))

pub home : Outside small_sb new_inode small_disk (iblock 1 small_sb)
home = record {
  owned = record {
    inside = omega arith;
    used = small_used 2 (omega arith);
    no_map = λ b lt e. (omega arith);
  };
  no_addr = λ bn lt e. let z = new_addr bn in omega arith;
  no_ind = λ e. omega arith;
}

readi-Reads_example :
    ((0 ≤ 0)
      × (0 + 3 < 4294967296)
      × ((readi all_mapped small_sb new_inode false 4096 0 3 letters small_disk
            ≡ ok (
              some 0,
              blit letters 4096 (λ i. byte_at new_inode small_disk (0 + i)) 0,
              new_inode,
              small_disk,
            ))
          ⊎ ((false ≡ true)
              × (mem' : Memory) × OutFails all_mapped new_inode small_disk 0 0 4096 letters mem'
              × (readi all_mapped small_sb new_inode false 4096 0 3 letters small_disk
                  ≡ ok (none, mem', new_inode, small_disk)))))
    ⊎ (((0 < 0) ⊎ (4294967296 ≤ 0 + 3))
        × (readi all_mapped small_sb new_inode false 4096 0 3 letters small_disk
            ≡ ok (some 0, letters, new_inode, small_disk)))
readi-Reads_example =
    readi-Reads all_mapped-CopyLaws small_sb false new_inode small_disk 4096 0 3 letters
      new_inode-Dense (omega arith) (omega arith) (omega arith)

readi-writei_example :
    (t : ℕ) × (ip' : Inode) × (d' : Disk) × (writei all_mapped small_sb new_inode false 4096 0 3
        letters small_disk
      ≡ ok (some t, ip', d'))
    × (t < 3 → Short all_mapped small_sb false letters (4096 + t) (3 - t) d')
    × ((dst : ℕ) (mem' : Memory)
        → dst + t < 18446744073709551616
        → readi all_mapped small_sb ip' false dst 0 t mem' d'
          ≡ ok (some t, blit mem' dst (λ i. letters (4096 + i)) t, ip', d'))
readi-writei_example =
    readi-writei all_mapped-CopyLaws small_sb false new_inode small_disk new_inode-File home 4096 0
      3 letters new_inode-Dense (omega arith) (omega arith) (omega arith)
