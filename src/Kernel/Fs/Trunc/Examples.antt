-- ===== src/Kernel/Fs/Trunc/Examples.antt =====
-- A file of one block, which `itrunc` of kernel/fs.c frees.
use os_proj.Base.{ℕ, ◌<◌, ◌≡◌, ◌≢◌, refl, ap, sym, ◌∙◌, arith, true, update, ℕ_discrete, ok}
use os_proj.Kernel.Fs.{Disk}
use os_proj.Kernel.Fs.Trunc.{itrunc}
use os_proj.Kernel.Fs.Trunc.Whole.{Truncated, itrunc-Truncated}
use os_proj.Kernel.Fs.Bitmap.Examples.{small_sb, used_disk, used_disk_used, used_disk-Guarded}
use os_proj.Kernel.Fs.Bmap.{Inode}
use os_proj.Kernel.Fs.Bmap.Mapping.{addr_of, Owned}
use os_proj.Kernel.Fs.Bmap.Laws.{File, Outside}
use os_proj.Kernel.Fs.Io.{iblock}

abbrev pub short_file : Inode
short_file = record {
  inum = 1;
  valid = true;
  type_ = 2;
  major = 0;
  minor = 0;
  nlink = 0;
  size = 700;
  addrs = update (λ i. 0) 0 3;
}

first_addr : addr_of short_file used_disk 0 ≡ 3
unfolding addr_of
first_addr = refl

other_addr : (bn : ℕ) → bn ≢ 0 → addr_of short_file used_disk bn ≡ 0
unfolding addr_of
other_addr bn ne = ground arith

only_first : (bn : ℕ) → addr_of short_file used_disk bn ≢ 0 → bn ≡ 0
only_first bn ne = elim (ℕ_discrete bn 0) [ yes e ↦ e | no n ↦ absurd (ne (other_addr bn n)) ]

used_Owned : (a : ℕ) → 1 < a → a < 4 → Owned small_sb used_disk a
used_Owned a lo lt = record {
  inside = omega arith;
  used = used_disk_used a lt;
  no_map = λ b l e. omega arith;
}

pub short_file-File : File small_sb short_file used_disk
short_file-File = record {
  guarded = used_disk-Guarded;
  small = omega arith;
  owned = λ bn lt ne.
      let e = ap (addr_of short_file used_disk) (only_first bn ne) ∙ first_addr in
      rw e (used_Owned 3 (omega arith) (omega arith));
  distinct = λ bn bn' lt lt' ne e. only_first bn ne ∙ sym (only_first bn' (λ z. ne (e ∙ z)));
  ind_owned = λ ne. absurd (ne refl);
  ind_apart = λ bn lt ne. absurd (ne refl);
}

pub short_file_home : Outside small_sb short_file used_disk (iblock 1 small_sb)
short_file_home = record {
  owned = used_Owned 2 (omega arith) (omega arith);
  no_addr = λ bn lt e. elim (ℕ_discrete bn 0) [
    | yes z ↦
        let q = sym first_addr ∙ ap (addr_of short_file used_disk) (sym z) ∙ e in
        absurd (omega arith)
    | no n ↦ let q = sym (other_addr bn n) ∙ e in absurd (omega arith)
  ];
  no_ind = λ e. omega arith;
}

itrunc-Truncated_example :
    (ip' : Inode) × (d' : Disk) × (itrunc small_sb short_file used_disk ≡ ok (ip', d'))
    × Truncated small_sb short_file used_disk ip' d'
itrunc-Truncated_example =
    itrunc-Truncated small_sb short_file used_disk short_file-File short_file_home
