-- ===== src/Kernel/Fs/Bmap/Laws.antt =====
-- What `bmap` of kernel/fs.c does to the blocks of a file.
use os_proj.Base.{ℕ, ◌-◌, ◌≤◌, ◌<◌, ◌≡◌, ◌≢◌, refl, ap, sym, ◌∙◌, arith, true, ℕ_discrete, dec_lt}
use os_proj.Kernel.Fs.{Disk, Superblock}
use os_proj.Kernel.Fs.Bitmap.{is_used}
use os_proj.Kernel.Fs.Bitmap.Laws.{Allocated}
use os_proj.Kernel.Fs.Bmap.{Inode, ndirect, maxfile, get_word}
use os_proj.Kernel.Fs.Bmap.Mapping.{addr_of, Owned, Mapping, Apart, fresh-apart}

-- The blocks of an inode are its own.
abbrev pub File : Superblock → Inode → Disk → Type 0
File sb ip d = Mapping sb d (addr_of ip d) (ip.addrs ndirect)

abbrev pub Outside : Superblock → Inode → Disk → ℕ → Type 0
Outside sb ip d q = Apart sb d (addr_of ip d) (ip.addrs ndirect) q

-- The blocks in use that are none of the file's hold what they held, and are none of its blocks
-- still.
abbrev pub Framed : Superblock → Inode → Disk → Inode → Disk → Type 0
Framed sb ip d ip' d' = (q : ℕ) → Outside sb ip d q → (d' q ≡ d q) × Outside sb ip' d' q

-- The blocks that a file has hold what they held.
abbrev pub SameContent : Inode → Disk → Disk → Type 0
SameContent ip d d' =
    (x : ℕ) → x < maxfile → addr_of ip d x ≢ 0 → d' (addr_of ip d x) ≡ d (addr_of ip d x)

-- What `bmap` leaves for the block `bn`.
pub record Bmapped (sb : Superblock) (ip : Inode) (bn : ℕ) (d : Disk) (a : ℕ) (ip' : Inode)
    (d' : Disk) : Type 0 where
  pub result : a ≡ addr_of ip' d' bn
  pub file : File sb ip' d'
  pub kept : (x : ℕ) → x < maxfile → x ≢ bn → addr_of ip' d' x ≡ addr_of ip d x
  pub had : addr_of ip d bn ≢ 0 → a ≡ addr_of ip d bn
  pub fresh : addr_of ip d bn ≡ 0 → a ≢ 0 → d' a ≡ (λ i. 0)
  pub content : SameContent ip d d'
  pub frame : Framed sb ip d ip' d'
  pub full : a ≡ 0 → (x : ℕ) → x < sb.size → is_used sb d' x ≡ true
  pub only_addrs : ip' ≡ record ip { addrs = ip'.addrs }

-- The inode has an indirect block now, and the same file.
pub record Slotted (sb : Superblock) (ip : Inode) (d : Disk) (ip' : Inode) (d' : Disk)
    : Type 0 where
  pub file : File sb ip' d'
  pub kept : (x : ℕ) → x < maxfile → addr_of ip' d' x ≡ addr_of ip d x
  pub content : SameContent ip d d'
  pub frame : Framed sb ip d ip' d'
  pub only_addrs : ip' ≡ record ip { addrs = ip'.addrs }

pub addr_of-direct : (ip : Inode) (d : Disk) (bn : ℕ) → bn < ndirect → addr_of ip d bn ≡ ip.addrs bn
unfolding addr_of
addr_of-direct ip d bn lt = ground arith

pub addr_of-none :
    (ip : Inode) (d : Disk) (bn : ℕ) → ndirect ≤ bn → ip.addrs ndirect ≡ 0 → addr_of ip d bn ≡ 0
unfolding addr_of
addr_of-none ip d bn le z = ground arith

pub addr_of-indirect :
    (ip : Inode) (d : Disk) (bn : ℕ)
    → ndirect ≤ bn
    → ip.addrs ndirect ≢ 0
    → addr_of ip d bn ≡ get_word (d (ip.addrs ndirect)) (bn - ndirect)
unfolding addr_of
addr_of-indirect ip d bn le ne = ground arith

-- The addresses are read from the inode and the indirect block.
pub addr_of-same :
    (ip ip' : Inode) (d d' : Disk) (x : ℕ)
    → ip'.addrs ndirect ≡ ip.addrs ndirect
    → (x < ndirect → ip'.addrs x ≡ ip.addrs x)
    → (ip.addrs ndirect ≢ 0 → d' (ip.addrs ndirect) ≡ d (ip.addrs ndirect))
    → addr_of ip' d' x ≡ addr_of ip d x
addr_of-same ip ip' d d' x ind direct block = elim (dec_lt x ndirect) [
  | yes lt ↦ addr_of-direct ip' d' x lt ∙ direct lt ∙ sym (addr_of-direct ip d x lt)
  | no ge ↦ elim (ℕ_discrete (ip.addrs ndirect) 0) [
    | yes z ↦
        addr_of-none ip' d' x (omega arith) (ind ∙ z) ∙ sym (addr_of-none ip d x (omega arith) z)
    | no ne ↦
        addr_of-indirect ip' d' x (omega arith) (λ z. ne (sym ind ∙ z))
        ∙ ap (λ (i : ℕ). get_word (d' i) (x - ndirect)) ind
        ∙ ap (λ (w : ℕ → ℕ). get_word w (x - ndirect)) (block ne)
        ∙ sym (addr_of-indirect ip d x (omega arith) ne)
  ]
]

-- A fresh block is none of the file's: they keep their content.
pub fresh-content :
    {sb : Superblock} {d d' : Disk} {b ind : ℕ} {addr : ℕ → ℕ}
    → Mapping sb d addr ind
    → Allocated sb d b d'
    → (a : ℕ) → Owned sb d a
    → d' a ≡ d a
fresh-content {b = b} f al a o = al.kept a (fresh-apart a o al) (o.no_map b al.inside)

-- Nothing was allocated.
pub stays :
    {sb : Superblock} (ip : Inode) (bn : ℕ) (d : Disk)
    → File sb ip d
    → (addr_of ip d bn ≡ 0 → (x : ℕ) → x < sb.size → is_used sb d x ≡ true)
    → Bmapped sb ip bn d (addr_of ip d bn) ip d
stays ip bn d f full = record {
  result = refl;
  file = f;
  kept = λ x lt ne. refl;
  had = λ ne. refl;
  fresh = λ z ne. absurd (ne z);
  content = λ x lt ne. refl;
  frame = λ q p. (refl, p);
  full = full;
  only_addrs = refl;
}
