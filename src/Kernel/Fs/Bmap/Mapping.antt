-- ===== src/Kernel/Fs/Bmap/Mapping.antt =====
-- The blocks of a file on the disk of kernel/fs.c: which they are, and that they are its own.
use os_proj.Base.{
  ℕ, ◌-◌, ◌<◌, ◌≡◌, ◌≢◌, ap, sym, ◌∙◌, arith, true, ◌==◌, ltb, if◌then◌else◌, update, ℕ_discrete,
}
use os_proj.Kernel.Fs.{Disk, Superblock}
use os_proj.Kernel.Fs.Bitmap.{bblock, is_used}
use os_proj.Kernel.Fs.Bitmap.Laws.{Guarded, Allocated}
use os_proj.Kernel.Fs.Bmap.{Inode, ndirect, maxfile, get_word}

-- The number of the block `bn` of a file, 0 if it has none, without allocating it.
unfoldable pub addr_of : Inode → Disk → ℕ → ℕ
addr_of ip d bn =
    if ltb bn ndirect
    then ip.addrs bn
    else if ip.addrs ndirect == 0
    then 0
    else get_word (d (ip.addrs ndirect)) (bn - ndirect)

-- A block in use that is none of the map's.
pub record Owned (sb : Superblock) (d : Disk) (a : ℕ) : Type 0 where
  pub inside : a < sb.size
  pub used : is_used sb d a ≡ true
  pub no_map : (b : ℕ) → b < sb.size → a ≢ bblock b sb

-- The file's blocks, by number, and its indirect block `ind`: they are in use, and all different.
pub record Mapping (sb : Superblock) (d : Disk) (addr : ℕ → ℕ) (ind : ℕ) : Type 0 where
  pub guarded : Guarded sb d
  pub small : sb.size < 4294967296
  pub owned : (bn : ℕ) → bn < maxfile → addr bn ≢ 0 → Owned sb d (addr bn)
  pub distinct :
      (bn bn' : ℕ) → bn < maxfile → bn' < maxfile → addr bn ≢ 0 → addr bn ≡ addr bn' → bn ≡ bn'
  pub ind_owned : ind ≢ 0 → Owned sb d ind
  pub ind_apart : (bn : ℕ) → bn < maxfile → ind ≢ 0 → addr bn ≢ ind

-- A block in use that is none of the file's.
pub record Apart (sb : Superblock) (d : Disk) (addr : ℕ → ℕ) (ind q : ℕ) : Type 0 where
  pub owned : Owned sb d q
  pub no_addr : (bn : ℕ) → bn < maxfile → addr bn ≢ q
  pub no_ind : ind ≢ q

-- What was in use still is.
abbrev pub SameMap : Superblock → Disk → Disk → Type 0
SameMap sb d d' = (x : ℕ) → x < sb.size → is_used sb d x ≡ true → is_used sb d' x ≡ true

Owned-later :
    {sb : Superblock} {d d' : Disk} (a : ℕ) → SameMap sb d d' → Owned sb d a → Owned sb d' a
Owned-later a same o = record {
  inside = o.inside;
  used = same a o.inside o.used;
  no_map = o.no_map;
}

Guarded-later :
    (sb : Superblock) (d d' : Disk) → 0 < sb.size → SameMap sb d d' → Guarded sb d → Guarded sb d'
unfolding Guarded
Guarded-later sb d d' pos same (z, g) = (same 0 pos z, λ x b lt lt' e. same x lt (g x b lt lt' e))

pub Allocated-SameMap :
    {sb : Superblock} {d d' : Disk} {b : ℕ} → Allocated sb d b d' → SameMap sb d d'
Allocated-SameMap {sb} {d} {d'} {b} al x lt u = elim (ℕ_discrete x b) [
  | yes e ↦ ap (is_used sb d') e ∙ al.used
  | no ne ↦ al.others x lt ne ∙ u
]

-- A fresh block is Owned, and none of the blocks in use.
pub fresh-Owned :
    {sb : Superblock} {d d' : Disk} {b : ℕ} → Guarded sb d → Allocated sb d b d' → Owned sb d' b
unfolding Guarded
fresh-Owned {sb} {d} {b = b} g al = record {
  inside = al.inside;
  used = al.used;
  no_map = λ x lt e. let u = g.1 b x al.inside lt e in let f = al.was_free in cc;
}

pub fresh-apart :
    {sb : Superblock} {d d' : Disk} {b : ℕ} (a : ℕ) → Owned sb d a → Allocated sb d b d' → a ≢ b
fresh-apart {sb} {d} a o al e =
    let u = o.used in let f = al.was_free in let q = ap (is_used sb d) e in cc

module _ {sb : Superblock} {d d' : Disk} {addr : ℕ → ℕ} {ind b : ℕ} (m : Mapping sb d addr ind)
    (al : Allocated sb d b d') where
  same : SameMap sb d d'
  same = Allocated-SameMap al

  old_apart :
      (addr' : ℕ → ℕ) (bn : ℕ)
      → ((x : ℕ) → x < maxfile → x ≢ bn → addr' x ≡ addr x)
      → (y : ℕ) → y < maxfile
      → y ≢ bn
      → addr' y ≢ b
  old_apart addr' bn else_same y ly ny q =
      let s = else_same y ly ny in
      fresh-apart (addr y) (m.owned y ly (λ z. al.nonzero (sym q ∙ s ∙ z))) al (sym s ∙ q)

  -- The fresh block becomes the file's block `bn`.
  pub extend_addr :
      (addr' : ℕ → ℕ) (bn : ℕ)
      → addr' bn ≡ b
      → ((x : ℕ) → x < maxfile → x ≢ bn → addr' x ≡ addr x)
      → Mapping sb d' addr' ind
  extend_addr addr' bn at_bn else_same = record {
    guarded = Guarded-later sb d d' (omega (arith, al.inside)) same m.guarded;
    small = m.small;
    owned = λ x lt ne. elim (ℕ_discrete x bn) [
      | yes e ↦ rw (ap addr' e ∙ at_bn) (fresh-Owned m.guarded al)
      | no n ↦
          let s = else_same x lt n in
          rw s (Owned-later (addr x) same (m.owned x lt (λ z. ne (s ∙ z))))
    ];
    distinct = λ x y lx ly ne e. elim (ℕ_discrete x bn) [
      | yes ex ↦ elim (ℕ_discrete y bn) [
        | yes ey ↦ ex ∙ sym ey
        | no ny ↦ absurd (old_apart addr' bn else_same y ly ny (sym e ∙ ap addr' ex ∙ at_bn))
      ]
      | no nx ↦ elim (ℕ_discrete y bn) [
        | yes ey ↦ absurd (old_apart addr' bn else_same x lx nx (e ∙ ap addr' ey ∙ at_bn))
        | no ny ↦
            m.distinct x y lx ly (λ z. ne (else_same x lx nx ∙ z))
              (sym (else_same x lx nx) ∙ e ∙ else_same y ly ny)
      ]
    ];
    ind_owned = λ ne. Owned-later ind same (m.ind_owned ne);
    ind_apart = λ x lt ne e. elim (ℕ_discrete x bn) [
      | yes q ↦ fresh-apart ind (m.ind_owned ne) al (sym e ∙ ap addr' q ∙ at_bn)
      | no n ↦ m.ind_apart x lt ne (sym (else_same x lt n) ∙ e)
    ];
  }

  -- The fresh block becomes the indirect block.
  pub extend_ind :
      (addr' : ℕ → ℕ) → ((x : ℕ) → x < maxfile → addr' x ≡ addr x) → Mapping sb d' addr' b
  extend_ind addr' else_same = record {
    guarded = Guarded-later sb d d' (omega (arith, al.inside)) same m.guarded;
    small = m.small;
    owned = λ x lt ne.
        let s = else_same x lt in rw s (Owned-later (addr x) same (m.owned x lt (λ z. ne (s ∙ z))));
    distinct = λ x y lx ly ne e.
        m.distinct x y lx ly (λ z. ne (else_same x lx ∙ z))
          (sym (else_same x lx) ∙ e ∙ else_same y ly);
    ind_owned = λ ne. fresh-Owned m.guarded al;
    ind_apart = λ x lt ne e.
        let q = sym (else_same x lt) ∙ e in
        fresh-apart (addr x) (m.owned x lt (λ z. ne (sym q ∙ z))) al q;
  }

  pub Apart-addr :
      (addr' : ℕ → ℕ) (bn q : ℕ)
      → addr' bn ≡ b
      → ((x : ℕ) → x < maxfile → x ≢ bn → addr' x ≡ addr x)
      → Apart sb d addr ind q
      → Apart sb d' addr' ind q
  Apart-addr addr' bn q at_bn else_same p = record {
    owned = Owned-later q same p.owned;
    no_addr = λ x lt e. elim (ℕ_discrete x bn) [
      | yes n ↦ fresh-apart q p.owned al (sym e ∙ ap addr' n ∙ at_bn)
      | no n ↦ p.no_addr x lt (sym (else_same x lt n) ∙ e)
    ];
    no_ind = p.no_ind;
  }

  pub Apart-ind :
      (addr' : ℕ → ℕ) (q : ℕ)
      → ((x : ℕ) → x < maxfile → addr' x ≡ addr x)
      → Apart sb d addr ind q
      → Apart sb d' addr' b q
  Apart-ind addr' q else_same p = record {
    owned = Owned-later q same p.owned;
    no_addr = λ x lt e. p.no_addr x lt (sym (else_same x lt) ∙ e);
    no_ind = λ e. fresh-apart q p.owned al (sym e);
  }

pub write-SameMap :
    {sb : Superblock} (d : Disk) (a : ℕ) (v : ℕ → ℕ) → Owned sb d a → SameMap sb d (update d a v)
unfolding is_used
write-SameMap d a v o x lt u = let n = o.no_map x lt in ground arith

pub Apart-write :
    {sb : Superblock} {d : Disk} {addr : ℕ → ℕ} {ind q : ℕ} (a : ℕ) (v : ℕ → ℕ)
    → Owned sb d a
    → Apart sb d addr ind q
    → Apart sb (update d a v) addr ind q
Apart-write {d = d} {q = q} a v o p = record {
  owned = Owned-later q (write-SameMap d a v o) p.owned;
  no_addr = p.no_addr;
  no_ind = p.no_ind;
}

-- A write to a block that is none of the map's.
pub write_block :
    {sb : Superblock} {d : Disk} {addr : ℕ → ℕ} {ind : ℕ} (a : ℕ) (v : ℕ → ℕ)
    → Mapping sb d addr ind
    → Owned sb d a
    → Mapping sb (update d a v) addr ind
write_block {sb} {d} {addr} {ind} a v m o = record {
  guarded =
      Guarded-later sb d (update d a v) (omega (arith, o.inside)) (write-SameMap d a v o) m.guarded;
  small = m.small;
  owned = λ x lt ne. Owned-later (addr x) (write-SameMap d a v o) (m.owned x lt ne);
  distinct = m.distinct;
  ind_owned = λ ne. Owned-later ind (write-SameMap d a v o) (m.ind_owned ne);
  ind_apart = m.ind_apart;
}
