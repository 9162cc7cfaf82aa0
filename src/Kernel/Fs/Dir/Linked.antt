-- ===== src/Kernel/Fs/Dir/Linked.antt =====
-- A directory of kernel/fs.c with one more entry, and the first entry of a name in it.
use os_proj.Base.{
  ℕ, ◌+◌, ◌/◌, ◌%◌, ◌≤◌, ◌<◌, ◌≡◌, ◌≢◌, ◌⊎◌, inl, inr, ap, ◌∙◌, arith, true, false, max, List,
  dec_lt,
}
use os_proj.Kernel.Cstring.Laws.{NoNul}
use os_proj.Kernel.Fs.{Disk, Superblock, bsize}
use os_proj.Kernel.Fs.Bmap.{Inode}
use os_proj.Kernel.Fs.Io.{Memory, UserCopy}
use os_proj.Kernel.Fs.Io.Bytes.{Dense}
use os_proj.Kernel.Fs.Io.Grow.{Written}
use os_proj.Kernel.Fs.Dir.{entry_inum, is_named, put_entry}
use os_proj.Kernel.Fs.Dir.Entries.{entry_at, IsDir, is_named-Local, entry_inum-Local}
use os_proj.Kernel.Fs.Dir.Names.{entry_inum-put_entry, is_named-put_entry}
use os_proj.Kernel.Fs.Dir.Lookup.{FirstNamed, NoneNamed}

-- The directory with one more entry, at `off`.
pub record Linked (dp : Inode) (d : Disk) (name : List ℕ) (inum off : ℕ) (dp' : Inode) (d' : Disk)
    : Type 0 where
  pub dir : IsDir dp' d'
  pub type_kept : dp'.type_ ≡ dp.type_
  pub inside : off < dp'.size
  pub aligned : off % 16 ≡ 0
  pub size : dp'.size ≡ max dp.size (off + 16)
  pub number : entry_inum (entry_at dp' d' off) ≡ inum
  pub named : is_named name (entry_at dp' d' off) ≡ true
  pub others :
      (o : ℕ)
      → o < dp.size
      → o % 16 ≡ 0
      → o ≢ off
      → (i : ℕ) → i < 16
      → entry_at dp' d' o i ≡ entry_at dp d o i

beside :
    (o off i : ℕ)
    → off % 16 ≡ 0
    → o % 16 ≡ 0
    → o ≢ off
    → i < 16
    → (o + i < off) ⊎ (off + 16 ≤ o + i)
beside o off i al a ne lt = elim (dec_lt o off) [
  | yes l ↦ inl (omega arith)
  | no l ↦ inr (omega arith)
]

module _ (c : UserCopy) (sb : Superblock) (dp : Inode) (d : Disk) (dir : IsDir dp d) (name : List ℕ)
    (nn : NoNul name) (inum : ℕ) (some_inum : 0 < inum) (short_inum : inum < 65536) where
  pub Written-Linked :
      (off : ℕ) (mem : Memory) (dp' : Inode) (d' : Disk)
      → off % 16 ≡ 0
      → off ≤ dp.size
      → Written c sb false dp d (put_entry mem name inum) 0 off 16 16 dp' d'
      → Linked dp d name inum off dp' d'
  unfolding Dense
  Written-Linked off mem dp' d' al le w =
      let entry = put_entry mem name inum in
      let size : dp'.size ≡ max dp.size (off + 16) = ap (λ (i : Inode). i.size) w.fields in
      let dense = dir.dense in
      let whole = dir.whole in
      let same : (i : ℕ) → i < 16 → entry_at dp' d' off i ≡ entry i =
        λ i l. let z : 0 + i ≡ i = omega arith in rw z at (w.bytes i l) in
      record {
        dir = record { dense = w.dense dense; whole = omega arith };
        type_kept = ap (λ (i : Inode). i.type_) w.fields;
        inside = omega arith;
        aligned = al;
        size = size;
        number =
            entry_inum-Local (entry_at dp' d' off) entry same
            ∙ entry_inum-put_entry mem name inum short_inum;
        named =
            is_named-Local name (entry_at dp' d' off) entry same
            ∙ is_named-put_entry mem name inum nn some_inum short_inum;
        others = λ o l a ne i li.
            w.rest (o + i) (omega arith) (dense.1 ((o + i) / bsize) (omega arith))
              (beside o off i al a ne li);
      }

  -- The lookup finds the new entry.
  pub Linked-FirstNamed :
      (off : ℕ) (dp' : Inode) (d' : Disk)
      → off ≤ dp.size
      → NoneNamed name dp d
      → Linked dp d name inum off dp' d'
      → FirstNamed name dp' d' off
  Linked-FirstNamed off dp' d' le none_before l =
      let al = l.aligned in
      record {
        inside = l.inside;
        aligned = al;
        named = l.named;
        first = λ o lt a.
            is_named-Local name (entry_at dp' d' o) (entry_at dp d o)
              (l.others o (omega arith) a (λ e. omega arith))
            ∙ none_before o (omega arith) a;
      }

pub first_unique :
    (name : List ℕ) (dp : Inode) (d : Disk) (o off : ℕ)
    → FirstNamed name dp d o
    → FirstNamed name dp d off
    → o ≡ off
first_unique name dp d o off g h = elim (dec_lt o off) [
  | yes lt ↦ let a = h.first o lt g.aligned in let b = g.named in absurd cc
  | no ge ↦ elim (dec_lt off o) [
    | yes lt ↦ let a = g.first off lt h.aligned in let b = h.named in absurd cc
    | no le ↦ omega arith
  ]
]
