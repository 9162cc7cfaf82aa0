-- ===== src/Kernel/Fs/Dir/Lookup.antt =====
-- `dirlookup` of kernel/fs.c finds the first entry of a name.
use os_proj.Base.{
  ℕ, ◌+◌, ◌%◌, ◌<◌, ◌≡◌, ◌≢◌, ◌⊎◌, inl, inr, refl, arith, Bool, true, false, not, ◌==◌, List,
  Option, none, some, Bool-cases, ℕ_discrete, Res, ok, panic, ◌>>=◌,
}
use os_proj.Kernel.Fs.{Disk, Superblock}
use os_proj.Kernel.Fs.Bmap.{Inode}
use os_proj.Kernel.Fs.Io.{Memory, UserCopy}
use os_proj.Kernel.Fs.Io.Bytes.{CopyLaws}
use os_proj.Kernel.Fs.Dir.{
  t_dir, entry_inum, is_named, scan_dir, found_entry, find_name, take_inode, dirlookup,
}
use os_proj.Kernel.Fs.Itable.{Itable}
use os_proj.Kernel.Fs.Itable.Single.{Single, Got, NoRoom, iget-Got}
use os_proj.Kernel.Fs.Dir.Entries.{
  entry_at, IsDir, Scanned, is_named-Local, entry_inum-Local, scan_dir-Scanned,
}

-- An entry with the name, and none before it.
pub record FirstNamed (name : List ℕ) (dp : Inode) (d : Disk) (off : ℕ) : Type 0 where
  pub inside : off < dp.size
  pub aligned : off % 16 ≡ 0
  pub named : is_named name (entry_at dp d off) ≡ true
  pub first : (o : ℕ) → o < off → o % 16 ≡ 0 → is_named name (entry_at dp d o) ≡ false

abbrev pub NoneNamed : List ℕ → Inode → Disk → Type 0
NoneNamed name dp d = (o : ℕ) → o < dp.size → o % 16 ≡ 0 → is_named name (entry_at dp d o) ≡ false

-- What the search for a name returns.
abbrev Located : List ℕ → Inode → Disk → Res (Option (ℕ × ℕ) × Memory × Inode × Disk) → Type 0
Located name dp d r =
    ((off : ℕ) × (mem : Memory) × FirstNamed name dp d off
      × (r ≡ ok (some (entry_inum (entry_at dp d off), off), mem, dp, d)))
    ⊎ (NoneNamed name dp d × (mem : Memory) × (r ≡ ok (none, mem, dp, d)))

found-Located :
    (name : List ℕ) (dp : Inode) (d : Disk) (r : Res (Bool × ℕ × Memory × Inode × Disk))
    → Scanned (is_named name) 0 dp d r
    → Located name dp d (r >>= (λ x. ok (found_entry x)))
found-Located name dp d r s =
    let e = s.returns in
    elim (Bool-cases s.found) [
      | inl yes_ ↦
          let (lt, named, same) = s.hit yes_ in
          let first : FirstNamed name dp d s.at_off = record {
            inside = lt;
            aligned = s.aligned;
            named = named;
            first = λ o l a. s.before o (omega arith) l a;
          } in
          inl (
            s.at_off,
            s.mem,
            first,
            rw (e, yes_, entry_inum-Local s.mem (entry_at dp d s.at_off) same) refl,
          )
      | inr none_ ↦
          let end = s.miss none_ in
          inr (λ o l a. s.before o (omega arith) (omega arith) a, s.mem, rw (e, none_) refl)
    ]

find_name-Located :
    {c : UserCopy} (laws : CopyLaws c) (sb : Superblock) (dp : Inode) (d : Disk) (dir : IsDir dp d)
    (name : List ℕ) (mem : Memory)
    → ((dp.type_ ≡ t_dir) × Located name dp d (find_name c sb dp name mem d))
      ⊎ ((dp.type_ ≢ t_dir) × (find_name c sb dp name mem d ≡ panic))
unfolding find_name
find_name-Located {c} laws sb dp d dir name mem = elim (ℕ_discrete dp.type_ t_dir) [
  | no ne ↦ inr (ne, ground arith)
  | yes e ↦
      let b : not (dp.type_ == t_dir) ≡ false = ground arith in
      let s =
        scan_dir-Scanned laws sb (is_named name) (is_named-Local name) dp d dir (dp.size + 1) 0 mem
          (omega arith) (omega arith) refl in
      inl (
        e,
        rw b (found-Located name dp d (scan_dir c sb (is_named name) (dp.size + 1) 0 mem dp d) s),
      )
]

-- One more reference to the inode of an entry, which the lookup returns with the offset; or there
-- is no room in the table of inodes.
abbrev pub Taken :
    ℕ
    → ℕ
    → ℕ
    → Inode
    → Disk
    → Itable
    → Res (Option (ℕ × ℕ) × Memory × Inode × Disk × Itable)
    → Type 0
Taken dev inum off dp d t r =
    ((i : ℕ) × (t' : Itable) × (mem : Memory) × Got dev inum t i t'
      × (r ≡ ok (some (i, off), mem, dp, d, t')))
    ⊎ (NoRoom dev inum t × (r ≡ panic))

take_inode-Taken :
    (dev inum off : ℕ) (mem : Memory) (dp : Inode) (d : Disk) (t : Itable)
    → Single t
    → Taken dev inum off dp d t (take_inode dev t (some (inum, off), mem, dp, d))
unfolding take_inode
take_inode-Taken dev inum off mem dp d t single = elim (iget-Got dev inum t single) [
  | inl (i, t', e, g) ↦ inl (i, t', mem, g, rw e refl)
  | inr (full, absent, e) ↦ inr ((full, absent), rw e refl)
]

-- What a lookup returns.
abbrev pub Looked :
    ℕ
    → List ℕ
    → Inode
    → Disk
    → Itable
    → Res (Option (ℕ × ℕ) × Memory × Inode × Disk × Itable)
    → Type 0
Looked dev name dp d t r =
    ((off : ℕ) × FirstNamed name dp d off × Taken dev (entry_inum (entry_at dp d off)) off dp d t r)
    ⊎ (NoneNamed name dp d × (mem : Memory) × (r ≡ ok (none, mem, dp, d, t)))

pub dirlookup-Looked :
    {c : UserCopy} (laws : CopyLaws c) (sb : Superblock) (dev : ℕ) (dp : Inode) (d : Disk)
    (t : Itable) (dir : IsDir dp d) (single : Single t) (name : List ℕ) (mem : Memory)
    → ((dp.type_ ≡ t_dir) × Looked dev name dp d t (dirlookup c sb dev dp name mem d t))
      ⊎ ((dp.type_ ≢ t_dir) × (dirlookup c sb dev dp name mem d t ≡ panic))
unfolding dirlookup take_inode
dirlookup-Looked laws sb dev dp d t dir single name mem =
    elim (find_name-Located laws sb dp d dir name mem) [
      | inr (ne, e) ↦ inr (ne, rw e refl)
      | inl (is_dir, inr (absent, mem', e)) ↦ inl (is_dir, inr (absent, mem', rw e refl))
      | inl (is_dir, inl (off, mem', first, e)) ↦ inl (
        is_dir,
        inl (
          off,
          first,
          rw e (take_inode-Taken dev (entry_inum (entry_at dp d off)) off mem' dp d t single),
        ),
      )
    ]
