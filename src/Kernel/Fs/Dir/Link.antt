-- ===== src/Kernel/Fs/Dir/Link.antt =====
-- `dirlink` of kernel/fs.c, and `dirlookup` after it.
use os_proj.Base.{
  ℕ, ◌-◌, ◌+◌, ◌*◌, ◌%◌, ◌≤◌, ◌<◌, ◌≡◌, ◌⊎◌, inl, inr, refl, ◌∙◌, arith, Bool, true, false, List,
  Bool-cases, ℕ_discrete, Res, ok, panic,
}
use os_proj.Kernel.Cstring.Laws.{NoNul}
use os_proj.Kernel.Fs.{Disk, Superblock, bsize}
use os_proj.Kernel.Fs.Bmap.{Inode, maxfile}
use os_proj.Kernel.Fs.Bmap.Laws.{File, Outside}
use os_proj.Kernel.Fs.Io.{Memory, UserCopy, iblock}
use os_proj.Kernel.Fs.Io.Bytes.{Dense, CopyLaws}
use os_proj.Kernel.Fs.Io.Write.{Full, Short}
use os_proj.Kernel.Fs.Io.Whole.{writei-Written}
use os_proj.Kernel.Fs.Dir.{
  t_dir, entry_inum, is_free, put_entry, dirlookup, link_at, link_new, dirlink,
}
use os_proj.Kernel.Fs.Dir.Entries.{entry_at, IsDir, Scanned, is_free-Local, scan_dir-Scanned}
use os_proj.Kernel.Fs.Dir.Lookup.{FirstNamed, NoneNamed, Taken, dirlookup-Looked}
use os_proj.Kernel.Fs.Itable.{Itable}
use os_proj.Kernel.Fs.Itable.Single.{Single, NoRoom}
use os_proj.Kernel.Fs.Itable.Put.{iput-Got}
use os_proj.Kernel.Fs.Dir.Linked.{Linked, Written-Linked, Linked-FirstNamed, first_unique}

or_larger :
    (c : UserCopy) (sb : Superblock) (mem : Memory) (src left size : ℕ) (d : Disk)
    → Short c sb false mem src left d
    → (maxfile * bsize < size) ⊎ Full sb d
or_larger c sb mem src left size d (inl (user, fails)) = absurd cc
or_larger c sb mem src left size d (inr full) = inr full

-- The loop ends within the directory.
scanned-inside :
    {test : Memory → Bool} (dp : Inode) (d : Disk) {r : Res (Bool × ℕ × Memory × Inode × Disk)}
    → (s : Scanned test 0 dp d r) → s.at_off ≤ dp.size
scanned-inside dp d s = elim (Bool-cases s.found) [
  | inl hit ↦ let (lt, passed, same) = s.hit hit in omega arith
  | inr miss ↦ let e = s.miss miss in omega arith
]

-- The entry is free, or the next one after the last.
abbrev pub Spot : Inode → Disk → ℕ → Type 0
Spot dp d off = (is_free (entry_at dp d off) ≡ true) ⊎ (off ≡ dp.size)

scanned-Spot :
    (dp : Inode) (d : Disk) {r : Res (Bool × ℕ × Memory × Inode × Disk)}
    → (s : Scanned is_free 0 dp d r) → Spot dp d s.at_off
scanned-Spot dp d s = elim (Bool-cases s.found) [
  | inl hit ↦ let (lt, passed, same) = s.hit hit in inl passed
  | inr miss ↦ inr (s.miss miss)
]

module _ {c : UserCopy} (laws : CopyLaws c) (sb : Superblock) (dev : ℕ) (dp : Inode) (d : Disk)
    (f : File sb dp d) (home : Outside sb dp d (iblock dp.inum sb)) (dir : IsDir dp d)
    (is_dir : dp.type_ ≡ t_dir) (name : List ℕ) (nn : NoNul name) (inum : ℕ) (some_inum : 0 < inum)
    (short_inum : inum < 65536) (t : Itable) (single : Single t) where
  -- A lookup of the name in the directory after a link gives the new entry.
  abbrev Found : ℕ → Inode → Disk → Type 0
  Found off dp' d' =
      (mem : Memory) → Taken dev inum off dp' d' t (dirlookup c sb dev dp' name mem d' t)

  lookup-Linked :
      (off : ℕ) (dp' : Inode) (d' : Disk)
      → off ≤ dp.size
      → NoneNamed name dp d
      → Linked dp d name inum off dp' d'
      → Found off dp' d'
  lookup-Linked off dp' d' le none_before l mem =
      let first =
        Linked-FirstNamed c sb dp d dir name nn inum some_inum short_inum off dp' d' le none_before
          l in
      elim (dirlookup-Looked laws sb dev dp' d' t l.dir single name mem) [
        | inr (ne, e) ↦ absurd (ne (l.type_kept ∙ is_dir))
        | inl (found, inr (absent, mem', e)) ↦
            let here = absent off l.inside l.aligned in let there = l.named in absurd cc
        | inl (found, inl (o, g, taken)) ↦
            let same : o ≡ off = first_unique name dp' d' o off g first in
            let at_off = rw same at taken in rw l.number at at_off
      ]

  -- How a link can end.
  abbrev pub LinkEnds : Res (Bool × Inode × Disk × Itable) → Type 0
  LinkEnds r =
      ((off : ℕ) × FirstNamed name dp d off
        × (((t' : Itable) × (r ≡ ok (false, dp, d, t')) × ((x : ℕ) → (t' x).ref ≡ (t x).ref))
            ⊎ (NoRoom dev (entry_inum (entry_at dp d off)) t × (r ≡ panic))))
      ⊎ ((NoneNamed name dp d
            × ((off : ℕ) × (dp' : Inode) × (d' : Disk) × (r ≡ ok (true, dp', d', t))
                × Spot dp d off
                × Linked dp d name inum off dp' d'
                × Found off dp' d'))
          ⊎ (NoneNamed name dp d
              × ((dp' : Inode) × (d' : Disk) × (r ≡ ok (false, dp', d', t))
                  × ((maxfile * bsize < dp.size + 16) ⊎ Full sb d'))))

  link_at-LinkEnds :
      (found : Bool) (off : ℕ) (mem : Memory)
      → off ≤ dp.size
      → off % 16 ≡ 0
      → Spot dp d off
      → NoneNamed name dp d
      → LinkEnds (link_at c sb name inum t (found, off, mem, dp, d))
  unfolding link_at Dense
  link_at-LinkEnds found off mem le al spot absent =
      let small = dir.dense.0 in
      elim (writei-Written laws sb false dp d f home 0 off 16 (put_entry mem name inum)
        (omega arith) (omega arith) (omega arith)) [
          | inl (inl beyond, e) ↦ absurd (omega arith)
          | inl (inr long, e) ↦ inr (inr (absent, (dp, d, rw e refl, inl (omega arith))))
          | inr (got, dp', d', e, w) ↦ elim (ℕ_discrete got 16) [
            | yes all ↦
                let l =
                  Written-Linked c sb dp d dir name nn inum some_inum short_inum off mem dp' d' al
                    le (rw all at w) in
                inr (
                  inl (
                    absent,
                    (off, dp', d', rw (e, all) refl, spot, l, lookup-Linked off dp' d' le absent l),
                  ))
            | no part ↦
                let le_t = w.at_most in
                inr (
                  inr (
                    absent,
                    (
                      dp',
                      d',
                      rw e (ground arith),
                      or_larger c sb (put_entry mem name inum) (0 + got) (16 - got) (dp.size + 16)
                          d' (w.short (omega arith)),
                    ),
                  ))
          ]
        ]

  -- In a directory without holes whose size is a whole number of entries, and with a table of
  -- inodes that names none twice, `dirlink` of a name that is there returns -1 and changes
  -- neither the directory, nor the disk, nor the references in the table, or it panics if the
  -- table has no room for the inode found. Of a name that is not there it returns 0: then the
  -- directory has one more entry, with that name and number, in place of a free one or at its
  -- end, the other entries are as before, and a `dirlookup` of the name finds that place and
  -- takes a reference to the inode of that number, if the table has room for it; or it returns
  -- -1, and then the directory cannot grow or the disk is full.
  pub dirlookup-dirlink : (mem : Memory) → LinkEnds (dirlink c sb dev dp name inum mem d t)
  unfolding dirlink link_new
  dirlookup-dirlink mem = elim (dirlookup-Looked laws sb dev dp d t dir single name mem) [
    | inr (ne, e) ↦ absurd (ne is_dir)
    | inl (found, inl (off, first, inr (full, e))) ↦ inl (off, first, inr (full, rw e refl))
    | inl (found, inl (off, first, inl (i, t', mem', g, e))) ↦
        let (t'', put, same) = iput-Got sb dev (entry_inum (entry_at dp d off)) t i t' d g in
        inl (off, first, inl (t'', rw (e, put) refl, same))
    | inl (found, inr (absent, mem', e)) ↦
        let s =
          scan_dir-Scanned laws sb is_free is_free-Local dp d dir (dp.size + 1) 0 mem' (omega arith)
            (omega arith) refl in
        let e' = s.returns in
        rw (e, e')
          (link_at-LinkEnds s.found s.at_off s.mem (scanned-inside dp d s) s.aligned
            (scanned-Spot dp d s) absent)
  ]
