-- ===== src/Kernel/Fs/Bmap/Allocation.antt =====
-- `bmap` of kernel/fs.c allocates the blocks of a file.
use os_proj.Base.{
  ℕ, ◌-◌, ◌≤◌, ◌<◌, ◌≡◌, ◌≢◌, ◌⊎◌, inl, inr, refl, ap, sym, ◌∙◌, arith, update, update_self,
  ℕ_discrete, dec_lt, ok, panic,
}
use os_proj.Kernel.Fs.{Disk, Superblock}
use os_proj.Kernel.Fs.Bitmap.{balloc}
use os_proj.Kernel.Fs.Bitmap.Laws.{balloc-Allocated}
use os_proj.Kernel.Fs.Bmap.{
  Inode, ndirect, maxfile, get_word, put_word, alloc_slot, alloc_word, bmap_indirect, bmap,
}
use os_proj.Kernel.Fs.Bmap.Mapping.{addr_of}
use os_proj.Kernel.Fs.Bmap.Laws.{
  File, Slotted, Bmapped, addr_of-direct, addr_of-none, addr_of-indirect, stays,
}
use os_proj.Kernel.Fs.Bmap.Slots.{
  slot-full, slot-had, slot-fresh, direct-fresh, ind-fresh, word-fresh,
}

-- What an operation that returns a block number, an inode and a disk leaves.
abbrev Leaves : Superblock → Inode → ℕ → Disk → ℕ × Inode × Disk → Type 0
Leaves sb ip bn d r = Bmapped sb ip bn d r.0 r.1 r.2

after_slot :
    {sb : Superblock} {ip ip' ip'' : Inode} {d d' d'' : Disk} {a : ℕ} (bn : ℕ)
    → bn < maxfile
    → Slotted sb ip d ip' d'
    → Bmapped sb ip' bn d' a ip'' d''
    → Bmapped sb ip bn d a ip'' d''
after_slot {ip = ip} {ip'} {ip''} {d} {d'} {d''} bn lt s m =
    let at_bn = s.kept bn lt in
    record {
      result = m.result;
      file = m.file;
      kept = λ x l ne. m.kept x l ne ∙ s.kept x l;
      had = λ ne. m.had (λ z. ne (sym at_bn ∙ z)) ∙ at_bn;
      fresh = λ z. m.fresh (at_bn ∙ z);
      content = λ x l ne.
          ap d'' (sym (s.kept x l))
          ∙ m.content x l (λ z. ne (sym (s.kept x l) ∙ z))
          ∙ ap d' (s.kept x l)
          ∙ s.content x l ne;
      frame = λ q p.
          let (same, p') = s.frame q p in let (same', p'') = m.frame q p' in (same' ∙ same, p'');
      full = m.full;
      only_addrs = m.only_addrs ∙ ap (λ (i : Inode). record i { addrs = ip''.addrs }) s.only_addrs;
    }

module _ (sb : Superblock) (ind j : ℕ) (d : Disk) where
  word-full : get_word (d ind) j ≡ 0 → balloc sb d ≡ (0, d) → alloc_word sb ind j d ≡ (0, d)
  unfolding alloc_word
  word-full z e = ground arith

  word-had : get_word (d ind) j ≢ 0 → alloc_word sb ind j d ≡ (get_word (d ind) j, d)
  unfolding alloc_word
  word-had ne = ground arith

word-alloc :
    (sb : Superblock) (ind j b : ℕ) (d d' : Disk)
    → get_word (d ind) j ≡ 0
    → balloc sb d ≡ (b, d')
    → b ≢ 0
    → alloc_word sb ind j d ≡ (b, update d' ind (put_word (d' ind) j b))
unfolding alloc_word
word-alloc sb ind j b d d' z e ne = ground arith

indirect-goes :
    (sb : Superblock) (ip ip' : Inode) (ind j : ℕ) (d d' : Disk)
    → alloc_slot sb ndirect ip d ≡ (ind, ip', d')
    → ind ≢ 0
    → bmap_indirect sb ip j d ≡ (let (addr, d'') = alloc_word sb ind j d' in (addr, ip', d''))
unfolding bmap_indirect
indirect-goes sb ip ip' ind j d d' e ne = rw e (ground arith)

indirect-full :
    (sb : Superblock) (ip : Inode) (j : ℕ) (d : Disk)
    → alloc_slot sb ndirect ip d ≡ (0, ip, d)
    → bmap_indirect sb ip j d ≡ (0, ip, d)
unfolding bmap_indirect
indirect-full sb ip j d e = rw e refl

module _ (sb : Superblock) (ip : Inode) (d : Disk) (f : File sb ip d) where
  direct-Leaves : (bn : ℕ) → bn < ndirect → Leaves sb ip bn d (alloc_slot sb bn ip d)
  direct-Leaves bn lt =
      let at_bn = addr_of-direct ip d bn lt in
      elim (ℕ_discrete (ip.addrs bn) 0) [
        | no ne ↦
            rw (slot-had sb ip d bn ne, sym at_bn)
              (stays ip bn d f (λ z. absurd (ne (sym at_bn ∙ z))))
        | yes z ↦ elim (balloc-Allocated sb d f.guarded) [
          | inl (full, e) ↦
              let q : addr_of ip d bn ≡ 0 = at_bn ∙ z in
              rw (slot-full sb ip d bn z e, sym q) (stays ip bn d f (λ _. full))
          | inr (b, d', e, al) ↦
              rw (slot-fresh sb ip d bn b d' z e al.nonzero) (direct-fresh ip d f al bn lt z)
        ]
      ]

  word-Leaves :
      (bn : ℕ)
      → ndirect ≤ bn
      → bn < maxfile
      → ip.addrs ndirect ≢ 0
      → let (addr, d') = alloc_word sb (ip.addrs ndirect) (bn - ndirect) d in
        Bmapped sb ip bn d addr ip d'
  word-Leaves bn ge lt some_ind =
      let ind = ip.addrs ndirect in
      let j = bn - ndirect in
      let at_bn = addr_of-indirect ip d bn ge some_ind in
      elim (ℕ_discrete (get_word (d ind) j) 0) [
        | no ne ↦
            rw (word-had sb ind j d ne, sym at_bn)
              (stays ip bn d f (λ z. absurd (ne (sym at_bn ∙ z))))
        | yes z ↦
            let q : addr_of ip d bn ≡ 0 = at_bn ∙ z in
            elim (balloc-Allocated sb d f.guarded) [
              | inl (full, e) ↦ rw (word-full sb ind j d z e, sym q) (stays ip bn d f (λ _. full))
              | inr (b, d', e, al) ↦
                  rw (word-alloc sb ind j b d d' z e al.nonzero)
                    (word-fresh ip d f al bn ge lt some_ind q)
            ]
      ]

module _ (sb : Superblock) (ip : Inode) (d : Disk) (f : File sb ip d) where
  indirect-Leaves :
      (bn : ℕ)
      → ndirect ≤ bn
      → bn < maxfile
      → Leaves sb ip bn d (bmap_indirect sb ip (bn - ndirect) d)
  indirect-Leaves bn ge lt =
      let j = bn - ndirect in
      elim (ℕ_discrete (ip.addrs ndirect) 0) [
        | no ne ↦
            rw (indirect-goes sb ip ip (ip.addrs ndirect) j d d (slot-had sb ip d ndirect ne) ne)
              (word-Leaves sb ip d f bn ge lt ne)
        | yes z ↦ elim (balloc-Allocated sb d f.guarded) [
          | inl (full, e) ↦
              let q : addr_of ip d bn ≡ 0 = addr_of-none ip d bn ge z in
              rw (indirect-full sb ip j d (slot-full sb ip d ndirect z e), sym q)
                (stays ip bn d f (λ _. full))
          | inr (b, d', e, al) ↦
              let ip' = record ip { addrs = update ip.addrs ndirect b } in
              let at_ind : ip'.addrs ndirect ≡ b = update_self ip.addrs ndirect b in
              let s = ind-fresh ip d f al z in
              let ne : ip'.addrs ndirect ≢ 0 = λ x. al.nonzero (sym at_ind ∙ x) in
              rw
                (indirect-goes sb ip ip' b j d d' (slot-fresh sb ip d ndirect b d' z e al.nonzero)
                  al.nonzero)
                (after_slot bn lt s (rw at_ind at (word-Leaves sb ip' d' s.file bn ge lt ne)))
        ]
      ]

  -- For a block number below MAXFILE of an inode whose blocks are its own, `bmap` returns: the
  -- number that the map then has for that block, which is the number it had before if it had one,
  -- a fresh and zeroed block if the disk has a free one, and 0 only if the disk is full; the
  -- other blocks of the file keep their numbers and their content, so do the blocks in use that
  -- are not the file's, the blocks are still the inode's own, and only its addresses change. From
  -- MAXFILE on it panics.
  pub bmap-Bmapped :
      (bn : ℕ)
      → ((bn < maxfile)
          × ((a : ℕ) × (ip' : Inode) × (d' : Disk) × (bmap sb ip bn d ≡ ok (a, ip', d'))
              × Bmapped sb ip bn d a ip' d'))
        ⊎ ((maxfile ≤ bn) × (bmap sb ip bn d ≡ panic))
  unfolding bmap
  bmap-Bmapped bn = elim (dec_lt bn maxfile) [
    | no ge ↦ inr (omega arith, ground arith)
    | yes lt ↦ inl (
      lt,
      elim (dec_lt bn ndirect) [
        | yes direct ↦
            let r = alloc_slot sb bn ip d in
            (r.0, r.1, r.2, ground arith, direct-Leaves sb ip d f bn direct)
        | no ge ↦
            let r = bmap_indirect sb ip (bn - ndirect) d in
            (r.0, r.1, r.2, ground arith, indirect-Leaves bn (omega arith) lt)
      ],
    )
  ]

-- A block that is there is found without a change.
pub bmap_had :
    (sb : Superblock) (ip : Inode) (bn : ℕ) (d : Disk)
    → bn < maxfile
    → addr_of ip d bn ≢ 0
    → bmap sb ip bn d ≡ ok (addr_of ip d bn, ip, d)
unfolding bmap
bmap_had sb ip bn d lt ne = elim (dec_lt bn ndirect) [
  | yes direct ↦
      let at_bn = addr_of-direct ip d bn direct in
      let e = slot-had sb ip d bn (λ z. ne (at_bn ∙ z)) in rw at_bn (ground arith)
  | no ge ↦ elim (ℕ_discrete (ip.addrs ndirect) 0) [
    | yes z ↦ absurd (ne (addr_of-none ip d bn (omega arith) z))
    | no some_ind ↦
        let at_bn = addr_of-indirect ip d bn (omega arith) some_ind in
        let ind = ip.addrs ndirect in
        let e =
          indirect-goes sb ip ip ind (bn - ndirect) d d (slot-had sb ip d ndirect some_ind)
            some_ind in
        let w = word-had sb ind (bn - ndirect) d (λ z. ne (at_bn ∙ z)) in
        let e' : bmap_indirect sb ip (bn - ndirect) d ≡ (addr_of ip d bn, ip, d) =
          e ∙ rw (w, at_bn) refl in
        ground arith
  ]
]
