-- ===== src/Kernel/Fs/Io/Whole.antt =====
-- `writei` of kernel/fs.c as a whole, and `readi` after it.
use os_proj.Base.{
  ℕ, ◌+◌, ◌-◌, ◌*◌, ◌≤◌, ◌<◌, ◌≡◌, ◌⊎◌, inl, inr, refl, ap, ◌∙◌, arith, Bool, true, false, ◌||◌,
  ltb, dec_lt, Res, ok, ◌>>=◌, min, max, none, some,
}
use os_proj.Kernel.Fs.{Disk, bsize, Superblock}
use os_proj.Kernel.Fs.Bmap.{Inode, maxfile}
use os_proj.Kernel.Fs.Bmap.Laws.{File, Outside}
use os_proj.Kernel.Fs.Io.{
  Memory, add32, blit, UserCopy, iblock, grow, iupdate, write_blocks, writei, readi,
}
use os_proj.Kernel.Fs.Io.Read.{readi-Reads}
use os_proj.Kernel.Fs.Io.Bytes.{blit-cong, byte_at, Dense, CopyLaws}
use os_proj.Kernel.Fs.Io.Write.{Short, Writes, write_blocks-Writes}
use os_proj.Kernel.Fs.Io.Grow.{Written, grow-max, grow-Written}

too_long :
    (off n : ℕ)
    → off < 4294967296
    → n < 4294967296
    → maxfile * bsize < off + n
    → (ltb (add32 off n) off || ltb (maxfile * bsize) (add32 off n)) ≡ true
too_long off n lo ln long = elim (dec_lt (off + n) 4294967296) [
  | yes fits ↦ let sum : add32 off n ≡ off + n = omega arith in rw sum (ground arith)
  | no wraps ↦ let less : add32 off n < off = omega arith in ground arith
]

ends :
    (c : UserCopy) (sb : Superblock) (user_src : Bool) (ip : Inode) (d : Disk)
    (home : Outside sb ip d (iblock ip.inum sb)) (src off n : ℕ) (mem : Memory)
    → off ≤ ip.size
    → off + n ≤ maxfile * bsize
    → (r : Res (ℕ × ℕ × Inode × Disk)) → Writes c sb user_src n 0 off src mem ip d r
    → (t : ℕ) × (ip' : Inode) × (d' : Disk) × ((r >>= (λ x. ok (grow sb x))) ≡ ok (some t, ip', d'))
      × Written c sb user_src ip d mem src off n t ip' d'
ends c sb user_src ip d home src off n mem inside fits r w =
    let ip' = record w.inode { size = max w.inode.size (off + w.count) } in
    let all : n - 0 ≡ n = omega arith in
    let none_before : 0 + w.count ≡ w.count = omega arith in
    let e = w.returns in
    (
      w.count,
      ip',
      iupdate sb ip' w.disk,
      rw (e, none_before) (ap (λ x. ok x) (grow-max sb w.count (off + w.count) w.inode w.disk)),
      grow-Written c sb user_src ip d mem src off n w.count home inside fits w.inode w.disk
          (rw all at w.wrote) (rw all at w.at_most) (rw all at w.short),
    )

reads_back :
    {c : UserCopy} (laws : CopyLaws c) (sb : Superblock) (user_src : Bool) (ip : Inode) (d : Disk)
    (src off n t : ℕ) (mem : Memory) (ip' : Inode) (d' : Disk)
    → Written c sb user_src ip d mem src off n t ip' d'
    → Dense ip d
    → off + n < 4294967296
    → off ≤ ip.size
    → (dst : ℕ) (mem' : Memory) → dst + t < 18446744073709551616
    → readi c sb ip' false dst off t mem' d'
      ≡ ok (some t, blit mem' dst (λ i. mem (src + i)) t, ip', d')
reads_back laws sb user_src ip d src off n t mem ip' d' w dense small inside dst mem' in_mem =
    let size : ip'.size ≡ max ip.size (off + t) = ap (λ (i : Inode). i.size) w.fields in
    let le = w.at_most in
    let k : min t (ip'.size - off) ≡ t = omega arith in
    elim (readi-Reads laws sb false ip' d' dst off t mem' (w.dense dense) (omega arith)
      (omega arith) in_mem) [
        | inl (l, l', inl r) ↦
            (rw k at r)
            ∙ ap (λ x. ok (some t, x, ip', d'))
                (blit-cong mem' dst (λ i. byte_at ip' d' (off + i)) (λ i. mem (src + i)) t w.bytes)
        | inl (l, l', inr (user, m, o, r)) ↦ absurd (cc)
        | inr (inl beyond, r) ↦ absurd (omega arith)
        | inr (inr wraps, r) ↦ absurd (omega arith)
      ]

module _ {c : UserCopy} (laws : CopyLaws c) (sb : Superblock) (user_src : Bool) (ip : Inode)
    (d : Disk) (f : File sb ip d) (home : Outside sb ip d (iblock ip.inum sb)) where
  pub writei-Written :
      (src off n : ℕ) (mem : Memory)
      → off < 4294967296
      → n < 4294967296
      → src + n < 18446744073709551616
      → (((ip.size < off) ⊎ (maxfile * bsize < off + n))
          × (writei c sb ip user_src src off n mem d ≡ ok (none, ip, d)))
        ⊎ ((t : ℕ) × (ip' : Inode) × (d' : Disk) × (writei c sb ip user_src src off n mem d
              ≡ ok (some t, ip', d'))
            × Written c sb user_src ip d mem src off n t ip' d')
  unfolding writei
  writei-Written src off n mem lo ln in_mem = elim (dec_lt ip.size off) [
    | yes beyond ↦ let b : ltb ip.size off ≡ true = ground arith in inl (inl beyond, rw b refl)
    | no inside ↦
        let b : ltb ip.size off ≡ false = ground arith in
        elim (dec_lt (maxfile * bsize) (off + n)) [
          | yes long ↦ inl (inr long, rw (b, too_long off n lo ln long) refl)
          | no fits ↦
              let sum : add32 off n ≡ off + n = omega arith in
              let b' : ltb (off + n) off ≡ false = ground arith in
              let b'' : ltb (maxfile * bsize) (off + n) ≡ false = ground arith in
              let w =
                write_blocks-Writes laws sb user_src mem n n 0 off src ip d (omega arith)
                  (omega arith) (omega arith) (omega arith) f in
              inr (
                rw (sum, b, b', b'')
                  (ends c sb user_src ip d home src off n mem (omega arith) (omega arith)
                    (write_blocks c sb user_src n n 0 off src mem ip d) w))
        ]
  ]

  -- What `writei` has written into a file without holes, `readi` reads back, into any place of
  -- kernel memory. It has written all bytes, unless the disk is full or `copyin` fails on a piece
  -- that starts with the first byte not written.
  pub readi-writei :
      (src off n : ℕ) (mem : Memory)
      → Dense ip d
      → off ≤ ip.size
      → off + n ≤ maxfile * bsize
      → src + n < 18446744073709551616
      → (t : ℕ) × (ip' : Inode) × (d' : Disk) × (writei c sb ip user_src src off n mem d
          ≡ ok (some t, ip', d'))
        × (t < n → Short c sb user_src mem (src + t) (n - t) d')
        × ((dst : ℕ) (mem' : Memory)
            → dst + t < 18446744073709551616
            → readi c sb ip' false dst off t mem' d'
              ≡ ok (some t, blit mem' dst (λ i. mem (src + i)) t, ip', d'))
  unfolding Dense
  readi-writei src off n mem dense inside fits in_mem =
      elim (writei-Written src off n mem (omega arith) (omega arith) in_mem) [
        | inl (inl beyond, e) ↦ absurd (omega arith)
        | inl (inr long, e) ↦ absurd (omega arith)
        | inr (t, ip', d', e, w) ↦ (
          t,
          ip',
          d',
          e,
          w.short,
          λ dst mem' in_mem'.
              reads_back laws sb user_src ip d src off n t mem ip' d' w dense (omega arith)
                (omega arith) dst mem' in_mem',
        )
      ]
