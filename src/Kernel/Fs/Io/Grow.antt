-- ===== src/Kernel/Fs/Io/Grow.antt =====
-- `writei` of kernel/fs.c as a whole: the bytes, the size and the inode on the disk; and `readi`
-- after it.
use os_proj.Base.{
  ℕ, ◌+◌, ◌-◌, ◌*◌, ◌/◌, ◌%◌, ◌≤◌, ◌<◌, ◌≡◌, ◌≢◌, ◌⊎◌, inl, inr, refl, ap, sym, ◌∙◌, arith, Bool,
  true, false, ltb, fun_ext, update, update_self, update_ne, dec_lt, max, some,
}
use os_proj.Kernel.Fs.{Block, Disk, bsize, Superblock}
use os_proj.Kernel.Fs.Bmap.{Inode, ndirect, maxfile}
use os_proj.Kernel.Fs.Bmap.Mapping.{addr_of, Owned, write_block, write-SameMap}
use os_proj.Kernel.Fs.Bmap.Laws.{File, Outside, addr_of-same}
use os_proj.Kernel.Fs.Io.{Memory, UserCopy, iblock, put_dinode, iupdate, grow}
use os_proj.Kernel.Fs.Io.OnDisk.{OnDisk, OnDisk-of}
use os_proj.Kernel.Fs.Io.Bytes.{byte_at, Dense}
use os_proj.Kernel.Fs.Io.Wrote.{Wrote}
use os_proj.Kernel.Fs.Io.Write.{Short}

-- A write to a block in use that is none of the file's.
module _ {sb : Superblock} (ip : Inode) (d : Disk) (q : ℕ) (v : Block) (p : Outside sb ip d q) where
  pub aside-addr : (x : ℕ) → addr_of ip (update d q v) x ≡ addr_of ip d x
  aside-addr x =
      addr_of-same ip ip d (update d q v) x refl (λ _. refl)
        (λ _. update_ne d q v (ip.addrs ndirect) p.no_ind)

  pub aside-File : File sb ip d → File sb ip (update d q v)
  aside-File f = rw (fun_ext aside-addr) (write_block q v f p.owned)

  pub aside-byte : (i : ℕ) → i < maxfile * bsize → byte_at ip (update d q v) i ≡ byte_at ip d i
  unfolding byte_at
  aside-byte i lt =
      ap (λ (a : ℕ). update d q v a (i % bsize)) (aside-addr (i / bsize))
      ∙ ap (λ (w : Block). w (i % bsize))
          (update_ne d q v (addr_of ip d (i / bsize)) (p.no_addr (i / bsize) (omega arith)))

-- What `writei` does when it takes the request: `t` bytes are written.
pub record Written (c : UserCopy) (sb : Superblock) (user_src : Bool) (ip : Inode) (d : Disk)
    (mem : Memory) (src off n t : ℕ) (ip' : Inode) (d' : Disk) : Type 0 where
  pub file : File sb ip' d'
  pub fields : ip' ≡ record ip { size = max ip.size (off + t); addrs = ip'.addrs }
  pub bytes : (i : ℕ) → i < t → byte_at ip' d' (off + i) ≡ mem (src + i)
  pub rest :
      (p : ℕ)
      → p < maxfile * bsize
      → addr_of ip d (p / bsize) ≢ 0
      → (p < off) ⊎ (off + n ≤ p)
      → byte_at ip' d' p ≡ byte_at ip d p
  pub dense : Dense ip d → Dense ip' d'
  pub others : (q : ℕ) → Outside sb ip d q → q ≢ iblock ip.inum sb → d' q ≡ d q
  pub saved : OnDisk (d (iblock ip.inum sb)) (d' (iblock ip.inum sb)) (ip.inum % 16) ip'
  pub at_most : t ≤ n
  pub short : t < n → Short c sb user_src mem (src + t) (n - t) d'

pub grow-max :
    (sb : Superblock) (t off : ℕ) (ip : Inode) (d : Disk)
    → let ip' = record ip { size = max ip.size off } in
      grow sb (t, off, ip, d) ≡ (some t, ip', iupdate sb ip' d)
unfolding grow
grow-max sb t off ip d = elim (dec_lt ip.size off) [
  | yes lt ↦
      let b : ltb ip.size off ≡ true = ground arith in
      let s : max ip.size off ≡ off = omega arith in rw (b, s) refl
  | no ge ↦
      let b : ltb ip.size off ≡ false = ground arith in
      let s : max ip.size off ≡ ip.size = omega arith in rw (b, s) refl
]

-- `valid` is not on the disk.
pub put_dinode_valid :
    (bp : Block) (i : ℕ) (ip : Inode) (b : Bool)
    → put_dinode bp i (record ip { valid = b }) ≡ put_dinode bp i ip
unfolding put_dinode
put_dinode_valid bp i ip b = refl

pub iupdate-at :
    (sb : Superblock) (inum : ℕ) (ip : Inode) (d : Disk)
    → ip.inum ≡ inum
    → iupdate sb ip d ≡ update d (iblock inum sb) (put_dinode (d (iblock inum sb)) (inum % 16) ip)
unfolding iupdate
iupdate-at sb inum ip d e =
    ap (λ (i : ℕ). update d (iblock i sb) (put_dinode (d (iblock i sb)) (i % 16) ip)) e

kept_by_write :
    (c : UserCopy) (sb : Superblock) (user_src : Bool) (mem : Memory) (src left : ℕ) (d : Disk)
    (q : ℕ) (v : Block)
    → Owned sb d q
    → Short c sb user_src mem src left d
    → Short c sb user_src mem src left (update d q v)
kept_by_write c sb user_src mem src left d q v o (inl user) = inl user
kept_by_write c sb user_src mem src left d q v o (inr full) =
    inr (λ x lt. write-SameMap d q v o x lt (full x lt))

module _ (c : UserCopy) (sb : Superblock) (user_src : Bool) (ip : Inode) (d : Disk) (mem : Memory)
    (src off n t : ℕ) (home : Outside sb ip d (iblock ip.inum sb)) (inside : off ≤ ip.size)
    (fits : off + n ≤ maxfile * bsize) where
  pub grow-Written :
      (ip' : Inode) (d' : Disk)
      → Wrote sb ip d mem src off n t ip' d'
      → t ≤ n
      → (t < n → Short c sb user_src mem (src + t) (n - t) d')
      → let ip'' = record ip' { size = max ip'.size (off + t) } in
        Written c sb user_src ip d mem src off n t ip'' (iupdate sb ip'' d')
  unfolding addr_of byte_at Dense
  grow-Written ip' d' w le short =
      let ip'' = record ip' { size = max ip'.size (off + t) } in
      let q = iblock ip.inum sb in
      let v = put_dinode (d' q) (ip.inum % 16) ip'' in
      let (home_kept, home') = w.frame q home in
      let here : ip'.inum ≡ ip.inum = ap (λ (i : Inode). i.inum) w.only_addrs in
      let old : ip'.size ≡ ip.size = ap (λ (i : Inode). i.size) w.only_addrs in
      let addr : (x : ℕ) → addr_of ip'' (update d' q v) x ≡ addr_of ip' d' x =
        aside-addr ip'' d' q v home' in
      rw (iupdate-at sb ip.inum ip'' d' here) record {
        file = aside-File ip'' d' q v home' w.file;
        fields =
            ap (λ (z : Inode). record z { size = max z.size (off + t); addrs = ip'.addrs })
              w.only_addrs;
        bytes = λ i l. aside-byte ip'' d' q v home' (off + i) (omega arith) ∙ w.bytes i l;
        rest = λ p l ne out. aside-byte ip'' d' q v home' p l ∙ w.rest p l ne out;
        dense = λ (small, there). (
          omega arith,
          λ x l z. elim (dec_lt (x * bsize) ip.size) [
            | yes k ↦ there x k (sym (w.kept x (omega arith) (there x k)) ∙ sym (addr x) ∙ z)
            | no k ↦
                let e : (off + (x * bsize - off)) / bsize ≡ x = omega arith in
                (rw e at (w.there (x * bsize - off) (omega arith))) (sym (addr x) ∙ z)
          ],
        );
        others = λ x p ne. update_ne d' q v x ne ∙ (w.frame x p).0;
        saved =
            OnDisk-of (d q) (ip.inum % 16) ip'' (update d' q v q)
              (update_self d' q v ∙ ap (λ (b : Block). put_dinode b (ip.inum % 16) ip'') home_kept);
        at_most = le;
        short = λ l. kept_by_write c sb user_src mem (src + t) (n - t) d' q v home'.owned (short l);
      }
