-- ===== src/Kernel/Fs/Bmap/Slots.antt =====
-- The entries of an inode that `bmap` of kernel/fs.c fills.
use os_proj.Base.{
  ℕ, ◌-◌, ◌≤◌, ◌<◌, ◌≡◌, ◌≢◌, refl, ap, sym, ◌∙◌, arith, update, update_self, update_ne, dec_lt,
}
use os_proj.Kernel.Fs.{Disk, Superblock}
use os_proj.Kernel.Fs.Bitmap.{balloc}
use os_proj.Kernel.Fs.Bitmap.Laws.{Allocated}
use os_proj.Kernel.Fs.Bmap.{Inode, ndirect, maxfile, get_word, put_word, alloc_slot}
use os_proj.Kernel.Fs.Bmap.Words.{get_word-put_word, get_word-put_word_ne, get_word-zero}
use os_proj.Kernel.Fs.Bmap.Mapping.{
  addr_of, Mapping, fresh-apart, extend_addr, extend_ind, write_block, Apart-addr, Apart-ind,
  Apart-write,
}
use os_proj.Kernel.Fs.Bmap.Laws.{
  File, Slotted, Bmapped, addr_of-direct, addr_of-none, addr_of-indirect, addr_of-same,
  fresh-content,
}

module _ (sb : Superblock) (ip : Inode) (d : Disk) where
  pub slot-full :
      (k : ℕ) → ip.addrs k ≡ 0 → balloc sb d ≡ (0, d) → alloc_slot sb k ip d ≡ (0, ip, d)
  unfolding alloc_slot
  slot-full k z e = ground arith

  pub slot-had : (k : ℕ) → ip.addrs k ≢ 0 → alloc_slot sb k ip d ≡ (ip.addrs k, ip, d)
  unfolding alloc_slot
  slot-had k ne = ground arith

  pub slot-fresh :
      (k b : ℕ) (d' : Disk)
      → ip.addrs k ≡ 0
      → balloc sb d ≡ (b, d')
      → b ≢ 0
      → alloc_slot sb k ip d ≡ (b, record ip { addrs = update ip.addrs k b }, d')
  unfolding alloc_slot
  slot-fresh k b d' z e ne = ground arith

module _ {sb : Superblock} (ip : Inode) (d : Disk) (f : File sb ip d) {b : ℕ} {d' : Disk}
    (al : Allocated sb d b d') where
  pub direct-fresh :
      (bn : ℕ)
      → bn < ndirect
      → ip.addrs bn ≡ 0
      → Bmapped sb ip bn d b (record ip { addrs = update ip.addrs bn b }) d'
  direct-fresh bn lt z =
      let ip' = record ip { addrs = update ip.addrs bn b } in
      let at_bn : addr_of ip' d' bn ≡ b = addr_of-direct ip' d' bn lt ∙ update_self ip.addrs bn b in
      let ind : ip'.addrs ndirect ≡ ip.addrs ndirect =
        update_ne ip.addrs bn b ndirect (omega arith) in
      let block : ip.addrs ndirect ≢ 0 → d' (ip.addrs ndirect) ≡ d (ip.addrs ndirect) =
        λ ne. fresh-content f al (ip.addrs ndirect) (f.ind_owned ne) in
      let kept : (x : ℕ) → x < maxfile → x ≢ bn → addr_of ip' d' x ≡ addr_of ip d x =
        λ x l ne. addr_of-same ip ip' d d' x ind (λ _. update_ne ip.addrs bn b x ne) block in
      record {
        result = sym at_bn;
        file = rw ind (extend_addr f al (addr_of ip' d') bn at_bn kept);
        kept = kept;
        had = λ ne. absurd (ne (addr_of-direct ip d bn lt ∙ z));
        fresh = λ _ _. al.zeroed;
        content = λ x l ne. fresh-content f al (addr_of ip d x) (f.owned x l ne);
        frame = λ q p. (
          fresh-content f al q p.owned,
          rw ind (Apart-addr f al (addr_of ip' d') bn q at_bn kept p),
        );
        full = λ e. absurd (al.nonzero e);
        only_addrs = refl;
      }

  -- The indirect block is fresh: the file has the same blocks.
  pub ind-fresh :
      ip.addrs ndirect ≡ 0 → Slotted sb ip d (record ip { addrs = update ip.addrs ndirect b }) d'
  ind-fresh z =
      let ip' = record ip { addrs = update ip.addrs ndirect b } in
      let at_ind : ip'.addrs ndirect ≡ b = update_self ip.addrs ndirect b in
      let same : (x : ℕ) → addr_of ip' d' x ≡ addr_of ip d x = λ x. elim (dec_lt x ndirect) [
        | yes lt ↦
            addr_of-direct ip' d' x lt
            ∙ update_ne ip.addrs ndirect b x (omega arith)
            ∙ sym (addr_of-direct ip d x lt)
        | no ge ↦
            addr_of-indirect ip' d' x (omega arith) (λ e. al.nonzero (sym at_ind ∙ e))
            ∙ ap (λ (i : ℕ). get_word (d' i) (x - ndirect)) at_ind
            ∙ ap (λ (w : ℕ → ℕ). get_word w (x - ndirect)) al.zeroed
            ∙ get_word-zero (x - ndirect)
            ∙ sym (addr_of-none ip d x (omega arith) z)
      ] in
      record {
        file = rw at_ind (extend_ind f al (addr_of ip' d') (λ x _. same x));
        kept = λ x _. same x;
        content = λ x l ne. fresh-content f al (addr_of ip d x) (f.owned x l ne);
        frame = λ q p. (
          fresh-content f al q p.owned,
          rw at_ind (Apart-ind f al (addr_of ip' d') q (λ x _. same x) p),
        );
        only_addrs = refl;
      }

  -- An entry of the indirect block is fresh.
  pub word-fresh :
      (bn : ℕ)
      → ndirect ≤ bn
      → bn < maxfile
      → ip.addrs ndirect ≢ 0
      → addr_of ip d bn ≡ 0
      → Bmapped sb ip bn d b ip
          (update d' (ip.addrs ndirect) (put_word (d' (ip.addrs ndirect)) (bn - ndirect) b))
  word-fresh bn ge lt some_ind z =
      let ind = ip.addrs ndirect in
      let j = bn - ndirect in
      let v = put_word (d' ind) j b in
      let d'' = update d' ind v in
      let at_ind : d'' ind ≡ v = update_self d' ind v in
      let ind_kept : d' ind ≡ d ind = fresh-content f al ind (f.ind_owned some_ind) in
      let at_bn : addr_of ip d'' bn ≡ b =
        addr_of-indirect ip d'' bn ge some_ind
        ∙ ap (λ (w : ℕ → ℕ). get_word w j) at_ind
        ∙ get_word-put_word (d' ind) j b (omega (arith, f.small, al.inside)) in
      let kept : (x : ℕ) → x < maxfile → x ≢ bn → addr_of ip d'' x ≡ addr_of ip d x = λ x l ne.
        elim (dec_lt x ndirect) [
          | yes q ↦ addr_of-direct ip d'' x q ∙ sym (addr_of-direct ip d x q)
          | no q ↦
              addr_of-indirect ip d'' x (omega arith) some_ind
              ∙ ap (λ (w : ℕ → ℕ). get_word w (x - ndirect)) at_ind
              ∙ get_word-put_word_ne (d' ind) j (x - ndirect) b (omega arith)
              ∙ ap (λ (w : ℕ → ℕ). get_word w (x - ndirect)) ind_kept
              ∙ sym (addr_of-indirect ip d x (omega arith) some_ind)
        ] in
      let m : Mapping sb d' (addr_of ip d'') ind =
        extend_addr f al (addr_of ip d'') bn at_bn kept in
      record {
        result = sym at_bn;
        file = write_block ind v m (m.ind_owned some_ind);
        kept = kept;
        had = λ ne. absurd (ne z);
        fresh = λ _ _.
            update_ne d' ind v b (λ e. fresh-apart ind (f.ind_owned some_ind) al (sym e))
            ∙ al.zeroed;
        content = λ x l ne.
            update_ne d' ind v (addr_of ip d x) (f.ind_apart x l some_ind)
            ∙ fresh-content f al (addr_of ip d x) (f.owned x l ne);
        frame = λ q p. (
          update_ne d' ind v q (λ e. p.no_ind (sym e)) ∙ fresh-content f al q p.owned,
          Apart-write ind v (m.ind_owned some_ind)
              (Apart-addr f al (addr_of ip d'') bn q at_bn kept p),
        );
        full = λ e. absurd (al.nonzero e);
        only_addrs = refl;
      }
