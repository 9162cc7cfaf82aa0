-- ===== src/Kernel/Fs/Io/Wrote.antt =====
-- What a piece of a write of kernel/fs.c does to a file, and what two pieces do.
use os_proj.Base.{
  ℕ, ◌+◌, ◌-◌, ◌*◌, ◌/◌, ◌%◌, ◌≤◌, ◌<◌, ◌≡◌, ◌≢◌, ◌⊎◌, inl, inr, refl, ap, sym, ◌∙◌, arith, fun_ext,
  update, update_self, update_ne, ℕ_discrete, dec_lt,
}
use os_proj.Kernel.Fs.{Block, Disk, bsize, Superblock}
use os_proj.Kernel.Fs.Bmap.{Inode, ndirect, maxfile}
use os_proj.Kernel.Fs.Bmap.Mapping.{addr_of, Owned, write_block, Apart-write}
use os_proj.Kernel.Fs.Bmap.Laws.{File, Framed, Bmapped, addr_of-same}
use os_proj.Kernel.Fs.Io.{Memory}
use os_proj.Kernel.Fs.Io.Bytes.{byte_at, byte_at-block}

-- Of `n` bytes for the offset `off`, the first `tot` are in the file.
pub record Wrote (sb : Superblock) (ip : Inode) (d : Disk) (mem : Memory) (src off n tot : ℕ)
    (ip' : Inode) (d' : Disk) : Type 0 where
  pub file : File sb ip' d'
  pub bytes : (i : ℕ) → i < tot → byte_at ip' d' (off + i) ≡ mem (src + i)
  pub there : (i : ℕ) → i < tot → addr_of ip' d' ((off + i) / bsize) ≢ 0
  pub rest :
      (p : ℕ)
      → p < maxfile * bsize
      → addr_of ip d (p / bsize) ≢ 0
      → (p < off) ⊎ (off + n ≤ p)
      → byte_at ip' d' p ≡ byte_at ip d p
  pub kept : (x : ℕ) → x < maxfile → addr_of ip d x ≢ 0 → addr_of ip' d' x ≡ addr_of ip d x
  pub frame : Framed sb ip d ip' d'
  pub only_addrs : ip' ≡ record ip { addrs = ip'.addrs }

pub Wrote-none :
    {sb : Superblock} {ip : Inode} {d : Disk} (mem : Memory) (src off n : ℕ)
    → File sb ip d
    → Wrote sb ip d mem src off n 0 ip d
Wrote-none mem src off n f = record {
  file = f;
  bytes = λ i lt. absurd (omega arith);
  there = λ i lt. absurd (omega arith);
  rest = λ p lt ne out. refl;
  kept = λ x lt ne. refl;
  frame = λ q p. (refl, p);
  only_addrs = refl;
}

-- The blocks that were there keep their numbers and their bytes.
module _ {sb : Superblock} {ip ip' : Inode} {d d' : Disk} {bn a : ℕ}
    (m : Bmapped sb ip bn d a ip' d') where
  had_kept : (x : ℕ) → x < maxfile → addr_of ip d x ≢ 0 → addr_of ip' d' x ≡ addr_of ip d x
  had_kept x lt ne = elim (ℕ_discrete x bn) [
    | yes e ↦
        ap (addr_of ip' d') e
        ∙ sym m.result
        ∙ m.had (λ z. ne (ap (addr_of ip d) e ∙ z))
        ∙ ap (addr_of ip d) (sym e)
    | no other ↦ m.kept x lt other
  ]

  byte_kept :
      (p : ℕ)
      → p < maxfile * bsize
      → addr_of ip d (p / bsize) ≢ 0
      → d' (addr_of ip d (p / bsize)) (p % bsize) ≡ byte_at ip d p
  unfolding byte_at
  byte_kept p lt ne = ap (λ (w : Block). w (p % bsize)) (m.content (p / bsize) (omega arith) ne)

-- `bmap` found no block.
pub Wrote-full :
    {sb : Superblock} {ip ip' : Inode} {d d' : Disk} {bn : ℕ} (mem : Memory) (src off n : ℕ)
    → Bmapped sb ip bn d 0 ip' d'
    → Wrote sb ip d mem src off n 0 ip' d'
unfolding byte_at
Wrote-full {ip' = ip'} {d' = d'} mem src off n m = record {
  file = m.file;
  bytes = λ i lt. absurd (omega arith);
  there = λ i lt. absurd (omega arith);
  rest = λ p lt ne out.
      ap (λ (a : ℕ). d' a (p % bsize)) (had_kept m (p / bsize) (omega arith) ne)
      ∙ byte_kept m p lt ne;
  kept = had_kept m;
  frame = m.frame;
  only_addrs = m.only_addrs;
}

after_piece :
    (off m n p : ℕ) → m ≤ n → (p < off) ⊎ (off + n ≤ p) → (p < off + m) ⊎ (off + m + (n - m) ≤ p)
after_piece off m n p le (inl lt) = inl (omega arith)
after_piece off m n p le (inr ge) = inr (omega arith)

before_piece : (off m n p : ℕ) → m ≤ n → (p < off) ⊎ (off + n ≤ p) → (p < off) ⊎ (off + m ≤ p)
before_piece off m n p le (inl lt) = inl lt
before_piece off m n p le (inr ge) = inr (omega arith)

pub Wrote-join :
    {sb : Superblock} {ip ip' ip'' : Inode} {d d' d'' : Disk} {mem : Memory} {src off m n tot : ℕ}
    → m ≤ n
    → off + n ≤ maxfile * bsize
    → Wrote sb ip d mem src off m m ip' d'
    → Wrote sb ip' d' mem (src + m) (off + m) (n - m) tot ip'' d''
    → Wrote sb ip d mem src off n (m + tot) ip'' d''
Wrote-join {ip = ip} {ip'} {ip''} {d} {d'} {d''} {mem} {src} {off} {m} {n} {tot} le fits w v =
    record {
      file = v.file;
      bytes = λ i lt. elim (dec_lt i m) [
        | yes l ↦ v.rest (off + i) (omega arith) (w.there i l) (inl (omega arith)) ∙ w.bytes i l
        | no l ↦
            let p : off + m + (i - m) ≡ off + i = omega arith in
            let q : src + m + (i - m) ≡ src + i = omega arith in
            rw (p, q) at (v.bytes (i - m) (omega arith))
      ];
      there = λ i lt. elim (dec_lt i m) [
        | yes l ↦
            λ z. w.there i l (sym (v.kept ((off + i) / bsize) (omega arith) (w.there i l)) ∙ z)
        | no l ↦
            let p : off + m + (i - m) ≡ off + i = omega arith in
            rw p at (v.there (i - m) (omega arith))
      ];
      rest = λ p lt ne out.
          v.rest p lt (λ z. ne (sym (w.kept (p / bsize) (omega arith) ne) ∙ z))
            (after_piece off m n p le out)
          ∙ w.rest p lt ne (before_piece off m n p le out);
      kept = λ x lt ne. v.kept x lt (λ z. ne (sym (w.kept x lt ne) ∙ z)) ∙ w.kept x lt ne;
      frame = λ q p.
          let (same, p') = w.frame q p in let (same', p'') = v.frame q p' in (same' ∙ same, p'');
      only_addrs = v.only_addrs ∙ ap (λ (i : Inode). record i { addrs = ip''.addrs }) w.only_addrs;
    }

-- The place in the block of a byte that is not among those written.
apart_in :
    (off n len p : ℕ)
    → (p < off) ⊎ (off + n ≤ p)
    → p / bsize ≡ off / bsize
    → len ≤ n
    → (p % bsize < off % bsize) ⊎ (off % bsize + len ≤ p % bsize)
apart_in off n len p (inl lt) e le = inl (omega arith)
apart_in off n len p (inr ge) e le = inr (omega arith)

-- A block that `bmap` gave takes the bytes.
pub Wrote-block :
    {sb : Superblock} {ip ip' : Inode} {d d' : Disk} {a : ℕ} (mem : Memory) (src off len n tot : ℕ)
    (buf : Block)
    → Bmapped sb ip (off / bsize) d a ip' d'
    → a ≢ 0
    → off < maxfile * bsize
    → len ≤ bsize - off % bsize
    → len ≤ n
    → tot ≤ len
    → ((i : ℕ) → i < tot → buf (off % bsize + i) ≡ mem (src + i))
    → ((i : ℕ) → (i < off % bsize) ⊎ (off % bsize + len ≤ i) → buf i ≡ d' a i)
    → Wrote sb ip d mem src off n tot ip' (update d' a buf)
unfolding byte_at
Wrote-block {sb} {ip} {ip'} {d} {d'} {a} mem src off len n tot buf m ne inside in_block le tot_le
      bytes outer =
    let bn = off / bsize in
    let lt : bn < maxfile = omega arith in
    let d'' = update d' a buf in
    let own : Owned sb d' a = rw m.result (m.file.owned bn lt (λ z. ne (m.result ∙ z))) in
    let same : (x : ℕ) → addr_of ip' d'' x ≡ addr_of ip' d' x = λ x.
      addr_of-same ip' ip' d' d'' x refl (λ _. refl)
        (λ some_ind.
          update_ne d' a buf (ip'.addrs ndirect)
            (λ e. m.file.ind_apart bn lt some_ind (sym m.result ∙ sym e))) in
    let written : (p : ℕ)
        → p < maxfile * bsize
        → addr_of ip d (p / bsize) ≢ 0
        → (p < off) ⊎ (off + n ≤ p)
        → d'' (addr_of ip d (p / bsize)) (p % bsize) ≡ d' (addr_of ip d (p / bsize)) (p % bsize) =
      λ p l some_p out. elim (ℕ_discrete (p / bsize) bn) [
        | yes e ↦
            let q : addr_of ip d (p / bsize) ≡ a =
              ap (addr_of ip d) e ∙ sym (m.had (λ z. some_p (ap (addr_of ip d) e ∙ z))) in
            rw q (
              ap (λ (w : Block). w (p % bsize)) (update_self d' a buf)
              ∙ outer (p % bsize) (apart_in off n len p out e le))
        | no other ↦
            let k = m.kept (p / bsize) (omega arith) other in
            ap (λ (w : Block). w (p % bsize))
              (update_ne d' a buf (addr_of ip d (p / bsize)) (λ e. other (
                m.file.distinct (p / bsize) bn (omega arith) lt (λ z. some_p (sym k ∙ z))
                  (k ∙ e ∙ m.result))))
      ] in
    let at_bn : addr_of ip' d'' bn ≡ a = same bn ∙ sym m.result in
    record {
      file = rw (fun_ext same) (write_block a buf m.file own);
      bytes = λ i l.
          byte_at-block ip' d'' off i (omega arith)
          ∙ ap (λ (q : ℕ). d'' q (off % bsize + i)) at_bn
          ∙ ap (λ (w : Block). w (off % bsize + i)) (update_self d' a buf)
          ∙ bytes i l;
      there = λ i l. let q : (off + i) / bsize ≡ bn = omega arith in rw q (λ z. ne (sym at_bn ∙ z));
      rest = λ p l some_p out.
          ap (λ (q : ℕ). d'' q (p % bsize))
            (same (p / bsize) ∙ had_kept m (p / bsize) (omega arith) some_p)
          ∙ written p l some_p out
          ∙ byte_kept m p l some_p;
      kept = λ x l some_x. same x ∙ had_kept m x l some_x;
      frame = λ q p.
          let (same_q, p') = m.frame q p in
          (
            update_ne d' a buf q (λ e. p'.no_addr bn lt (sym m.result ∙ sym e)) ∙ same_q,
            rw (fun_ext same) (Apart-write a buf own p'),
          );
      only_addrs = m.only_addrs;
    }
