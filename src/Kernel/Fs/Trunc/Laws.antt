-- ===== src/Kernel/Fs/Trunc/Laws.antt =====
-- `itrunc` of kernel/fs.c frees the blocks of a file, and no others.
use os_proj.Base.{
  ℕ, zero, suc, ◌+◌, ◌≤◌, ◌<◌, ◌≡◌, ◌≢◌, ◌⊎◌, inl, inr, refl, ap, sym, ◌∙◌, arith, ltb,
  if◌then◌else◌, update, update_self, update_ne, ℕ_discrete, dec_lt, Res, ok, ◌>>=◌,
}
use os_proj.Kernel.Fs.{Disk, Superblock}
use os_proj.Kernel.Fs.Bmap.{Inode, ndirect, maxfile}
use os_proj.Kernel.Fs.Bmap.Mapping.{addr_of, Owned}
use os_proj.Kernel.Fs.Bmap.Laws.{File}
use os_proj.Kernel.Fs.Trunc.{free_one, free_blocks, trunc_direct}
use os_proj.Kernel.Fs.Trunc.Freed.{InUse, Res-cases, panic_ok, free_cong}

-- The entries `i` to `i + k - 1` set to 0.
pub clear : (ℕ → ℕ) → ℕ → ℕ → ℕ → ℕ
clear a zero i = a
clear a (suc k) i = clear (update a i 0) k (i + 1)

pub clear_out : (a : ℕ → ℕ) (k i x : ℕ) → (x < i) ⊎ (i + k ≤ x) → clear a k i x ≡ a x
unfolding clear
clear_out a zero i x out = refl
clear_out a (suc k) i x (inl lt) =
    clear_out (update a i 0) k (i + 1) x (inl (omega arith)) ∙ update_ne a i 0 x (omega arith)
clear_out a (suc k) i x (inr ge) =
    clear_out (update a i 0) k (i + 1) x (inr (omega arith)) ∙ update_ne a i 0 x (omega arith)

pub clear_in : (a : ℕ → ℕ) (k i x : ℕ) → i ≤ x → x < i + k → clear a k i x ≡ 0
unfolding clear
clear_in a zero i x lo hi = absurd (omega arith)
clear_in a (suc k) i x lo hi = elim (ℕ_discrete x i) [
  | yes e ↦
      clear_out (update a i 0) k (i + 1) x (inl (omega arith))
      ∙ ap (update a i 0) e
      ∙ update_self a i 0
  | no ne ↦ clear_in (update a i 0) k (i + 1) x (omega arith) (omega arith)
]

-- The loop over the direct entries, where the freeing goes well.
pub direct_ok :
    (sb : Superblock) (k i : ℕ) (ip : Inode) (d d' : Disk)
    → free_blocks sb ip.addrs k i d ≡ ok d'
    → trunc_direct sb k i ip d ≡ ok (record ip { addrs = clear ip.addrs k i }, d')
unfolding free_blocks trunc_direct clear
direct_ok sb zero i ip d d' e = ap (λ (r : Res Disk). r >>= (λ x. ok (ip, x))) e
direct_ok sb (suc k) i ip d d' e = elim (Res-cases (free_one sb (ip.addrs i) d)) [
  | inl bad ↦ absurd (panic_ok d' (rw bad at e))
  | inr (d1, good) ↦
      let ip' = record ip { addrs = update ip.addrs i 0 } in
      let same =
        free_cong sb ip'.addrs ip.addrs k (i + 1) (i + 1) d1
          (λ j lt. update_ne ip.addrs i 0 (i + 1 + j) (omega arith)) in
      rw good (direct_ok sb k (i + 1) ip' d1 d' (same ∙ (rw good at e)))
]

-- All the blocks of a file: those with a number, and then the indirect block.
unfoldable pub blocks_of : Inode → Disk → ℕ → ℕ
blocks_of ip d j = if ltb j maxfile then addr_of ip d j else ip.addrs ndirect

pub blocks_of-low :
    (ip : Inode) (d : Disk) (j : ℕ) → j < maxfile → blocks_of ip d j ≡ addr_of ip d j
unfolding blocks_of
blocks_of-low ip d j lt = ground arith

pub blocks_of-ind :
    (ip : Inode) (d : Disk) (j : ℕ) → maxfile ≤ j → blocks_of ip d j ≡ ip.addrs ndirect
unfolding blocks_of
blocks_of-ind ip d j le = ground arith

module _ (sb : Superblock) (ip : Inode) (d : Disk) (f : File sb ip d) where
  pub block-Owned : (j : ℕ) → blocks_of ip d j ≢ 0 → Owned sb d (blocks_of ip d j)
  block-Owned j ne = elim (dec_lt j maxfile) [
    | yes lt ↦ let e = blocks_of-low ip d j lt in rw e (f.owned j lt (λ z. ne (e ∙ z)))
    | no ge ↦ let e = blocks_of-ind ip d j (omega arith) in rw e (f.ind_owned (λ z. ne (e ∙ z)))
  ]

  blocks-distinct :
      (j j' : ℕ)
      → j ≤ maxfile
      → j' ≤ maxfile
      → blocks_of ip d j ≢ 0
      → blocks_of ip d j ≡ blocks_of ip d j'
      → j ≡ j'
  blocks-distinct j j' lt lt' ne q = elim (dec_lt j maxfile) [
    | yes l ↦ elim (dec_lt j' maxfile) [
      | yes l' ↦
          let e = blocks_of-low ip d j l in
          f.distinct j j' l l' (λ z. ne (e ∙ z)) (sym e ∙ q ∙ blocks_of-low ip d j' l')
      | no g' ↦
          let e = blocks_of-low ip d j l in
          let e' = blocks_of-ind ip d j' (omega arith) in
          absurd (f.ind_apart j l (λ z. ne (q ∙ e' ∙ z)) (sym e ∙ q ∙ e'))
    ]
    | no g ↦ elim (dec_lt j' maxfile) [
      | yes l' ↦
          let e = blocks_of-ind ip d j (omega arith) in
          absurd (f.ind_apart j' l' (λ z. ne (e ∙ z)) (sym (blocks_of-low ip d j' l') ∙ sym q ∙ e))
      | no g' ↦ omega arith
    ]
  ]

  pub blocks-InUse : InUse sb (blocks_of ip d) 0 269 d
  blocks-InUse = record {
    inside = λ j lo lt ne. (block-Owned j ne).inside;
    used = λ j lo lt ne. (block-Owned j ne).used;
    distinct = λ j j' lo lt lo' lt' ne q. blocks-distinct j j' (omega arith) (omega arith) ne q;
  }
