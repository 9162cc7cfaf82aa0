-- ===== src/Kernel/Fs/Io/OnDisk.antt =====
-- What `iupdate` of kernel/fs.c leaves of an inode in its block, field by field: `struct dinode` of
-- kernel/fs.h is four little-endian halves, from byte 0 on, and fourteen words, from byte 8 on.
use os_proj.Base.{
  ℕ, zero, suc, ◌+◌, ◌*◌, ◌%◌, ◌≤◌, ◌<◌, ◌≡◌, ◌≢◌, ◌⊎◌, inl, inr, refl, ◌∙◌, arith, ℕ_discrete,
}
use os_proj.Kernel.Fs.{Block}
use os_proj.Kernel.Fs.Bmap.{Inode, get_word, put_word}
use os_proj.Kernel.Fs.Bmap.Words.{
  get_word-put_word_mod, put_word-out, get_word-below, get_word-put_word_ne,
}
use os_proj.Kernel.Fs.Io.{put_half, put_words, put_dinode}

-- The `short` number `j` of a block.
pub get_half : Block → ℕ → ℕ
get_half bp j = bp (2 * j) + 256 * bp (2 * j + 1)

-- Of block `bp`, entry `i` was replaced by the inode, which gives `bp'`.
pub record OnDisk (bp bp' : Block) (i : ℕ) (ip : Inode) : Type 0 where
  pub type_ : get_half bp' (32 * i) ≡ ip.type_ % 65536
  pub major : get_half bp' (32 * i + 1) ≡ ip.major % 65536
  pub minor : get_half bp' (32 * i + 2) ≡ ip.minor % 65536
  pub nlink : get_half bp' (32 * i + 3) ≡ ip.nlink % 65536
  pub size : get_word bp' (16 * i + 2) ≡ ip.size % 4294967296
  pub addrs : (k : ℕ) → k < 13 → get_word bp' (16 * i + 3 + k) ≡ ip.addrs k % 4294967296
  pub other_entries : (x : ℕ) → (x < 64 * i) ⊎ (64 * i + 64 ≤ x) → bp' x ≡ bp x

put_words-out :
    (bp : Block) (base : ℕ) (v : ℕ → ℕ) (n x : ℕ)
    → (x < 4 * base) ⊎ (4 * (base + n) ≤ x)
    → put_words bp base v n x ≡ bp x
unfolding put_words
put_words-out bp base v zero x out = refl
put_words-out bp base v (suc n) x (inl lt) =
    put_word-out (put_words bp base v n) (base + n) (v n) x (inl (omega arith))
    ∙ put_words-out bp base v n x (inl lt)
put_words-out bp base v (suc n) x (inr ge) =
    put_word-out (put_words bp base v n) (base + n) (v n) x (inr (omega arith))
    ∙ put_words-out bp base v n x (inr (omega arith))

get_word-put_words :
    (bp : Block) (base : ℕ) (v : ℕ → ℕ) (n k : ℕ)
    → k < n
    → get_word (put_words bp base v n) (base + k) ≡ v k % 4294967296
unfolding put_words
get_word-put_words bp base v zero k lt = absurd (omega arith)
get_word-put_words bp base v (suc n) k lt = elim (ℕ_discrete k n) [
  | yes e ↦ rw e (get_word-put_word_mod (put_words bp base v n) (base + n) (v n))
  | no ne ↦
      get_word-put_word_ne (put_words bp base v n) (base + n) (base + k) (v n) (omega arith)
      ∙ get_word-put_words bp base v n k (omega arith)
]

get_half-same :
    (bp bp' : Block) (j : ℕ)
    → bp' (2 * j) ≡ bp (2 * j)
    → bp' (2 * j + 1) ≡ bp (2 * j + 1)
    → get_half bp' j ≡ get_half bp j
unfolding get_half
get_half-same bp bp' j a b = ground arith

get_half-put_half : (bp : Block) (j v : ℕ) → get_half (put_half bp j v) j ≡ v % 65536
unfolding get_half put_half
get_half-put_half bp j v = ground arith

get_half-put_half_ne :
    (bp : Block) (j k v : ℕ) → k ≢ j → get_half (put_half bp j v) k ≡ get_half bp k
unfolding get_half put_half
get_half-put_half_ne bp j k v ne = ground arith

put_half-out : (bp : Block) (j v x : ℕ) → (x < 2 * j) ⊎ (2 * j + 2 ≤ x) → put_half bp j v x ≡ bp x
unfolding put_half
put_half-out bp j v x (inl lt) = ground arith
put_half-out bp j v x (inr ge) = ground arith

-- The four halves and the size, as `iupdate` stores them.
halves : Block → ℕ → Inode → Block
halves bp i ip =
    put_half
      (put_half (put_half (put_half bp (32 * i) ip.type_) (32 * i + 1) ip.major) (32 * i + 2)
        ip.minor)
      (32 * i + 3) ip.nlink

module _ (bp : Block) (i : ℕ) (ip : Inode) where
  -- The words leave the bytes below them, and those of the next entries, alone.
  words-out :
      (x : ℕ) → (x < 64 * i + 8) ⊎ (64 * i + 64 ≤ x) → put_dinode bp i ip x ≡ halves bp i ip x
  unfolding put_dinode halves
  words-out x (inl lt) =
      put_words-out (put_word (halves bp i ip) (16 * i + 2) ip.size) (16 * i + 3) ip.addrs 13 x
        (inl (omega arith))
      ∙ put_word-out (halves bp i ip) (16 * i + 2) ip.size x (inl (omega arith))
  words-out x (inr ge) =
      put_words-out (put_word (halves bp i ip) (16 * i + 2) ip.size) (16 * i + 3) ip.addrs 13 x
        (inr (omega arith))
      ∙ put_word-out (halves bp i ip) (16 * i + 2) ip.size x (inr (omega arith))

  halves-out : (x : ℕ) → (x < 64 * i) ⊎ (64 * i + 64 ≤ x) → halves bp i ip x ≡ bp x
  unfolding halves put_half
  halves-out x (inl lt) = ground arith
  halves-out x (inr ge) = ground arith

  half_at :
      (k : ℕ)
      → k < 4
      → get_half (put_dinode bp i ip) (32 * i + k) ≡ get_half (halves bp i ip) (32 * i + k)
  half_at k lt =
      get_half-same (halves bp i ip) (put_dinode bp i ip) (32 * i + k)
        (words-out (2 * (32 * i + k)) (inl (omega arith)))
        (words-out (2 * (32 * i + k) + 1) (inl (omega arith)))

  pub put_dinode-OnDisk : OnDisk bp (put_dinode bp i ip) i ip
  unfolding halves put_dinode
  put_dinode-OnDisk =
      let b1 = put_half bp (32 * i) ip.type_ in
      let b2 = put_half b1 (32 * i + 1) ip.major in
      let b3 = put_half b2 (32 * i + 2) ip.minor in
      let w = put_word (halves bp i ip) (16 * i + 2) ip.size in
      let zero_ : 32 * i + 0 ≡ 32 * i = omega arith in
      record {
        type_ =
            (rw zero_ at (half_at 0 (omega arith)))
            ∙ get_half-put_half_ne b3 (32 * i + 3) (32 * i) ip.nlink (omega arith)
            ∙ get_half-put_half_ne b2 (32 * i + 2) (32 * i) ip.minor (omega arith)
            ∙ get_half-put_half_ne b1 (32 * i + 1) (32 * i) ip.major (omega arith)
            ∙ get_half-put_half bp (32 * i) ip.type_;
        major =
            half_at 1 (omega arith)
            ∙ get_half-put_half_ne b3 (32 * i + 3) (32 * i + 1) ip.nlink (omega arith)
            ∙ get_half-put_half_ne b2 (32 * i + 2) (32 * i + 1) ip.minor (omega arith)
            ∙ get_half-put_half b1 (32 * i + 1) ip.major;
        minor =
            half_at 2 (omega arith)
            ∙ get_half-put_half_ne b3 (32 * i + 3) (32 * i + 2) ip.nlink (omega arith)
            ∙ get_half-put_half b2 (32 * i + 2) ip.minor;
        nlink = half_at 3 (omega arith) ∙ get_half-put_half b3 (32 * i + 3) ip.nlink;
        size =
            get_word-below w (put_dinode bp i ip) (16 * i + 2)
              (λ x lo hi. put_words-out w (16 * i + 3) ip.addrs 13 x (inl (omega arith)))
            ∙ get_word-put_word_mod (halves bp i ip) (16 * i + 2) ip.size;
        addrs = λ k lt. get_word-put_words w (16 * i + 3) ip.addrs 13 k lt;
        other_entries = λ x out. elim out [
          | inl lt ↦ words-out x (inl (omega arith)) ∙ halves-out x (inl lt)
          | inr ge ↦ words-out x (inr ge) ∙ halves-out x (inr ge)
        ];
      }

  pub OnDisk-of : (bp' : Block) → bp' ≡ put_dinode bp i ip → OnDisk bp bp' i ip
  OnDisk-of bp' e = rw e put_dinode-OnDisk

-- An entry written twice.
pub OnDisk-trans :
    (bp bp' bp'' : Block) (i : ℕ) (ip ip' : Inode)
    → OnDisk bp bp' i ip
    → OnDisk bp' bp'' i ip'
    → OnDisk bp bp'' i ip'
OnDisk-trans bp bp' bp'' i ip ip' a b = record {
  type_ = b.type_;
  major = b.major;
  minor = b.minor;
  nlink = b.nlink;
  size = b.size;
  addrs = b.addrs;
  other_entries = λ x out. b.other_entries x out ∙ a.other_entries x out;
}
