-- ===== src/Kernel/Fs/Bitmap/Laws.antt =====
-- What `balloc` and `bfree` of kernel/fs.c do to the free map.
use os_proj.Base.{
  ℕ, ◌+◌, ◌*◌, ◌/◌, ◌%◌, ◌<◌, ◌≡◌, ◌≢◌, ◌⊎◌, inl, inr, refl, ap, sym, ◌∙◌, arith, true, false,
  update_self, update_ne, Bool-cases, Option-cases, ℕ_discrete, ok, panic,
}
use os_proj.Kernel.Fs.{Disk, Superblock, bzero}
use os_proj.Kernel.Fs.Bitmap.{
  bits_per_block, bblock, is_used, mark_used, mark_free, balloc_blocks, balloc, bfree,
}
use os_proj.Kernel.Fs.Bitmap.Bits.{
  get_bit-set_bit, get_bit-set_bit_ne, get_bit-clear_bit, get_bit-clear_bit_ne,
}
use os_proj.Kernel.Fs.Bitmap.Search.{balloc_blocks-First}

module _ (sb : Superblock) (b : ℕ) (d : Disk) where
  pub mark_used_self : is_used sb (mark_used sb b d) b ≡ true
  unfolding is_used mark_used
  mark_used_self =
      let bi = b % bits_per_block in
      ground (arith, get_bit-set_bit (d (bblock b sb) (bi / 8)) (bi % 8))

  pub mark_used_ne : (x : ℕ) → x ≢ b → is_used sb (mark_used sb b d) x ≡ is_used sb d x
  unfolding is_used mark_used
  mark_used_ne x ne =
      let bi = b % bits_per_block in
      let xi = x % bits_per_block in
      elim (ℕ_discrete (bblock x sb) (bblock b sb)) [
        | no other ↦ ground arith
        | yes same ↦ elim (ℕ_discrete (xi / 8) (bi / 8)) [
          | no other ↦ ground arith
          | yes byte ↦
              let k : xi % 8 ≢ bi % 8 = omega arith in
              ground (arith, get_bit-set_bit_ne (d (bblock b sb) (bi / 8)) (bi % 8) (xi % 8) k)
        ]
      ]

  pub mark_free_self : is_used sb (mark_free sb b d) b ≡ false
  unfolding is_used mark_free
  mark_free_self =
      let bi = b % bits_per_block in
      ground (arith, get_bit-clear_bit (d (bblock b sb) (bi / 8)) (bi % 8))

  pub mark_free_ne : (x : ℕ) → x ≢ b → is_used sb (mark_free sb b d) x ≡ is_used sb d x
  unfolding is_used mark_free
  mark_free_ne x ne =
      let bi = b % bits_per_block in
      let xi = x % bits_per_block in
      elim (ℕ_discrete (bblock x sb) (bblock b sb)) [
        | no other ↦ ground arith
        | yes same ↦ elim (ℕ_discrete (xi / 8) (bi / 8)) [
          | no other ↦ ground arith
          | yes byte ↦
              let k : xi % 8 ≢ bi % 8 = omega arith in
              ground (arith, get_bit-clear_bit_ne (d (bblock b sb) (bi / 8)) (bi % 8) (xi % 8) k)
        ]
      ]

-- The map keeps block 0 and its own blocks in use.
unfoldable pub Guarded : Superblock → Disk → Type 0
Guarded sb d =
    (is_used sb d 0 ≡ true)
    × ((x b : ℕ) → x < sb.size → b < sb.size → x ≡ bblock b sb → is_used sb d x ≡ true)

-- What `balloc` does when it finds a block.
pub record Allocated (sb : Superblock) (d : Disk) (b : ℕ) (d' : Disk) : Type 0 where
  pub nonzero : b ≢ 0
  pub inside : b < sb.size
  pub was_free : is_used sb d b ≡ false
  pub first : (x : ℕ) → x < b → is_used sb d x ≡ true
  pub used : is_used sb d' b ≡ true
  pub others : (x : ℕ) → x < sb.size → x ≢ b → is_used sb d' x ≡ is_used sb d x
  pub zeroed : d' b ≡ (λ i. 0)
  pub kept : (x : ℕ) → x ≢ b → x ≢ bblock b sb → d' x ≡ d x

module _ (sb : Superblock) (d : Disk) (g : Guarded sb d) where
  bzero-used :
      (b : ℕ) (e : Disk)
      → ((x : ℕ) → x < sb.size → b ≢ bblock x sb)
      → (x : ℕ) → x < sb.size
      → is_used sb (bzero b e) x ≡ is_used sb e x
  unfolding is_used bzero
  bzero-used b e apart x lt = let ne = apart x lt in ground arith

  take_block-Allocated :
      (b : ℕ)
      → b < sb.size
      → is_used sb d b ≡ false
      → ((x : ℕ) → x < b → is_used sb d x ≡ true)
      → Allocated sb d b (bzero b (mark_used sb b d))
  unfolding Guarded bzero mark_used
  take_block-Allocated b inside free before =
      let apart : (x : ℕ) → x < sb.size → b ≢ bblock x sb =
        λ x lt e. let u = g.1 b x inside lt e in cc in
      record {
        nonzero = λ e.
            let z = g.0 in let f : is_used sb d 0 ≡ false = ap (is_used sb d) (sym e) ∙ free in cc;
        inside = inside;
        was_free = free;
        first = before;
        used = bzero-used b (mark_used sb b d) apart b inside ∙ mark_used_self sb b d;
        others = λ x lt ne. bzero-used b (mark_used sb b d) apart x lt ∙ mark_used_ne sb b d x ne;
        zeroed = update_self (mark_used sb b d) b (λ i. 0);
        kept = λ x ne other. ground (arith, update_ne (mark_used sb b d) b (λ i. 0) x ne);
      }

  -- On a free map that guards itself, `balloc` takes the first free block, marks it, clears it, and
  -- changes neither the rest of the map nor any other block but that of the map; if none is free it
  -- returns 0 and changes nothing.
  pub balloc-Allocated :
      (((x : ℕ) → x < sb.size → is_used sb d x ≡ true) × (balloc sb d ≡ (0, d)))
      ⊎ ((b : ℕ) × (d' : Disk) × (balloc sb d ≡ (b, d')) × Allocated sb d b d')
  unfolding balloc
  balloc-Allocated =
      let fuel = sb.size / bits_per_block + 1 in
      let found =
        balloc_blocks-First sb d fuel 0 (fuel * bits_per_block) (omega arith) (omega arith) in
      elim (Option-cases (balloc_blocks sb d fuel 0)) [
        | inl none_free ↦
            inl
              (λ x lt. (rw none_free at found) x (omega arith) (omega arith) lt, rw none_free refl)
        | inr (b, e) ↦
            let (lo, hi, inside, free, before) = rw e at found in
            inr (
              b,
              bzero b (mark_used sb b d),
              rw e refl,
              take_block-Allocated b inside free (λ x lt. before x (omega arith) lt),
            )
      ]

-- `bfree` of a block in use makes exactly that block free, and of a free block panics.
pub bfree-frees :
    (sb : Superblock) (b : ℕ) (d : Disk)
    → ((is_used sb d b ≡ false) × (bfree sb b d ≡ panic))
      ⊎ ((d' : Disk) × (bfree sb b d ≡ ok d')
          × (is_used sb d' b ≡ false)
          × ((x : ℕ) → x ≢ b → is_used sb d' x ≡ is_used sb d x)
          × ((x : ℕ) → x ≢ bblock b sb → d' x ≡ d x))
unfolding bfree mark_free
bfree-frees sb b d = elim (Bool-cases (is_used sb d b)) [
  | inr free ↦ inl (free, ground arith)
  | inl used ↦ inr (
    mark_free sb b d,
    ground arith,
    mark_free_self sb b d,
    mark_free_ne sb b d,
    λ x ne. ground arith,
  )
]
