-- ===== src/Kernel/Fs/Bitmap/Search.antt =====
-- The loops of `balloc` of kernel/fs.c find the first free block.
use os_proj.Base.{
  ℕ, zero, suc, ◌+◌, ◌*◌, ◌≤◌, ◌<◌, ◌≡◌, inl, inr, arith, true, false, Option, none, some, ltb,
  Bool-cases, dec_lt, cases_at,
}
use os_proj.Kernel.Fs.{Disk, Superblock}
use os_proj.Kernel.Fs.Bitmap.{bits_per_block, is_used, balloc_bits, or_later, balloc_blocks}

-- The first free block from `lo` on, below `hi`, or none.
abbrev pub First : Superblock → Disk → ℕ → ℕ → Option ℕ → Type 0
First sb d lo hi none = (x : ℕ) → lo ≤ x → x < hi → x < sb.size → is_used sb d x ≡ true
First sb d lo hi (some b) =
    (lo ≤ b)
    × (b < hi)
    × (b < sb.size)
    × (is_used sb d b ≡ false)
    × ((x : ℕ) → lo ≤ x → x < b → is_used sb d x ≡ true)

module _ (sb : Superblock) (d : Disk) where
  -- A used block before a search, and a search that found none before another.
  First-used :
      (lo hi : ℕ) (r : Option ℕ)
      → is_used sb d lo ≡ true
      → First sb d (lo + 1) hi r
      → First sb d lo hi r
  First-used lo hi none u f = λ x le lt in_size.
      cases_at (λ y. is_used sb d y ≡ true) lo x le u (λ l. f x (omega arith) lt in_size)
  First-used lo hi (some b) u (le, lt, in_size, free, before) = (
    omega arith,
    lt,
    in_size,
    free,
    λ x l k. cases_at (λ y. is_used sb d y ≡ true) lo x l u (λ q. before x (omega arith) k),
  )

  First-join :
      (lo mid hi : ℕ) (r s : Option ℕ)
      → lo ≤ mid
      → mid ≤ hi
      → First sb d lo mid r
      → First sb d mid hi s
      → First sb d lo hi (or_later r s)
  First-join lo mid hi (some b) s l m (le, lt, in_size, free, before) g =
      (le, omega arith, in_size, free, before)
  First-join lo mid hi none none l m f g = λ x le lt in_size. elim (dec_lt x mid) [
    | yes y ↦ f x le y in_size
    | no n ↦ g x (omega arith) lt in_size
  ]
  First-join lo mid hi none (some b) l m f (le, lt, in_size, free, before) = (
    omega arith,
    lt,
    in_size,
    free,
    λ x k q. elim (dec_lt x mid) [
      | yes y ↦ f x k y (omega arith)
      | no n ↦ before x (omega arith) q
    ],
  )

  balloc_bits-First : (b k bi : ℕ) → First sb d (b + bi) (b + bi + k) (balloc_bits sb d b k bi)
  unfolding balloc_bits
  balloc_bits-First b zero bi = λ x lo hi. absurd (omega arith)
  balloc_bits-First b (suc k) bi = elim (dec_lt (b + bi) sb.size) [
    | no out ↦
        let stop : ltb (b + bi) sb.size ≡ false = ground arith in
        rw stop (λ x lo hi in_size. absurd (omega arith))
    | yes inside ↦
        let goes : ltb (b + bi) sb.size ≡ true = ground arith in
        elim (Bool-cases (is_used sb d (b + bi))) [
          | inr free ↦
              rw (goes, free)
                (omega arith, omega arith, inside, free, λ x lo hi. absurd (omega arith))
          | inl used ↦
              let next : b + (bi + 1) ≡ b + bi + 1 = omega arith in
              let end : b + bi + 1 + k ≡ b + bi + suc k = omega arith in
              let rest = balloc_bits-First b k (bi + 1) in
              rw (goes, used)
                (First-used (b + bi) (b + bi + suc k) (balloc_bits sb d b k (bi + 1)) used
                  (rw (next, end) at rest))
        ]
  ]

  -- The rounds of the outer loop; the last map block may go on past the size.
  pub balloc_blocks-First :
      (fuel b hi : ℕ)
      → sb.size ≤ b + fuel * bits_per_block
      → b + fuel * bits_per_block ≡ hi
      → First sb d b hi (balloc_blocks sb d fuel b)
  unfolding balloc_blocks
  balloc_blocks-First zero b hi enough e = λ x lo lt. absurd (omega arith)
  balloc_blocks-First (suc fuel) b hi enough e = elim (dec_lt b sb.size) [
    | no out ↦
        let stop : ltb b sb.size ≡ false = ground arith in
        rw stop (λ x lo lt in_size. absurd (omega arith))
    | yes inside ↦
        let goes : ltb b sb.size ≡ true = ground arith in
        let rest = balloc_blocks-First fuel (b + bits_per_block) hi (omega arith) (omega arith) in
        let same : b + 0 ≡ b = omega arith in
        let block = balloc_bits-First b bits_per_block 0 in
        rw goes (
          First-join b (b + bits_per_block) hi (balloc_bits sb d b bits_per_block 0)
            (balloc_blocks sb d fuel (b + bits_per_block)) (omega arith) (omega arith)
            (rw same at block) rest)
  ]
