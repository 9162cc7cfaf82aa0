-- ===== src/Kernel/Bio/Cache.antt =====
-- `bget` of kernel/bio.c never keeps two copies of a block.
use os_proj.Base.{
  ℕ, ◌≡◌, ◌≢◌, ap, sym, arith, Bool, true, false, ◌||◌, none, some, List, [], ◌∷◌, ◌==◌, ok,
  Option-cases, Bool-cases, inl, inr, ℕ_discrete, ◌∙◌,
}
use os_proj.Kernel.Bio.{
  Bcache, find_buf, holds_block, is_free, reverse, take_cached, recycle, bget_with, bget,
}

abbrev pub member : List ℕ → ℕ → Bool
member [] a = false
member (x ∷ xs) a = x == a || member xs a

-- No two buffers of the list hold the same block of a device; device 0 is what fresh buffers name.
abbrev pub Single : Bcache → Type 0
Single c =
    (i j : ℕ)
    → member c.order i ≡ true
    → member c.order j ≡ true
    → (c.buf i).dev ≢ 0
    → (c.buf i).dev ≡ (c.buf j).dev
    → (c.buf i).blockno ≡ (c.buf j).blockno
    → i ≡ j

find_buf-none :
    (test : ℕ → Bool) (bs : List ℕ)
    → find_buf test bs ≡ none
    → (a : ℕ) → member bs a ≡ true
    → test a ≡ false
unfolding find_buf
find_buf-none test [] e a m = ground arith
find_buf-none test (b ∷ bs) e a m = elim (Bool-cases (test b)) [
  | inl y ↦ ground arith
  | inr n ↦ elim (ℕ_discrete b a) [
    | yes same ↦ ap test (sym same) ∙ n
    | no other ↦ find_buf-none test bs (ground arith) a (ground arith)
  ]
]

find_buf-some : (test : ℕ → Bool) (bs : List ℕ) (b : ℕ) → find_buf test bs ≡ some b → test b ≡ true
unfolding find_buf
find_buf-some test [] b e = ground arith
find_buf-some test (x ∷ bs) b e = elim (Bool-cases (test x)) [
  | inl y ↦ let same : b ≡ x = ground arith in ap test same ∙ y
  | inr n ↦ find_buf-some test bs b (ground arith)
]

-- The count of users does not matter.
take_cached-Single : (x : ℕ) (c : Bcache) → Single c → Single (take_cached x c)
take_cached-Single x c single i j mi mj real de be =
    single i j mi mj (ground arith) (ground arith) (ground arith)

recycle-Single :
    (dev blockno x : ℕ) (c : Bcache)
    → Single c
    → ((a : ℕ) → member c.order a ≡ true → holds_block c.buf dev blockno a ≡ false)
    → Single (recycle dev blockno x c)
recycle-Single dev blockno x c single none_holds i j mi mj real de be = elim (ℕ_discrete i x) [
  | yes ix ↦ elim (ℕ_discrete j x) [
    | yes jx ↦ ix ∙ sym jx
    | no jx ↦ ground (arith, none_holds j mj)
  ]
  | no ix ↦ elim (ℕ_discrete j x) [
    | yes jx ↦ ground (arith, none_holds i mi)
    | no jx ↦ single i j mi mj (ground arith) (ground arith) (ground arith)
  ]
]

-- A `bget` that returns hands out a buffer that names the block asked for, and keeps the cache
-- free of second copies.
pub bget-Single :
    (dev blockno b : ℕ) (c c' : Bcache)
    → Single c
    → bget dev blockno c ≡ ok (b, c')
    → ((c'.buf b).dev ≡ dev) × ((c'.buf b).blockno ≡ blockno) × Single c'
unfolding bget bget_with
bget-Single dev blockno b c c' single e =
    elim (Option-cases (find_buf (holds_block c.buf dev blockno) c.order)) [
      | inl missing ↦ elim (Option-cases (find_buf (is_free c.buf) (reverse c.order))) [
        | inl full ↦ ground arith
        | inr (x, spare) ↦
            let same : b ≡ x = ground arith in
            let after : c' ≡ recycle dev blockno x c = ground arith in
            let none_holds = find_buf-none (holds_block c.buf dev blockno) c.order missing in
            rw (same, after)
              (ground arith, ground arith, recycle-Single dev blockno x c single none_holds)
      ]
      | inr (x, cached) ↦
          let same : b ≡ x = ground arith in
          let after : c' ≡ take_cached x c = ground arith in
          let hit = find_buf-some (holds_block c.buf dev blockno) c.order x cached in
          rw (same, after) (ground arith, ground arith, take_cached-Single x c single)
    ]
