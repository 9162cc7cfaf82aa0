-- ===== src/Kernel/Fs/Trunc/Freed.antt =====
-- The loops of `itrunc` of kernel/fs.c free a sequence of blocks.
use os_proj.Base.{
  ℕ, zero, suc, ◌+◌, ◌≤◌, ◌<◌, ◌≡◌, ◌≢◌, ◌⊎◌, inl, inr, refl, ap, sym, ◌∙◌, arith, true, false,
  ◌==◌, ℕ_discrete, Res, ok, panic, ◌>>=◌,
}
use os_proj.Kernel.Fs.{Disk, Superblock}
use os_proj.Kernel.Fs.Bitmap.{bblock, is_used}
use os_proj.Kernel.Fs.Bitmap.Laws.{bfree-frees}
use os_proj.Kernel.Fs.Trunc.{free_one, free_blocks}

-- A block that is one of the sequence.
abbrev pub Among : (ℕ → ℕ) → ℕ → ℕ → ℕ → Type 0
Among a lo hi x = (x ≢ 0) × (j : ℕ) × (lo ≤ j) × (j < hi) × (a j ≡ x)

-- The blocks of the sequence are in use, and all different.
pub record InUse (sb : Superblock) (a : ℕ → ℕ) (lo hi : ℕ) (d : Disk) : Type 0 where
  pub inside : (j : ℕ) → lo ≤ j → j < hi → a j ≢ 0 → a j < sb.size
  pub used : (j : ℕ) → lo ≤ j → j < hi → a j ≢ 0 → is_used sb d (a j) ≡ true
  pub distinct : (j j' : ℕ) → lo ≤ j → j < hi → lo ≤ j' → j' < hi → a j ≢ 0 → a j ≡ a j' → j ≡ j'

pub record Freed (sb : Superblock) (a : ℕ → ℕ) (lo hi : ℕ) (d d' : Disk) : Type 0 where
  pub gone : (x : ℕ) → Among a lo hi x → is_used sb d' x ≡ false
  pub others : (x : ℕ) → ¬ Among a lo hi x → is_used sb d' x ≡ is_used sb d x
  pub kept : (x : ℕ) → ((b : ℕ) → b < sb.size → x ≢ bblock b sb) → d' x ≡ d x

module _ (sb : Superblock) (a : ℕ → ℕ) where
  one_freed :
      (i hi : ℕ) (d : Disk)
      → i < hi
      → InUse sb a i hi d
      → (d' : Disk) × (free_one sb (a i) d ≡ ok d')
        × (a i ≢ 0 → is_used sb d' (a i) ≡ false)
        × ((x : ℕ) → (x ≢ 0 → x ≢ a i) → is_used sb d' x ≡ is_used sb d x)
        × ((x : ℕ) → ((b : ℕ) → b < sb.size → x ≢ bblock b sb) → d' x ≡ d x)
  unfolding free_one
  one_freed i hi d lt u = elim (ℕ_discrete (a i) 0) [
    | yes z ↦
        let b : (a i == 0) ≡ true = ground arith in
        (d, rw b refl, λ ne. absurd (ne z), λ x ne. refl, λ x ne. refl)
    | no ne ↦
        let b : (a i == 0) ≡ false = ground arith in
        elim (bfree-frees sb (a i) d) [
          | inl (free, e) ↦ let used = u.used i (omega arith) lt ne in absurd cc
          | inr (d', e, free, others, kept) ↦ (
            d',
            rw b e,
            λ _. free,
            λ x apart. elim (ℕ_discrete x 0) [
              | yes z ↦ others x (λ q. ne (sym q ∙ z))
              | no n ↦ others x (apart n)
            ],
            λ x apart. kept x (apart (a i) (u.inside i (omega arith) lt ne)),
          )
        ]
  ]

  pub free_blocks-Freed :
      (k i hi : ℕ) (d : Disk)
      → i + k ≡ hi
      → InUse sb a i hi d
      → (d' : Disk) × (free_blocks sb a k i d ≡ ok d') × Freed sb a i hi d d'
  unfolding free_blocks
  free_blocks-Freed zero i hi d e u = (
    d,
    refl,
    record {
      gone = λ x (ne, j, lo, lt, q). absurd (omega arith);
      others = λ x out. refl;
      kept = λ x apart. refl;
    },
  )
  free_blocks-Freed (suc k) i hi d e u =
      let (d', e', free, others, kept) = one_freed i hi d (omega arith) u in
      let rest : InUse sb a (i + 1) hi d' = record {
        inside = λ j lo lt ne. u.inside j (omega arith) lt ne;
        used = λ j lo lt ne.
            others (a j) (λ _ q.
              let s = u.distinct j i (omega arith) lt (omega arith) (omega arith) ne q in
              omega arith)
            ∙ u.used j (omega arith) lt ne;
        distinct =
            λ j j' lo lt lo' lt' ne q. u.distinct j j' (omega arith) lt (omega arith) lt' ne q;
      } in
      let (d'', e'', r) = free_blocks-Freed k (i + 1) hi d' (omega arith) rest in
      (
        d'',
        rw e' e'',
        record {
          gone = λ x (ne, j, lo, lt, q). elim (ℕ_discrete j i) [
            | yes s ↦
                let here : a i ≡ x = ap a (sym s) ∙ q in
                r.others x (λ (ne', j', lo', lt', q').
                  let t =
                    u.distinct j' i (omega arith) lt' (omega arith) (omega arith)
                      (λ z. ne (sym q' ∙ z)) (q' ∙ sym here) in
                  omega arith)
                ∙ ap (is_used sb d') (sym here)
                ∙ free (λ z. ne (sym here ∙ z))
            | no s ↦ r.gone x (ne, j, omega arith, lt, q)
          ];
          others = λ x out.
              r.others x (λ (ne, j, lo, lt, q). out (ne, j, omega arith, lt, q))
              ∙ others x (λ ne q. out (ne, i, omega arith, omega arith, sym q));
          kept = λ x apart. r.kept x apart ∙ kept x apart;
        },
      )

pub panic_ok : (d : Disk) → panic ≢ ok d
panic_ok d e = ground arith

pub Res-cases : (r : Res Disk) → (r ≡ panic) ⊎ ((d : Disk) × (r ≡ ok d))
Res-cases panic = inl refl
Res-cases (ok d) = inr (d, refl)

pub free_cong :
    (sb : Superblock) (a b : ℕ → ℕ) (k i i' : ℕ) (d : Disk)
    → ((j : ℕ) → j < k → a (i + j) ≡ b (i' + j))
    → free_blocks sb a k i d ≡ free_blocks sb b k i' d
unfolding free_blocks
free_cong sb a b zero i i' d same = refl
free_cong sb a b (suc k) i i' d same =
    let z : i + 0 ≡ i = omega arith in
    let z' : i' + 0 ≡ i' = omega arith in
    let here : a i ≡ b i' = rw (z, z') at (same 0 (omega arith)) in
    elim (Res-cases (free_one sb (b i') d)) [
      | inl e ↦ rw (here, e) refl
      | inr (d', e) ↦
          rw (here, e)
            (free_cong sb a b k (i + 1) (i' + 1) d' (λ j lt.
              let n : i + 1 + j ≡ i + (j + 1) = omega arith in
              let n' : i' + 1 + j ≡ i' + (j + 1) = omega arith in
              rw (n, n') (same (j + 1) (omega arith))))
    ]

-- What frees a sequence frees its start and then the rest.
pub free_blocks_split :
    (sb : Superblock) (a : ℕ → ℕ) (k m i : ℕ) (d d' : Disk)
    → free_blocks sb a (k + m) i d ≡ ok d'
    → (e : Disk) × (free_blocks sb a k i d ≡ ok e) × (free_blocks sb a m (i + k) e ≡ ok d')
unfolding free_blocks
free_blocks_split sb a zero m i d d' h =
    let z : 0 + m ≡ m = omega arith in
    let z' : i + 0 ≡ i = omega arith in (d, refl, rw z' (rw z at h))
free_blocks_split sb a (suc k) m i d d' h =
    let n : suc k + m ≡ suc (k + m) = omega arith in
    let whole : (free_one sb (a i) d >>= (λ x. free_blocks sb a (k + m) (i + 1) x)) ≡ ok d' =
      rw n at h in
    elim (Res-cases (free_one sb (a i) d)) [
      | inl e ↦ absurd (panic_ok d' (rw e at whole))
      | inr (d1, e) ↦
          let n' : i + 1 + k ≡ i + suc k = omega arith in
          let h' : free_blocks sb a (k + m) (i + 1) d1 ≡ ok d' = rw e at whole in
          let (f, l, r) = free_blocks_split sb a k m (i + 1) d1 d' h' in (f, rw e l, rw n' at r)
    ]

pub free_blocks_zero :
    (sb : Superblock) (a : ℕ → ℕ) (k i : ℕ) (d : Disk)
    → ((j : ℕ) → i ≤ j → j < i + k → a j ≡ 0)
    → free_blocks sb a k i d ≡ ok d
unfolding free_blocks free_one
free_blocks_zero sb a zero i d z = refl
free_blocks_zero sb a (suc k) i d z =
    rw (z i (omega arith) (omega arith))
      (free_blocks_zero sb a k (i + 1) d (λ j lo lt. z j (omega arith) (omega arith)))
