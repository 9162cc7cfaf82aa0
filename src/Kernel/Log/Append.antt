-- ===== src/Kernel/Log/Append.antt =====
-- What `log_write`, `begin_op` and `end_op` of kernel/log.c do to the blocks that the log names.
use os_proj.Base.{
  ℕ, zero, suc, ◌+◌, ◌-◌, ◌*◌, ◌≤◌, ◌<◌, ◌≡◌, ◌≢◌, ◌⊎◌, inl, inr, true, false, arith, update,
  dec_lt, fun_ext, ℕ_discrete, some, ok, panic,
}
use os_proj.Kernel.Log.{
  Store, Header, Log, bpin, begin_op, end_op, end_op_start, log_write, find_block, commit,
  maxopblocks, logsize,
}

-- The search of `log_write` stops at the first index that holds the block, or at the end.
pub find_block_lem :
    (block : ℕ → ℕ) (b k i : ℕ)
    → ((find_block block b k i ≡ i + k) × ((j : ℕ) → i ≤ j → j < i + k → block j ≢ b))
      ⊎ ((i ≤ find_block block b k i)
          × (find_block block b k i < i + k)
          × (block (find_block block b k i) ≡ b))
unfolding find_block
find_block_lem block b zero i = inl (omega arith, λ j h h'. absurd (omega arith))
find_block_lem block b (suc k) i = elim (ℕ_discrete (block i) b) [
  | yes e ↦ inr (ground arith, ground arith, ground arith)
  | no ne ↦ elim (find_block_lem block b k (i + 1)) [
    | inl (e, out) ↦ inl (
      ground arith,
      λ j h h'. elim (dec_lt i j) [
        | yes lt ↦ out j (omega arith) (omega arith)
        | no ge ↦ let same : j ≡ i = omega arith in rw same ne
      ],
    )
    | inr (lo, hi, e) ↦ inr (ground arith, ground arith, ground arith)
  ]
]

abbrev pub Distinct : Header → Type 0
Distinct h = (i j : ℕ) → i < h.n → j < h.n → h.block i ≡ h.block j → i ≡ j

pub update-same : (f : ℕ → ℕ) (i b : ℕ) → f i ≡ b → update f i b ≡ f
update-same f i b e = fun_ext (λ j. ground arith)

-- A `log_write` that returns adds a block that is new to the log, or changes nothing.
abbrev pub Written : ℕ → Log → Log → Type 0
Written b l l' =
    ((l' ≡ record l { lh = record { n = l.lh.n + 1; block = update l.lh.block l.lh.n b } })
      × ((j : ℕ) → j < l.lh.n → l.lh.block j ≢ b))
    ⊎ (l' ≡ l)

module _ (b : ℕ) (l : Log) (s : Store) where
  pub log_write-Written : {l' : Log} {t : Store} → log_write b l s ≡ ok (l', t) → Written b l l'
  unfolding log_write bpin
  log_write-Written h = elim (find_block_lem l.lh.block b l.lh.n 0) [
    | inl (e, out) ↦ inl (ground arith, λ j lt. out j (omega arith) (omega arith))
    | inr (lo, hi, e) ↦
        let at = find_block l.lh.block b l.lh.n 0 in
        inr (ground (arith, update-same l.lh.block at b e))
  ]

  pub log_write-ne-panic :
      l.lh.n < logsize → l.lh.n + 1 < l.size → 0 < l.outstanding → log_write b l s ≢ panic
  unfolding log_write
  log_write-ne-panic h h' h'' = ground arith

pub Written-Distinct : {l l' : Log} (b : ℕ) → Written b l l' → Distinct l.lh → Distinct l'.lh
Written-Distinct b (inl (e, out)) d i j hi hj q = ground (arith, d i j, out i, out j)
Written-Distinct b (inr e) d i j hi hj q = d i j (rw e at hi) (rw e at hj) (rw e at q)

-- A block that the log names already changes nothing of it.
pub Written-again : {l l' : Log} (b i : ℕ) → i < l.lh.n → l.lh.block i ≡ b → Written b l l' → l' ≡ l
Written-again b i lt named (inl (e, out)) = absurd (out i lt named)
Written-again b i lt named (inr e) = e

pub Written-log :
    {l l' : Log} (b : ℕ)
    → Written b l l'
    → (l'.size ≡ l.size)
      × (l'.outstanding ≡ l.outstanding)
      × (l'.committing ≡ l.committing)
      × (l'.lh.n ≤ l.lh.n + 1)
Written-log b w = (ground arith, ground arith, ground arith, ground arith)

pub commit-keeps :
    (l : Log) (s : Store)
    → ((commit l s).0.lh.n ≡ 0)
      × ((commit l s).0.size ≡ l.size)
      × ((commit l s).0.outstanding ≡ l.outstanding)
unfolding commit
commit-keeps l s = (ground arith, ground arith, ground arith)

-- What an `end_op` with `n` running operations does to the log.
pub record Ended (l l' : Log) : Type 0 where
  pub size : l'.size ≡ l.size
  pub running : l'.outstanding ≡ l.outstanding - 1
  pub idle : l'.committing ≡ false
  pub kept : (l'.lh ≡ l.lh) ⊎ (l'.lh.n ≡ 0)

pub end_op-Ended :
    (l : Log) (s : Store) {l' : Log} {t : Store} → end_op l s ≡ ok (l', t) → Ended l l'
unfolding end_op end_op_start
end_op-Ended l s h =
    let l₁ = record l { outstanding = l.outstanding - 1; committing = true } in
    record {
      size = ground (arith, commit-keeps l₁ s);
      running = ground (arith, commit-keeps l₁ s);
      idle = ground (arith, commit-keeps l₁ s);
      kept = elim (ℕ_discrete l.outstanding 1) [
        | yes last ↦ inr (ground (arith, commit-keeps l₁ s))
        | no more ↦ inl (ground arith)
      ];
    }

pub begin_op-lem :
    (l : Log) {l' : Log}
    → begin_op l ≡ some l'
    → (l' ≡ record l { outstanding = l.outstanding + 1 })
      × (l.lh.n + (l.outstanding + 1) * maxopblocks ≤ logsize)
      × (l.committing ≡ false)
unfolding begin_op
begin_op-lem l h = (ground arith, ground arith, ground arith)
