-- ===== src/Kernel/Log/Recovery.antt =====
-- `recover_from_log` of kernel/log.c, from a disk whose header is empty and from one that holds a
-- committed transaction.
use os_proj.Base.{
  ℕ, zero, suc, ◌+◌, ◌≤◌, ◌<◌, ◌≡◌, ◌≢◌, ◌⊎◌, inl, inr, true, arith, dec_lt, ◌∙◌, ℕ_discrete,
}
use os_proj.Kernel.Log.{
  Block, Store, Header, Log, bwrite, install_trans, install_loop, write_head, read_head,
  recover_from_log, clear_n,
}
use os_proj.Kernel.Log.Loops.{copy_words_lem, install-Outside, install-home, write_head-other}

-- A place is the home of one of the first `n` blocks, or of none.
pub home-cases :
    (block : ℕ → ℕ) (n a : ℕ)
    → ((i : ℕ) × (i < n) × (block i ≡ a)) ⊎ ((i : ℕ) → i < n → block i ≢ a)
home-cases block zero a = inr (λ i h. absurd (omega arith))
home-cases block (suc n) a = elim (ℕ_discrete (block n) a) [
  | yes e ↦ inl (n, omega arith, e)
  | no ne ↦ elim (home-cases block n a) [
    | inl (i, h, e) ↦ inl (i, omega arith, e)
    | inr out ↦ inr (λ i h. elim (dec_lt i n) [
      | yes lt ↦ out i lt
      | no ge ↦ let e : i ≡ n = omega arith in rw e ne
    ])
  ]
]

-- The header block says that `h` is committed, and the slots hold `new` of the homes.
pub record Committed (start : ℕ) (h : Header) (new : ℕ → Block) (mem : ℕ → Block) : Type 0 where
  pub count : mem start 0 ≡ h.n
  pub blocks : (i : ℕ) → i < h.n → mem start (suc i) ≡ h.block i
  pub slots : (i : ℕ) → i < h.n → mem (start + i + 1) ≡ new (h.block i)
  pub apart : (i a : ℕ) → i < h.n → start ≤ a → a ≤ start + h.n → h.block i ≢ a

module _ (l : Log) (s : Store) where
  abbrev pub l' : Log
  l' = read_head l s

  -- An empty header: every block but the header stays.
  pub recover-empty :
      s.mem l.start 0 ≡ 0 → (a : ℕ) → a ≢ l.start → (recover_from_log l s).1.disk a ≡ s.disk a
  unfolding recover_from_log read_head install_trans install_loop write_head bwrite
  recover-empty e a ne = rw (e, install_loop) (ground arith)

  module _ {h : Header} {new : ℕ → Block} (c : Committed l.start h new s.mem) where
    open c use {count, blocks, slots, apart}

    pub block-read : (i : ℕ) → i < h.n → l'.lh.block i ≡ h.block i
    unfolding read_head
    block-read i lt = ground (
      arith,
      count,
      blocks i,
      copy_words_lem (s.mem l.start 0) 0 (λ i. s.mem l.start (suc i)) l.lh.block i,
    )

    -- A committed transaction: every block that it does not name stays.
    pub recover-outside :
        (a : ℕ)
        → a ≢ l.start
        → ((i : ℕ) → i < h.n → h.block i ≢ a)
        → (recover_from_log l s).1.disk a ≡ s.disk a
    unfolding recover_from_log read_head install_trans
    recover-outside a ne out =
        write_head-other (clear_n l') (install_trans true l' s) a ne
        ∙ (install-Outside true l.start l'.lh.block l'.lh.n 0 s a (λ i _ lt.
            let lt' : i < h.n = omega (arith, count) in rw (block-read i lt') (out i lt'))).1

    -- A committed transaction: every block that it names gets the value in the log.
    pub recover-home :
        (i : ℕ)
        → i < h.n
        → h.n ≤ s.power
        → (recover_from_log l s).1.disk (h.block i) ≡ new (h.block i)
    unfolding recover_from_log read_head install_trans
    recover-home i lt p =
        write_head-other (clear_n l') (install_trans true l' s) (h.block i)
          (apart i l.start lt (omega arith) (omega arith))
        ∙ (rw (block-read i lt) at (
            install-home true l.start l'.lh.block new h.n
              (λ j a lt' h1 h2. rw (block-read j lt') (apart j a lt' (omega arith) h2)) l'.lh.n 0 s
              i (omega (arith, count)) (omega (arith, count)) (omega arith) (omega (arith, count))
              (λ j _ lt'.
                let lt'' : j < h.n = omega (arith, count) in
                rw (block-read j lt'') (slots j lt''))))
