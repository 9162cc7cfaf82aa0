-- ===== src/Kernel/Log/Crash.antt =====
-- Crashes of `commit` and of the recovery of kernel/log.c at any disk write.
use os_proj.Base.{
  ℕ, suc, ◌+◌, ◌-◌, ◌≤◌, ◌<◌, ◌≡◌, sym, ap, ◌≢◌, ◌⊎◌, inl, inr, false, arith, ltb, if◌then◌else◌,
  dec_lt, ◌∙◌,
}
use os_proj.Kernel.Log.{
  Block, Store, Log, reboot, install_trans, words_of, write_head, write_log, initlog, commit,
  clear_n,
}
use os_proj.Kernel.Log.Loops.{
  write_log-power, write_log-outside, write_log-disk, write_log-mem, install-power, install-Outside,
  install-home, install-no_power, Outside, Filled, write_head-power, write_head-mem,
  write_head-other, write_head-no_power, write_head_self, words_of-count, words_of-block,
}
use os_proj.Kernel.Log.Recovery.{
  home-cases, Committed, recover-empty, recover-outside, recover-home,
}

-- A block outside the header and the slots that the transaction uses.
abbrev pub Home : Log → ℕ → Type 0
Home l a = (a < l.start) ⊎ (l.start + l.lh.n < a)

-- The state in which `commit` is called: no transaction is committed on the disk, the logged blocks
-- lie outside the log, and memory and disk agree on every block that is not logged.
pub record Ready (l : Log) (s : Store) : Type 0 where
  pub cleared : s.disk l.start 0 ≡ 0
  pub apart : (i a : ℕ) → i < l.lh.n → l.start ≤ a → a ≤ l.start + l.lh.n → l.lh.block i ≢ a
  pub synced : (a : ℕ) → Home l a → ((i : ℕ) → i < l.lh.n → l.lh.block i ≢ a) → s.mem a ≡ s.disk a

abbrev pub initial_log : Log → Log
initial_log l = record {
  start = l.start;
  size = l.size;
  outstanding = 0;
  committing = false;
  lh = record { n = 0; block = λ _. 0 };
}

-- The disk after power failed and the machine was started again.
abbrev pub recovered : Log → ℕ → Store → ℕ → Block
unfolding initlog
recovered l p s = (initlog l.start l.size (reboot p s)).1.disk

module _ (l : Log) (s : Store) (r : Ready l s) where
  abbrev n : ℕ
  n = l.lh.n

  abbrev s₁ : Store
  s₁ = write_log l s

  abbrev s₂ : Store
  s₂ = write_head l s₁

  abbrev s₃ : Store
  s₃ = install_trans false l s₂

  abbrev s₄ : Store
  s₄ = write_head (clear_n l) s₃

  slots_apart : (i a : ℕ) → i < n → l.start < a → a ≤ l.start + n → l.lh.block i ≢ a
  slots_apart i a lt h h' = r.apart i a lt (omega arith) h'

  s₁-power : s₁.power ≡ s.power - n
  unfolding write_log
  s₁-power = write_log-power l.start l.lh.block n 0 s

  s₁-home : (a : ℕ) → (a ≤ l.start) ⊎ (l.start + n < a) → s₁.disk a ≡ s.disk a
  unfolding write_log
  s₁-home a h = (write_log-outside l.start l.lh.block n 0 s a (omega arith)).1

  s₁-slot : (i : ℕ) → i < n → n ≤ s.power → s₁.disk (l.start + i + 1) ≡ s.mem (l.lh.block i)
  unfolding write_log
  s₁-slot i h p =
      write_log-disk l.start l.lh.block slots_apart n 0 s i (omega arith) (omega arith)
        (omega arith) p

  s₂-power : s₂.power ≡ s.power - n - 1
  s₂-power = omega (arith, s₁-power, write_head-power l s₁)

  s₃-power : s₃.power ≡ s.power - n - 1 - n
  unfolding install_trans
  s₃-power = omega (arith, s₂-power, install-power false l.start l.lh.block n 0 s₂)

  -- The machine stops before the header is written: the disk keeps every block that is no slot.
  early : s.power ≤ n → (a : ℕ) → (a ≤ l.start) ⊎ (l.start + n < a) → s₄.disk a ≡ s.disk a
  unfolding install_trans
  early p a h =
      ap (λ (d : ℕ → Block). d a) (write_head-no_power (clear_n l) s₃ (omega (arith, s₃-power)))
      ∙ ap (λ (d : ℕ → Block). d a)
          (install-no_power false l.start l.lh.block n 0 s₂ (omega (arith, s₂-power)))
      ∙ ap (λ (d : ℕ → Block). d a) (write_head-no_power l s₁ (omega (arith, s₁-power)))
      ∙ s₁-home a h

  -- The header is written: from here on the disk holds the whole transaction.
  module _ (p : n < s.power) where
    s₂-slot : (i : ℕ) → i < n → s₂.disk (l.start + i + 1) ≡ s.mem (l.lh.block i)
    s₂-slot i h = write_head-other l s₁ (l.start + i + 1) (omega arith) ∙ s₁-slot i h (omega arith)

    s₂-Filled : Filled false l.start l.lh.block s.mem n slots_apart n 0 s₂
    unfolding write_log
    s₂-Filled i h h' =
        write_head-mem l s₁ (l.start + i + 1) (omega arith)
        ∙ write_log-mem l.start l.lh.block slots_apart n 0 s i h h' (omega arith)

    s₃-kept : (a : ℕ) → Outside false l.start l.lh.block n 0 a → s₃.disk a ≡ s₂.disk a
    unfolding install_trans
    s₃-kept a out = (install-Outside false l.start l.lh.block n 0 s₂ a out).1

    s₃-area : (a : ℕ) → l.start ≤ a → a ≤ l.start + n → s₃.disk a ≡ s₂.disk a
    s₃-area a h h' = s₃-kept a (λ i _ lt. r.apart i a (omega arith) h h')

    s₃-Committed : Committed l.start l.lh s.mem s₃.disk
    s₃-Committed = record {
      count = ap (λ (b : Block). b 0) head ∙ words_of-count l _;
      blocks = λ i lt. ap (λ (b : Block). b (suc i)) head ∙ words_of-block l _ i lt;
      slots = λ i lt. s₃-area (l.start + i + 1) (omega arith) (omega arith) ∙ s₂-slot i lt;
      apart = r.apart;
    }
      where
        head : s₃.disk l.start ≡ words_of l.lh (s₁.mem l.start)
        head =
            s₃-area l.start (omega arith) (omega arith)
            ∙ write_head_self l s₁ (omega (arith, s₁-power))

    -- A block that the transaction does not name is the same in memory and on the disk.
    s₃-other : (a : ℕ) → Home l a → ((i : ℕ) → i < n → l.lh.block i ≢ a) → s₃.disk a ≡ s.mem a
    s₃-other a h out =
        s₃-kept a (λ i _ lt. out i (omega arith))
        ∙ write_head-other l s₁ a (omega arith)
        ∙ s₁-home a (omega arith)
        ∙ sym (r.synced a h out)

    s₃-Home : 0 < s₃.power → (a : ℕ) → Home l a → s₃.disk a ≡ s.mem a
    unfolding install_trans
    s₃-Home q a h = elim (home-cases l.lh.block n a) [
      | inl (i, lt, e) ↦ rw (← e) (
          install-home false l.start l.lh.block s.mem n slots_apart n 0 s₂ i (omega arith)
            (omega (arith, s₃-power, s₂-power)) (omega arith) (omega arith) s₂-Filled)
      | inr out ↦ s₃-other a h out
    ]

    late : (q : ℕ) → n ≤ q → (a : ℕ) → Home l a → recovered l q s₄ a ≡ s.mem a
    unfolding initlog reboot
    late q enough a h = elim (dec_lt 0 s₃.power) [
      | yes left ↦
          recover-empty (initial_log l) (reboot q s₄)
            (ap (λ (b : Block). b 0) (write_head_self (clear_n l) s₃ left)
              ∙ words_of-count (clear_n l) (s₃.mem l.start))
            a (omega arith)
          ∙ write_head-other (clear_n l) s₃ a (omega arith)
          ∙ s₃-Home left a h
      | no dead ↦
          let same : s₄.disk ≡ s₃.disk = write_head-no_power (clear_n l) s₃ (omega arith) in
          let c : Committed l.start l.lh s.mem (reboot q s₄).mem = rw same s₃-Committed in
          elim (home-cases l.lh.block n a) [
            | inl (i, lt, e) ↦ rw (← e) (recover-home (initial_log l) (reboot q s₄) c i lt enough)
            | inr out ↦
                recover-outside (initial_log l) (reboot q s₄) c a (omega arith) out
                ∙ ap (λ (d : ℕ → Block). d a) same
                ∙ s₃-other a h out
          ]
    ]

-- Power fails at any point of `commit`, after `s.power` disk writes, and the machine is started
-- again with power for `q` writes, enough for the recovery. Then every block outside the log
-- holds what memory held if the writes included the header, and what the disk held if they did
-- not: the transaction happens as a whole or not at all.
pub commit_atomic :
    (l : Log) (s : Store)
    → Ready l s
    → (q : ℕ) → l.lh.n ≤ q
    → (a : ℕ) → Home l a
    → recovered l q (commit l s).1 a ≡ (if ltb l.lh.n s.power then s.mem a else s.disk a)
unfolding commit initlog reboot
commit_atomic l s r q enough a h = elim (dec_lt 0 l.lh.n) [
  | yes some_logged ↦ elim (dec_lt l.lh.n s.power) [
    | yes p ↦ ground (arith, late l s r p q enough a h)
    | no np ↦ ground (
      arith,
      recover-empty (initial_log l) (reboot q (s₄ l s r))
          (ap (λ (b : Block). b 0) (early l s r (omega arith) l.start (omega arith)) ∙ r.cleared) a
          (omega arith),
      early l s r (omega arith) a (omega arith),
    )
  ]
  | no none_logged ↦ ground (
    arith,
    recover-empty (initial_log l) (reboot q s) r.cleared a (omega arith),
    r.synced a h (λ i lt. absurd (omega arith)),
  )
]
