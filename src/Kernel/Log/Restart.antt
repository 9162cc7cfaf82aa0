-- ===== src/Kernel/Log/Restart.antt =====
-- The recovery of kernel/log.c, stopped at any disk write and run again.
use os_proj.Base.{
  ℕ, suc, ◌+◌, ◌-◌, ◌≤◌, ◌<◌, ◌≡◌, sym, ap, ◌≢◌, ◌⊎◌, inl, inr, true, arith, dec_lt, ◌∙◌,
}
use os_proj.Kernel.Log.{
  Block, Store, Header, Log, reboot, install_trans, write_head, initlog, clear_n, read_head,
}
use os_proj.Kernel.Log.Loops.{
  install-power, install-Outside, install-home, write_head-other, write_head-no_power,
  write_head_self, words_of-count,
}
use os_proj.Kernel.Log.Recovery.{
  home-cases, Committed, recover-empty, recover-outside, recover-home, block-read,
}
use os_proj.Kernel.Log.Crash.{recovered, initial_log}

module _ (l : Log) {h : Header} {new : ℕ → Block} (s : Store) (p : ℕ)
    (c : Committed l.start h new s.disk) where
  -- The first recovery, with power for `p` writes.
  abbrev t₀ : Store
  t₀ = reboot p s

  abbrev m : Log
  m = read_head (initial_log l) t₀

  abbrev t₁ : Store
  t₁ = install_trans true m t₀

  abbrev t₂ : Store
  t₂ = write_head (clear_n m) t₁

  c₀ : Committed l.start h new t₀.mem
  unfolding reboot
  c₀ = c

  m-n : m.lh.n ≡ h.n
  unfolding read_head reboot
  m-n = c.count

  m-block : (i : ℕ) → i < h.n → m.lh.block i ≡ h.block i
  unfolding read_head
  m-block = block-read (initial_log l) t₀ c₀

  t₁-power : t₁.power ≡ p - h.n
  unfolding install_trans reboot read_head
  t₁-power = omega (arith, m-n, install-power true l.start m.lh.block m.lh.n 0 t₀)

  t₁-other : (a : ℕ) → ((i : ℕ) → i < h.n → h.block i ≢ a) → t₁.disk a ≡ s.disk a
  unfolding install_trans reboot read_head
  t₁-other a out =
      (install-Outside true l.start m.lh.block m.lh.n 0 t₀ a
        (λ i _ lt. let lt' : i < h.n = omega (arith, m-n) in rw (m-block i lt') (out i lt'))).1

  t₁-area : (a : ℕ) → l.start ≤ a → a ≤ l.start + h.n → t₁.disk a ≡ s.disk a
  t₁-area a le ge = t₁-other a (λ i lt. c.apart i a lt le ge)

  t₁-Committed : Committed l.start h new t₁.disk
  t₁-Committed = record {
    count = ap (λ (b : Block). b 0) head ∙ c.count;
    blocks = λ i lt. ap (λ (b : Block). b (suc i)) head ∙ c.blocks i lt;
    slots = λ i lt. t₁-area (l.start + i + 1) (omega arith) (omega arith) ∙ c.slots i lt;
    apart = c.apart;
  }
    where
      head : t₁.disk l.start ≡ s.disk l.start
      head = t₁-area l.start (omega arith) (omega arith)

  t₁-home : (i : ℕ) → i < h.n → h.n ≤ p → t₁.disk (h.block i) ≡ new (h.block i)
  unfolding install_trans reboot read_head
  t₁-home i lt enough = rw (m-block i lt) at (
      install-home true l.start m.lh.block new h.n
        (λ j a lt' h1 h2. rw (m-block j lt') (c.apart j a lt' (omega arith) h2)) m.lh.n 0 t₀ i
        (omega (arith, m-n)) (omega (arith, m-n)) (omega arith) (omega (arith, m-n))
        (λ j _ lt'.
          let lt'' : j < h.n = omega (arith, m-n) in rw (m-block j lt'') (c.slots j lt'')))

  module _ (q : ℕ) (enough : h.n ≤ q) (a : ℕ) (home : (a < l.start) ⊎ (l.start + h.n < a)) where
    -- What a complete recovery leaves in a block outside the log.
    full-named :
        (u : Store)
        → Committed l.start h new u.disk
        → (i : ℕ) → i < h.n
        → h.block i ≡ a
        → recovered l q u a ≡ new a
    unfolding initlog reboot
    full-named u cu i lt e = rw (← e) (recover-home (initial_log l) (reboot q u) cu i lt enough)

    full-other :
        (u : Store)
        → Committed l.start h new u.disk
        → ((i : ℕ) → i < h.n → h.block i ≢ a)
        → recovered l q u a ≡ u.disk a
    unfolding initlog reboot
    full-other u cu out = recover-outside (initial_log l) (reboot q u) cu a (omega arith) out

    t₂-disk : t₂.disk a ≡ t₁.disk a
    unfolding read_head
    t₂-disk = write_head-other (clear_n m) t₁ a (omega arith)

    -- The first recovery got as far as clearing the header.
    again-cleared : 0 < t₁.power → recovered l q t₂ a ≡ t₁.disk a
    unfolding initlog reboot read_head
    again-cleared left =
        recover-empty (initial_log l) (reboot q t₂)
          (ap (λ (b : Block). b 0) (write_head_self (clear_n m) t₁ left)
            ∙ words_of-count (clear_n m) (t₁.mem l.start))
          a (omega arith)
        ∙ t₂-disk

    again : recovered l q t₂ a ≡ recovered l q s a
    again = elim (dec_lt 0 t₁.power) [
      | yes left ↦ elim (home-cases h.block h.n a) [
        | inl (i, lt, e) ↦
            again-cleared left
            ∙ (rw (← e) (t₁-home i lt (omega (arith, t₁-power))))
            ∙ sym (full-named s c i lt e)
        | inr out ↦ again-cleared left ∙ t₁-other a out ∙ sym (full-other s c out)
      ]
      | no dead ↦
          let same : t₂.disk ≡ t₁.disk = write_head-no_power (clear_n m) t₁ (omega arith) in
          let c' : Committed l.start h new t₂.disk = rw same t₁-Committed in
          elim (home-cases h.block h.n a) [
            | inl (i, lt, e) ↦ full-named t₂ c' i lt e ∙ sym (full-named s c i lt e)
            | inr out ↦ full-other t₂ c' out ∙ t₂-disk ∙ t₁-other a out ∙ sym (full-other s c out)
          ]
    ]

-- A recovery that is itself stopped after any number `p` of disk writes, and then run again to its
-- end, leaves every block outside the log as one undisturbed recovery does.
pub recovery_restarts :
    (l : Log) {h : Header} {new : ℕ → Block} (s : Store)
    → Committed l.start h new s.disk
    → (p q : ℕ) → h.n ≤ q
    → (a : ℕ) → (a < l.start) ⊎ (l.start + h.n < a)
    → recovered l q (initlog l.start l.size (reboot p s)).1 a ≡ recovered l q s a
unfolding initlog reboot
recovery_restarts l s c p q enough a home = again l s p c q enough a home
