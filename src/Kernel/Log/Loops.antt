-- ===== src/Kernel/Log/Loops.antt =====
-- The loops of kernel/log.c: what each leaves in memory and on the disk, place by place.
use os_proj.Base.{
  ℕ, zero, suc, ◌+◌, ◌-◌, ◌≤◌, ◌<◌, ◌≡◌, refl, ◌≢◌, ◌⊎◌, Bool, arith, ltb, if◌then◌else◌, update,
  dec_lt,
}
use os_proj.Kernel.Log.{
  Block, Store, bwrite, bunpin, install_loop, copy_words, write_log_loop, Log, write_head, words_of,
}

pub copy_words_lem :
    (k i : ℕ) (src dst : ℕ → ℕ) (j : ℕ)
    → copy_words k i src dst j ≡ (if ltb j i then dst j else if ltb j (i + k) then src j else dst j)
unfolding copy_words
copy_words_lem zero i src dst j = ground arith
copy_words_lem (suc k) i src dst j =
    ground (arith, copy_words_lem k (i + 1) src (update dst i (src i)) j)

module _ (start : ℕ) (block : ℕ → ℕ) where
  -- `write_log` touches the slots of the log and nothing else.
  pub write_log-power :
      (k t : ℕ) (s : Store) → (write_log_loop start block k t s).power ≡ s.power - k
  unfolding write_log_loop bwrite
  write_log-power zero t s = omega arith
  write_log-power (suc k) t s =
      omega (arith, write_log-power k (t + 1) (bwrite (start + t + 1) (s.mem (block t)) s))

  pub write_log-outside :
      (k t : ℕ) (s : Store) (a : ℕ)
      → (a ≤ start + t) ⊎ (start + t + k < a)
      → (write_log_loop start block k t s).mem a ≡ s.mem a
        × ((write_log_loop start block k t s).disk a ≡ s.disk a)
  unfolding write_log_loop bwrite
  write_log-outside zero t s a h = (refl, refl)
  write_log-outside (suc k) t s a h =
      ground (arith, write_log-outside k (t + 1) (bwrite (start + t + 1) (s.mem (block t)) s) a)

  -- A slot gets the block that memory holds for it, in memory always and on the disk with power.
  module _ {limit : ℕ}
      (apart : (i a : ℕ) → i < limit → start < a → a ≤ start + limit → block i ≢ a) where
    pub write_log-mem :
        (k t : ℕ) (s : Store) (i : ℕ)
        → t ≤ i
        → i < t + k
        → t + k ≤ limit
        → (write_log_loop start block k t s).mem (start + i + 1) ≡ s.mem (block i)
    unfolding write_log_loop bwrite
    write_log-mem zero t s i h h' lim = absurd (omega arith)
    write_log-mem (suc k) t s i h h' lim =
        let s' = bwrite (start + t + 1) (s.mem (block t)) s in
        elim (dec_lt t i) [
          | yes later ↦ ground (
            arith,
            write_log-mem k (t + 1) s' i,
            apart i (start + t + 1) (omega arith) (omega arith) (omega arith),
          )
          | no now ↦
              let e : i ≡ t = omega arith in
              rw e (ground (arith, write_log-outside k (t + 1) s' (start + t + 1)))
        ]

    pub write_log-disk :
        (k t : ℕ) (s : Store) (i : ℕ)
        → t ≤ i
        → i < t + k
        → t + k ≤ limit
        → k ≤ s.power
        → (write_log_loop start block k t s).disk (start + i + 1) ≡ s.mem (block i)
    unfolding write_log_loop bwrite
    write_log-disk zero t s i h h' lim p = absurd (omega arith)
    write_log-disk (suc k) t s i h h' lim p =
        let s' = bwrite (start + t + 1) (s.mem (block t)) s in
        elim (dec_lt t i) [
          | yes later ↦ ground (
            arith,
            write_log-disk k (t + 1) s' i,
            apart i (start + t + 1) (omega arith) (omega arith) (omega arith),
          )
          | no now ↦
              let e : i ≡ t = omega arith in
              rw e (ground (arith, write_log-outside k (t + 1) s' (start + t + 1)))
        ]

-- `install_trans` writes the home blocks and nothing else.
module _ (recovering : Bool) (start : ℕ) (block : ℕ → ℕ) where
  abbrev step : ℕ → Store → Store
  unfolding bwrite bunpin
  step t s =
      let s' = bwrite (block t) (s.mem (start + t + 1)) s in
      if recovering then s' else bunpin (block t) s'

  pub install-power :
      (k t : ℕ) (s : Store) → (install_loop recovering start block k t s).power ≡ s.power - k
  unfolding install_loop bwrite bunpin
  install-power zero t s = omega arith
  install-power (suc k) t s = ground (arith, install-power k (t + 1) (step t s))

  -- No slot is the home of a block, whatever the index.
  abbrev pub Outside : ℕ → ℕ → ℕ → Type 0
  Outside k t a = (i : ℕ) → t ≤ i → i < t + k → block i ≢ a

  pub install-Outside :
      (k t : ℕ) (s : Store) (a : ℕ)
      → Outside k t a
      → (install_loop recovering start block k t s).mem a ≡ s.mem a
        × ((install_loop recovering start block k t s).disk a ≡ s.disk a)
  unfolding install_loop bwrite bunpin
  install-Outside zero t s a h = (refl, refl)
  install-Outside (suc k) t s a h = ground (
    arith,
    h t (omega arith) (omega arith),
    install-Outside k (t + 1) (step t s) a (λ i l l'. h i (omega arith) (omega arith)),
  )

  -- Where the slots in memory hold `new` of their homes, a place that is `new` stays so.
  module _ (new : ℕ → Block) (limit : ℕ)
      (apart : (i a : ℕ) → i < limit → start < a → a ≤ start + limit → block i ≢ a) where
    abbrev pub Filled : ℕ → ℕ → Store → Type 0
    Filled k t s = (i : ℕ) → t ≤ i → i < t + k → s.mem (start + i + 1) ≡ new (block i)

    Filled-step :
        (k t : ℕ) (s : Store) → t + suc k ≤ limit → Filled (suc k) t s → Filled k (t + 1) (step t s)
    unfolding bwrite bunpin
    Filled-step k t s lim f i h h' = ground (
      arith,
      f i (omega arith) (omega arith),
      apart t (start + i + 1) (omega arith) (omega arith) (omega arith),
    )

    pub install-keeps :
        (k t : ℕ) (s : Store) (a : ℕ)
        → t + k ≤ limit
        → Filled k t s
        → s.disk a ≡ new a
        → (install_loop recovering start block k t s).disk a ≡ new a
    unfolding install_loop bwrite bunpin
    install-keeps zero t s a lim f e = e
    install-keeps (suc k) t s a lim f e = ground (
      arith,
      f t (omega arith) (omega arith),
      install-keeps k (t + 1) (step t s) a (omega arith) (Filled-step k t s lim f),
    )

    pub install-home :
        (k t : ℕ) (s : Store) (i : ℕ)
        → t + k ≤ limit
        → k ≤ s.power
        → t ≤ i
        → i < t + k
        → Filled k t s
        → (install_loop recovering start block k t s).disk (block i) ≡ new (block i)
    unfolding install_loop bwrite bunpin
    install-home zero t s i lim p h h' f = absurd (omega arith)
    install-home (suc k) t s i lim p h h' f = elim (dec_lt t i) [
      | yes later ↦ ground (arith, install-home k (t + 1) (step t s) i, Filled-step k t s lim f)
      | no now ↦
          let e : i ≡ t = omega arith in
          rw e (
            install-keeps k (t + 1) (step t s) (block t) (omega arith) (Filled-step k t s lim f)
              (ground (arith, f t (omega arith) (omega arith))))
    ]

-- Without power nothing reaches the disk.
module _ (recovering : Bool) (start : ℕ) (block : ℕ → ℕ) where
  pub install-no_power :
      (k t : ℕ) (s : Store)
      → s.power ≡ 0
      → (install_loop recovering start block k t s).disk ≡ s.disk
  unfolding install_loop bwrite bunpin
  install-no_power zero t s e = refl
  install-no_power (suc k) t s e =
      ground (arith, install-no_power k (t + 1) (step recovering start block t s))

-- The header write: one block, if there is power for it.
module _ (l : Log) (s : Store) where
  pub write_head-power : (write_head l s).power ≡ s.power - 1
  unfolding write_head bwrite
  write_head-power = refl

  pub write_head-mem : (a : ℕ) → a ≢ l.start → (write_head l s).mem a ≡ s.mem a
  unfolding write_head bwrite
  write_head-mem a ne = ground arith

  pub write_head-other : (a : ℕ) → a ≢ l.start → (write_head l s).disk a ≡ s.disk a
  unfolding write_head bwrite
  write_head-other a ne = ground arith

  pub write_head-no_power : s.power ≡ 0 → (write_head l s).disk ≡ s.disk
  unfolding write_head bwrite
  write_head-no_power e = ground arith

  pub write_head_self : 0 < s.power → (write_head l s).disk l.start ≡ words_of l.lh (s.mem l.start)
  unfolding write_head bwrite
  write_head_self h = ground arith

-- The header that is read back from its own words.
pub words_of-count : (l : Log) (b : Block) → words_of l.lh b 0 ≡ l.lh.n
unfolding words_of
words_of-count l b = refl

pub words_of-block :
    (l : Log) (b : Block) (i : ℕ) → i < l.lh.n → words_of l.lh b (suc i) ≡ l.lh.block i
unfolding words_of
words_of-block l b i h = ground (arith, copy_words_lem l.lh.n 0 l.lh.block (λ j. b (suc j)) i)
