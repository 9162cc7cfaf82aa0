-- ===== src/Kernel/Fs/Itable/Single.antt =====
-- An inode has one entry in the table of kernel/fs.c.
use os_proj.Base.{
  ℕ, zero, suc, ◌+◌, ◌≤◌, ◌<◌, ◌≡◌, ◌≢◌, ◌⊎◌, inl, inr, refl, ap, sym, ◌∙◌, arith, Bool, true,
  false, Bool-cases, Option, none, some, Option-cases, update, update_self, update_ne, cases_at,
  ℕ_discrete, ok, panic,
}
use os_proj.Kernel.Fs.Itable.{Entry, Itable, ninode, is_inode, is_empty, find_entry, iget}

abbrev FirstEntry : (Entry → Bool) → Itable → ℕ → ℕ → Option ℕ → Type 0
FirstEntry test t lo hi none = (x : ℕ) → lo ≤ x → x < hi → test (t x) ≡ false
FirstEntry test t lo hi (some i) = (lo ≤ i) × (i < hi) × (test (t i) ≡ true)

skip_entry :
    (test : Entry → Bool) (t : Itable) (lo hi : ℕ) (o : Option ℕ)
    → test (t lo) ≡ false
    → FirstEntry test t (lo + 1) hi o
    → FirstEntry test t lo hi o
skip_entry test t lo hi none u h =
    λ x l k. cases_at (λ y. test (t y) ≡ false) lo x l u (λ q. h x (omega arith) k)
skip_entry test t lo hi (some i) u (le, lt, e) = (omega arith, lt, e)

find_entry-FirstEntry :
    (test : Entry → Bool) (t : Itable) (k i : ℕ)
    → FirstEntry test t i (i + k) (find_entry test t k i)
unfolding find_entry
find_entry-FirstEntry test t zero i = λ x l k. absurd (omega arith)
find_entry-FirstEntry test t (suc k) i = elim (Bool-cases (test (t i))) [
  | inl e ↦ rw e (omega arith, omega arith, e)
  | inr e ↦
      let n : i + 1 + k ≡ i + suc k = omega arith in
      rw e (
        skip_entry test t i (i + suc k) (find_entry test t k (i + 1)) e
          (rw n at (find_entry-FirstEntry test t k (i + 1))))
]

-- No inode has two entries.
abbrev pub Single : Itable → Type 0
Single t =
    (i j : ℕ)
    → i < ninode
    → j < ninode
    → (t i).ref ≢ 0
    → (t j).ref ≢ 0
    → (t i).dev ≡ (t j).dev
    → (t i).node.inum ≡ (t j).node.inum
    → i ≡ j

-- One more reference to an inode: the entry has its name, it is not loaded if it had no reference,
-- and no other entry has changed.
pub record Got (dev inum : ℕ) (t : Itable) (i : ℕ) (t' : Itable) : Type 0 where
  pub inside : i < ninode
  pub its_dev : (t' i).dev ≡ dev
  pub its_inum : (t' i).node.inum ≡ inum
  pub counted : (t' i).ref ≡ (t i).ref + 1
  pub fresh : (t i).ref ≡ 0 → (t' i).node.valid ≡ false
  pub others : (x : ℕ) → x ≢ i → t' x ≡ t x
  pub single : Single t'

is_inode-parts :
    (dev inum : ℕ) (e : Entry)
    → is_inode dev inum e ≡ true
    → (e.ref ≢ 0) × (e.dev ≡ dev) × (e.node.inum ≡ inum)
is_inode-parts dev inum e h = (ground arith, ground arith, ground arith)

not_inode :
    (dev inum : ℕ) (e : Entry)
    → is_inode dev inum e ≡ false
    → e.ref ≢ 0
    → e.dev ≡ dev
    → e.node.inum ≢ inum
not_inode dev inum e h ne q q' = ground arith

used_entry : (e : Entry) → is_empty e ≡ false → e.ref ≢ 0
used_entry e h z = ground arith

module _ (dev inum : ℕ) (t : Itable) (s : Single t) (i : ℕ) (inside : i < ninode) where
  cached-Got :
      is_inode dev inum (t i) ≡ true
      → Got dev inum t i (update t i (record (t i) { ref = (t i).ref + 1 }))
  cached-Got h =
      let (ne, d, n) = is_inode-parts dev inum (t i) h in
      let e' = record (t i) { ref = (t i).ref + 1 } in
      let t' = update t i e' in
      let at_i : t' i ≡ e' = update_self t i e' in
      let other : (x : ℕ) → x ≢ i → t' x ≡ t x = update_ne t i e' in
      let dev_same : (x : ℕ) → (t' x).dev ≡ (t x).dev = λ x. elim (ℕ_discrete x i) [
        | yes q ↦
            ap (λ (y : ℕ). (t' y).dev) q
            ∙ ap (λ (e : Entry). e.dev) at_i
            ∙ ap (λ (y : ℕ). (t y).dev) (sym q)
        | no q ↦ ap (λ (e : Entry). e.dev) (other x q)
      ] in
      let inum_same : (x : ℕ) → (t' x).node.inum ≡ (t x).node.inum = λ x. elim (ℕ_discrete x i) [
        | yes q ↦
            ap (λ (y : ℕ). (t' y).node.inum) q
            ∙ ap (λ (e : Entry). e.node.inum) at_i
            ∙ ap (λ (y : ℕ). (t y).node.inum) (sym q)
        | no q ↦ ap (λ (e : Entry). e.node.inum) (other x q)
      ] in
      let was_used : (x : ℕ) → (t' x).ref ≢ 0 → (t x).ref ≢ 0 = λ x used. elim (ℕ_discrete x i) [
        | yes q ↦ λ z. ne (ap (λ (y : ℕ). (t y).ref) (sym q) ∙ z)
        | no q ↦ λ z. used (ap (λ (e : Entry). e.ref) (other x q) ∙ z)
      ] in
      record {
        inside = inside;
        its_dev = ap (λ (e : Entry). e.dev) at_i ∙ d;
        its_inum = ap (λ (e : Entry). e.node.inum) at_i ∙ n;
        counted = ap (λ (e : Entry). e.ref) at_i;
        fresh = λ z. absurd (ne z);
        others = other;
        single = λ a b la lb ua ub q q'.
            s a b la lb (was_used a ua) (was_used b ub) (sym (dev_same a) ∙ q ∙ dev_same b)
              (sym (inum_same a) ∙ q' ∙ inum_same b);
      }

  fresh-Got :
      (t i).ref ≡ 0
      → ((x : ℕ) → x < ninode → is_inode dev inum (t x) ≡ false)
      → Got dev inum t i (
          update t i (record {
            dev = dev;
            ref = 1;
            node = record ((t i).node) { inum = inum; valid = false };
          }))
  fresh-Got z absent =
      let e' : Entry = record {
        dev = dev;
        ref = 1;
        node = record ((t i).node) { inum = inum; valid = false };
      } in
      let t' = update t i e' in
      let at_i : t' i ≡ e' = update_self t i e' in
      let other : (x : ℕ) → x ≢ i → t' x ≡ t x = update_ne t i e' in
      let alone : (x : ℕ)
          → x < ninode
          → x ≢ i
          → (t' x).ref ≢ 0
          → (t' x).dev ≡ dev
          → (t' x).node.inum ≢ inum =
        λ x lt ne. rw (other x ne) (not_inode dev inum (t x) (absent x lt)) in
      record {
        inside = inside;
        its_dev = ap (λ (e : Entry). e.dev) at_i;
        its_inum = ap (λ (e : Entry). e.node.inum) at_i;
        counted = ap (λ (e : Entry). e.ref) at_i ∙ (let n : 1 ≡ (t i).ref + 1 = omega arith in n);
        fresh = λ _. ap (λ (e : Entry). e.node.valid) at_i;
        others = other;
        single = λ a b la lb ua ub q q'. elim (ℕ_discrete a i) [
          | yes ea ↦ elim (ℕ_discrete b i) [
            | yes eb ↦ ea ∙ sym eb
            | no nb ↦
                let ai : t' a ≡ e' = ap t' ea ∙ at_i in
                absurd (
                  alone b lb nb ub (sym q ∙ ap (λ (e : Entry). e.dev) ai)
                    (sym q' ∙ ap (λ (e : Entry). e.node.inum) ai))
          ]
          | no na ↦ elim (ℕ_discrete b i) [
            | yes eb ↦
                let bi : t' b ≡ e' = ap t' eb ∙ at_i in
                absurd (
                  alone a la na ua (q ∙ ap (λ (e : Entry). e.dev) bi)
                    (q' ∙ ap (λ (e : Entry). e.node.inum) bi))
            | no nb ↦
                let ga = other a na in
                let gb = other b nb in
                s a b la lb (rw ga at ua) (rw gb at ub) (rw (ga, gb) at q) (rw (ga, gb) at q')
          ]
        ];
      }

-- There is no entry for the inode, and no room for one.
abbrev pub NoRoom : ℕ → ℕ → Itable → Type 0
NoRoom dev inum t =
    ((x : ℕ) → x < ninode → (t x).ref ≢ 0)
    × ((x : ℕ) → x < ninode → is_inode dev inum (t x) ≡ false)

-- In a table that names no inode twice, `iget` gives an entry with the name, takes one reference
-- to it, changes no other entry, and the table still names no inode twice; it panics only if no
-- entry names the inode and none is without a reference.
pub iget-Got :
    (dev inum : ℕ) (t : Itable)
    → Single t
    → ((i : ℕ) × (t' : Itable) × (iget dev inum t ≡ ok (i, t')) × Got dev inum t i t')
      ⊎ (((x : ℕ) → x < ninode → (t x).ref ≢ 0)
          × ((x : ℕ) → x < ninode → is_inode dev inum (t x) ≡ false)
          × (iget dev inum t ≡ panic))
unfolding iget
iget-Got dev inum t s =
    let h = find_entry-FirstEntry (is_inode dev inum) t ninode 0 in
    elim (Option-cases (find_entry (is_inode dev inum) t ninode 0)) [
      | inr (i, e) ↦
          let (lo, lt, hit) = rw e at h in
          inl (
            i,
            update t i (record (t i) { ref = (t i).ref + 1 }),
            rw e refl,
            cached-Got dev inum t s i lt hit,
          )
      | inl e ↦
          let absent : (x : ℕ) → x < ninode → is_inode dev inum (t x) ≡ false =
            λ x lt. (rw e at h) x (omega arith) lt in
          let g = find_entry-FirstEntry is_empty t ninode 0 in
          elim (Option-cases (find_entry is_empty t ninode 0)) [
            | inl full ↦ inr (
              λ x lt. used_entry (t x) ((rw full at g) x (omega arith) lt),
              absent,
              rw (e, full) refl,
            )
            | inr (i, e') ↦
                let (lo, lt, hit) = rw e' at g in
                inl (
                  i,
                  update t i (record {
                    dev = dev;
                    ref = 1;
                    node = record ((t i).node) { inum = inum; valid = false };
                  }),
                  rw (e, e') refl,
                  fresh-Got dev inum t s i lt (ground arith) absent,
                )
          ]
    ]
