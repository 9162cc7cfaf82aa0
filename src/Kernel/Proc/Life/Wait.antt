-- ===== src/Kernel/Proc/Life/Wait.antt =====
-- What `wait` of kernel/proc.c returns and does, and which children it sees.
use os_proj.Base.{
  ℕ, zero, suc, ◌+◌, ◌≤◌, ◌<◌, ◌≡◌, refl, ◌⊎◌, inl, inr, ◌&&◌, ◌||◌, Bool, true, false, Option,
  none, some, arith, ◌==◌, if◌then◌else◌, dec_lt, Bool-cases, cases_at,
}
use os_proj.Kernel.Proc.Table.{nproc, is_zombie, Proc, Table, freeproc}
use os_proj.Kernel.Proc.Wake.{killed}
use os_proj.Kernel.Proc.Life.{same_slot, times, reaped, failed, slept, find_zombie, wait_with, wait}

abbrev pub Child : ℕ → Proc → Type 0
Child cur p = same_slot p.parent (some cur) ≡ true

abbrev pub ZombieChild : ℕ → Proc → Type 0
ZombieChild cur p = (Child cur p) × (is_zombie p.state ≡ true)

-- The scan found no zombie child, and knows whether there is a child.
pub record NoZombie (cur : ℕ) (proc : ℕ → Proc) (i n : ℕ) (havekids : Bool) (r : Option ℕ × Bool)
    : Type 0 where
  pub none_found : r.0 ≡ none
  pub alive : (j : ℕ) → i ≤ j → j < n → Child cur (proc j) → is_zombie (proc j).state ≡ false
  pub childless :
      r.1 ≡ false
      → (havekids ≡ false)
        × ((j : ℕ) → i ≤ j → j < n → same_slot (proc j).parent (some cur) ≡ false)
  pub some_child :
      r.1 ≡ true → (havekids ≡ true) ⊎ ((j : ℕ) × (i ≤ j) × (j < n) × Child cur (proc j))

-- The scan stopped at the first zombie child, `z`.
pub record Zombie (cur : ℕ) (proc : ℕ → Proc) (i n z : ℕ) (r : Option ℕ × Bool) : Type 0 where
  pub found : r.0 ≡ some z
  pub from : i ≤ z
  pub inside : z < n
  pub dead : ZombieChild cur (proc z)
  pub first : (j : ℕ) → i ≤ j → j < z → Child cur (proc j) → is_zombie (proc j).state ≡ false

module _ (cur : ℕ) (proc : ℕ → Proc) where
  abbrev child_at : ℕ → Bool
  child_at i = same_slot (proc i).parent (some cur)

  pub find_zombie_lem :
      (k i n : ℕ) (havekids : Bool)
      → i + k ≡ n
      → NoZombie cur proc i n havekids (find_zombie cur proc k i havekids)
        ⊎ ((z : ℕ) × Zombie cur proc i n z (find_zombie cur proc k i havekids))
  unfolding find_zombie
  find_zombie_lem zero i n havekids e = inl (record {
    none_found = refl;
    alive = λ j h h'. absurd (omega arith);
    childless = λ h. (h, λ j h h'. absurd (omega arith));
    some_child = λ h. inl h;
  })
  find_zombie_lem (suc k) i n havekids e =
      elim (Bool-cases (child_at i && is_zombie (proc i).state)) [
        | inl y ↦ rw y (
            inr (
              i,
              record {
                found = refl;
                from = omega arith;
                inside = omega arith;
                dead = ground arith;
                first = λ j h h'. absurd (omega arith);
              },
            ))
        | inr y ↦ rw y (elim (find_zombie_lem k (i + 1) n (havekids || child_at i) (omega arith)) [
          | inl c ↦ inl (record {
            none_found = c.none_found;
            alive = λ j h h'.
                cases_at (λ m. Child cur (proc m) → is_zombie (proc m).state ≡ false) i j h
                  (λ q. ground arith) (λ lt. c.alive j (omega arith) h');
            childless = λ q.
                let (none_before, none_after) = c.childless q in
                (
                  ground arith,
                  λ j h h'.
                      cases_at (λ m. child_at m ≡ false) i j h (ground arith)
                        (λ lt. none_after j (omega arith) h'),
                );
            some_child = λ q. elim (c.some_child q) [
              | inl before ↦ elim (Bool-cases (child_at i)) [
                | inl c ↦ inr (i, omega arith, omega arith, c)
                | inr nc ↦ inl (ground arith)
              ]
              | inr (j, h, h', y') ↦ inr (j, omega arith, h', y')
            ];
          })
          | inr (z, c) ↦ inr (
            z,
            record {
              found = c.found;
              from = omega (arith, c.from);
              inside = c.inside;
              dead = c.dead;
              first = λ j h h'.
                  cases_at (λ m. Child cur (proc m) → is_zombie (proc m).state ≡ false) i j h
                    (λ q. ground arith) (λ lt. c.first j (omega arith) h');
            },
          )
        ])
      ]

-- The case of a zombie child in terms of `freeproc`.
pub wait_reaps :
    (cur address : ℕ) (copied : Bool) (t : Table) (z : ℕ)
    → z < nproc
    → ZombieChild cur (t.proc z)
    → ((j : ℕ) → j < z → Child cur (t.proc j) → is_zombie (t.proc j).state ≡ false)
    → wait cur address copied t ≡ (
        if address == 0
        then (reaped (t.proc z).pid none, freeproc z t)
        else if copied
        then (reaped (t.proc z).pid (some (times (t.proc z))), freeproc z t)
        else (failed, t))
unfolding wait wait_with
wait_reaps cur address copied t z lt dead before =
    elim (find_zombie_lem cur t.proc nproc 0 nproc false refl) [
      | inl c ↦ absurd (cc (c.alive z (omega arith) lt dead.0, dead.1))
      | inr (y, c) ↦
          let same : y ≡ z = elim (dec_lt y z) [
            | yes below ↦ absurd (cc (before y below c.dead.0, c.dead.1))
            | no ge ↦ elim (dec_lt z y) [
              | yes above ↦ absurd (cc (c.first z (omega arith) above dead.0, dead.1))
              | no le ↦ omega arith
            ]
          ] in
          rw (c.found, same) refl
    ]

-- If no child is a zombie, `wait` changes nothing; it returns -1 if there is no child or the caller
-- was killed, and sleeps otherwise.
pub wait-no_zombie :
    (cur address : ℕ) (copied : Bool) (t : Table)
    → ((j : ℕ) → j < nproc → Child cur (t.proc j) → is_zombie (t.proc j).state ≡ false)
    → ((((j : ℕ) → j < nproc → same_slot (t.proc j).parent (some cur) ≡ false)
          ⊎ (killed cur t ≡ true))
        × (wait cur address copied t ≡ (failed, t)))
      ⊎ (((j : ℕ) × (j < nproc) × Child cur (t.proc j))
          × (killed cur t ≡ false)
          × (wait cur address copied t ≡ (slept, t)))
unfolding wait wait_with
wait-no_zombie cur address copied t alive =
    elim (find_zombie_lem cur t.proc nproc 0 nproc false refl) [
      | inr (z, c) ↦ absurd (cc (alive z c.inside c.dead.0, c.dead.1))
      | inl c ↦ elim (Bool-cases (find_zombie cur t.proc nproc 0 false).1) [
        | inr childless ↦ inl (
          inl (λ j lt. (c.childless childless).1 j (omega arith) lt),
          rw (c.none_found, childless),
        )
        | inl some_child ↦ elim (Bool-cases (killed cur t)) [
          | inl dead ↦ inl (inr dead, rw (c.none_found, some_child, dead))
          | inr alive_self ↦ elim (c.some_child some_child) [
            | inl absurd_start ↦ absurd (cc (absurd_start))
            | inr (j, h, h', y) ↦
                inr ((j, h', y), alive_self, rw (c.none_found, some_child, alive_self))
          ]
        ]
      ]
    ]
