-- ===== src/Kernel/Console/Input.antt =====
-- The indices of the input ring of kernel/console.c.
use os_proj.Base.{
  ℕ, zero, suc, ◌+◌, ◌-◌, ◌%◌, ◌≤◌, ◌<◌, ◌≡◌, ◌≢◌, refl, arith, not, ◌&&◌, ◌||◌, ltb, ◌==◌,
  if◌then◌else◌, update, update_ne, Bool-cases, inl, inr, ◌∙◌,
}
use os_proj.Kernel.Console.{
  Cons, input_buf_size, uint_size, ctrl, before_e, pending, edited, kill_line, put, consoleintr,
}

-- `w - r`, as a `uint`: the bytes that a reader may take.
abbrev pub ready : Cons → ℕ
ready c = (c.w + (uint_size - c.r)) % uint_size

-- The indices lie in the order `r`, `w`, `e`, and no further apart than the buffer is long.
pub record Valid (c : Cons) : Type 0 where
  pub r_bound : c.r < uint_size
  pub w_bound : c.w < uint_size
  pub e_bound : c.e < uint_size
  pub order : ready c ≤ pending c
  pub room : pending c ≤ input_buf_size

-- The bytes that a reader may take stay as they are, and more may follow.
pub record Grows (c c' : Cons) : Type 0 where
  pub same_r : c'.r ≡ c.r
  pub more : ready c ≤ ready c'
  pub kept :
      (j : ℕ)
      → j < ready c
      → c'.buf ((c.r + j) % input_buf_size) ≡ c.buf ((c.r + j) % input_buf_size)

Grows-refl : (c : Cons) → Grows c c
Grows-refl c = record { same_r = refl; more = omega arith; kept = λ j lt. refl }

Valid-back :
    (c : Cons)
    → Valid c
    → c.e ≢ c.w
    → Valid (record c { e = before_e c }) × (edited c ≡ suc (edited (record c { e = before_e c })))
Valid-back c v ne = (
  record {
    r_bound = v.r_bound;
    w_bound = v.w_bound;
    e_bound = omega arith;
    order = omega (arith, v.r_bound, v.w_bound, v.e_bound, v.order, v.room);
    room = omega (arith, v.r_bound, v.w_bound, v.e_bound, v.order, v.room);
  },
  omega (arith, v.r_bound, v.w_bound, v.e_bound, v.order, v.room),
)

-- Only `e` moves.
back-Grows : (c : Cons) (e : ℕ) → Grows c (record c { e = e })
back-Grows c e = record { same_r = refl; more = omega arith; kept = λ j lt. refl }

Grows-trans : {a b c : Cons} → Grows a b → Grows b c → Grows a c
Grows-trans {a} {b} {c} g h = record {
  same_r = h.same_r ∙ g.same_r;
  more = omega (arith, g.more, h.more);
  kept = λ j lt. trans_kept j lt;
}
  where
    trans_kept :
        (j : ℕ)
        → j < ready a
        → c.buf ((a.r + j) % input_buf_size) ≡ a.buf ((a.r + j) % input_buf_size)
    trans_kept j lt =
        let first = g.kept j lt in
        let then' = h.kept j (omega (arith, g.more)) in let same = g.same_r in cc

pub Kept : Cons → Cons → Type 0
Kept c c' = Valid c' × Grows c c'

Kept-refl : (c : Cons) → Valid c → Kept c c
unfolding Kept
Kept-refl c v = (v, Grows-refl c)

back-Kept : (c : Cons) → Valid c → c.e ≢ c.w → Kept c (record c { e = before_e c })
unfolding Kept
back-Kept c v ne = ((Valid-back c v ne).0, back-Grows c (before_e c))

kill_line-Kept : (fuel : ℕ) (c : Cons) → Valid c → Kept c (kill_line fuel c)
unfolding kill_line Kept
kill_line-Kept zero c v = (v, Grows-refl c)
kill_line-Kept (suc fuel) c v =
    elim (Bool-cases (not (c.e == c.w) && not (c.buf (before_e c % input_buf_size) == b'\n'))) [
      | inr stop ↦ rw stop (v, Grows-refl c)
      | inl go ↦
          let (v', n) = Valid-back c v (ground arith) in
          let (v'', g) = kill_line-Kept fuel (record c { e = before_e c }) v' in
          rw go (v'', Grows-trans (back-Grows c (before_e c)) g)
    ]

abbrev store : ℕ → Cons → Cons
store byte c = record c {
  buf = update c.buf (c.e % input_buf_size) byte;
  e = (c.e + 1) % uint_size;
}

-- A byte is stored behind all that a reader may take.
store-kept :
    (byte : ℕ) (c : Cons)
    → Valid c
    → pending c < input_buf_size
    → (j : ℕ) → j < ready c
    → (store byte c).buf ((c.r + j) % input_buf_size) ≡ c.buf ((c.r + j) % input_buf_size)
store-kept byte c v lt j below =
    update_ne c.buf (c.e % input_buf_size) byte ((c.r + j) % input_buf_size)
      (omega (arith, v.r_bound, v.w_bound, v.e_bound, v.order))

store-Kept :
    (byte : ℕ) (c : Cons)
    → Valid c
    → pending c < input_buf_size
    → Kept c (store byte c) × Kept c (record (store byte c) { w = (store byte c).e })
unfolding Kept
store-Kept byte c v lt = (
  (
    record {
      r_bound = v.r_bound;
      w_bound = v.w_bound;
      e_bound = omega arith;
      order = omega (arith, v.r_bound, v.w_bound, v.e_bound, v.order);
      room = omega (arith, v.r_bound, v.e_bound);
    },
    record { same_r = refl; more = omega arith; kept = store-kept byte c v lt },
  ),
  (
    record {
      r_bound = v.r_bound;
      w_bound = omega arith;
      e_bound = omega arith;
      order = omega arith;
      room = omega (arith, v.r_bound, v.e_bound);
    },
    record {
      same_r = refl;
      more = omega (arith, v.r_bound, v.w_bound, v.e_bound, v.order);
      kept = store-kept byte c v lt;
    },
  ),
)

put-Kept : (ch : ℕ) (c : Cons) → Valid c → Kept c (put ch c).1
unfolding put
put-Kept ch c v = elim (Bool-cases (not (ch == 0) && ltb (pending c) input_buf_size)) [
  | inr full ↦ rw full (Kept-refl c v)
  | inl room ↦
      let byte = if ch == b'\r' then b'\n' else ch in
      let (k, k') = store-Kept byte c v (ground arith) in
      elim (Bool-cases
        (byte == b'\n' || byte == ctrl b'D' || pending (store byte c) == input_buf_size)) [
          | inl wakes ↦ rw (room, wakes) k'
          | inr line ↦ rw (room, line) k
        ]
]

-- From a valid ring, every character that arrives leaves a valid ring, in which the bytes that a
-- reader may take stay as they are and more may follow: editing never reaches a finished line.
pub consoleintr-Kept : (ch : ℕ) (c : Cons) → Valid c → Kept c (consoleintr ch c).1
unfolding consoleintr
consoleintr-Kept ch c v = elim (Bool-cases (ch == ctrl b'P')) [
  | inl y ↦ rw y (Kept-refl c v)
  | inr n ↦ elim (Bool-cases (ch == ctrl b'U')) [
    | inl y ↦ rw (n, y) (kill_line-Kept (edited c) c v)
    | inr n' ↦ elim (Bool-cases (ch == ctrl b'H' || ch == 127)) [
      | inr n'' ↦ rw (n, n', n'') (put-Kept ch c v)
      | inl y ↦ elim (Bool-cases (c.e == c.w)) [
        | inl none_left ↦ rw (n, n', y, none_left) (Kept-refl c v)
        | inr left ↦ rw (n, n', y, left) (back-Kept c v (ground arith))
      ]
    ]
  ]
]
