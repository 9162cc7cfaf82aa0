-- ===== src/Kernel/Console/Read.antt =====
-- `consoleread` of kernel/console.c: which bytes it takes.
use os_proj.Base.{
  ℕ, suc, ◌+◌, ◌%◌, ◌≤◌, ◌≡◌, ◌≢◌, refl, arith, Bool, List, [], ◌∷◌, ltb, ◌==◌, Bool-cases, inl,
  inr, length, ◌<◌, get_elem?, some, zero, ◌∙◌, ap,
}
use os_proj.Kernel.Console.{Cons, input_buf_size, uint_size, ctrl, consoleread}
use os_proj.Kernel.Console.Input.{ready, Valid}

-- The bytes handed over are the first of those that were ready, in order; only `r` moves, past no
-- byte that was not ready.
pub record Taken (c : Cons) (bytes : List ℕ) (c' : Cons) : Type 0 where
  pub only_r : c' ≡ record c { r = c'.r }
  pub valid : Valid c'
  pub fewer : ready c' + length bytes ≤ ready c
  pub oldest :
      (i : ℕ) → i < length bytes → get_elem? bytes i ≡ some (c.buf ((c.r + i) % input_buf_size))

nothing : (c : Cons) → Valid c → Taken c [] c
nothing c v = record {
  only_r = refl;
  valid = v;
  fewer = omega arith;
  oldest = λ i l. absurd (omega arith);
}

abbrev advance : Cons → Cons
advance c = record c { r = (c.r + 1) % uint_size }

advance-Valid :
    (c : Cons) → Valid c → c.r ≢ c.w → Valid (advance c) × (suc (ready (advance c)) ≡ ready c)
advance-Valid c v ne = (
  record {
    r_bound = omega arith;
    w_bound = v.w_bound;
    e_bound = v.e_bound;
    order = omega (arith, v.r_bound, v.w_bound, v.e_bound, v.order);
    room = omega (arith, v.r_bound, v.w_bound, v.e_bound, v.order, v.room);
  },
  omega (arith, v.r_bound, v.w_bound),
)

one_oldest :
    (c : Cons) (bytes : List ℕ)
    → ((i : ℕ)
        → i < length bytes
        → get_elem? bytes i ≡ some (c.buf (((c.r + 1) % uint_size + i) % input_buf_size)))
    → (i : ℕ) → i < suc (length bytes)
    → get_elem? (c.buf (c.r % input_buf_size) ∷ bytes) i ≡ some (c.buf ((c.r + i) % input_buf_size))
one_oldest c bytes h zero l =
    let e : c.r ≡ c.r + 0 = omega arith in ap (λ x. some (c.buf (x % input_buf_size))) e
one_oldest c bytes h (suc i) l =
    let e : ((c.r + 1) % uint_size + i) % input_buf_size ≡ (c.r + suc i) % input_buf_size =
      omega arith in
    h i (omega arith) ∙ ap (λ x. some (c.buf x)) e

one :
    (c : Cons) (bytes : List ℕ) (c' : Cons)
    → Valid c
    → c.r ≢ c.w
    → Taken (advance c) bytes c'
    → Taken c (c.buf (c.r % input_buf_size) ∷ bytes) c'
one c bytes c' v ne t = record {
  only_r = t.only_r;
  valid = t.valid;
  fewer = omega (arith, t.fewer, (advance-Valid c v ne).1);
  oldest = one_oldest c bytes t.oldest;
}

dropped : (c : Cons) → Valid c → c.r ≢ c.w → Taken c [] (advance c)
dropped c v ne = record {
  only_r = refl;
  valid = (advance-Valid c v ne).0;
  fewer = omega (arith, (advance-Valid c v ne).1);
  oldest = λ i l. absurd (omega arith);
}

-- From a valid ring, a piece of `consoleread` leaves a valid one: it moves `r` only, the
-- bytes that it hands over are the first of the ready ones, in order, and it passes none that was
-- not ready.
pub consoleread-Taken :
    (killed : Bool) (dst : List Bool) (copied : ℕ) (c : Cons)
    → Valid c
    → Taken c (consoleread killed dst copied c).1 (consoleread killed dst copied c).2
unfolding consoleread
consoleread-Taken killed [] copied c v = nothing c v
consoleread-Taken killed (answer ∷ dst) copied c v = elim (Bool-cases (c.r == c.w)) [
  | inl empty ↦ rw empty (nothing c v)
  | inr some_left ↦
      let ne : c.r ≢ c.w = ground arith in
      let ch = c.buf (c.r % input_buf_size) in
      let (v', n) = advance-Valid c v ne in
      elim (Bool-cases (ch == ctrl b'D')) [
        | inl eof ↦ elim (Bool-cases (ltb 0 copied)) [
          | inl y ↦ rw (some_left, eof, y) (nothing c v)
          | inr y ↦ rw (some_left, eof, y) (dropped c v ne)
        ]
        | inr byte ↦ elim (Bool-cases answer) [
          | inr fails ↦ rw (some_left, byte, fails) (dropped c v ne)
          | inl copies ↦ elim (Bool-cases (ch == b'\n')) [
            | inl line ↦
                rw (some_left, byte, copies, line)
                  (one c [] (advance c) v ne (nothing (advance c) v'))
            | inr more ↦
                rw (some_left, byte, copies, more)
                  (one c _ _ v ne (consoleread-Taken killed dst (copied + 1) (advance c) v'))
          ]
        ]
      ]
]
