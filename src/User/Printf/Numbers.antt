-- ===== src/User/Printf/Numbers.antt =====
-- What `printint` of user/printf.c writes, read back by `atoi` of user/ulib.c.
use os_proj.Base.{
  ℕ, zero, suc, ◌+◌, ◌-◌, ◌*◌, ◌/◌, ◌%◌, ◌^◌, ◌<◌, ◌≤◌, ◌≡◌, ◌≢◌, refl, ap, sym, ◌∙◌, arith, true,
  false, List, [], ◌∷◌, ◌++◌, length, leb, ◌==◌, ℕ_discrete, dec_lt, pos, neg,
}
use mathlib.Core.List.{append-nil}
use os_proj.User.Ulib.{negate, to_int, atoi}
use os_proj.User.Ulib.Numbers.{Digits, value, atoi-value}
use os_proj.User.Printf.{digit_at, digit_loop, printint}

-- The numbers of at most `f` digits.
abbrev limit : ℕ → ℕ
limit zero = 1
limit (suc f) = 10 * limit f

digit_at-less : (k : ℕ) → k < 10 → digit_at k ≡ b'0' + k
unfolding digit_at
digit_at-less k lt = ground arith

-- The number that the bytes of the buffer go on from.
digit_loop-value :
    (f x : ℕ) (buf : List ℕ) → x < limit f → value 0 (digit_loop f 10 x buf) ≡ value x buf
unfolding digit_loop value
digit_loop-value zero x buf lt = let z : 0 ≡ x = omega arith in ap (λ (n : ℕ). value n buf) z
digit_loop-value (suc f) x buf lt =
    let d : digit_at (x % 10) ≡ b'0' + x % 10 = digit_at-less (x % 10) (omega arith) in
    elim (ℕ_discrete (x / 10) 0) [
      | yes z ↦
          let b : (x / 10 == 0) ≡ true = ground arith in
          let n : 0 * 10 + (b'0' + x % 10 - b'0') ≡ x = omega arith in rw (b, d, n) refl
      | no ne ↦
          let b : (x / 10 == 0) ≡ false = ground arith in
          let n : x / 10 * 10 + (b'0' + x % 10 - b'0') ≡ x = omega arith in
          let rest = digit_loop-value f (x / 10) (digit_at (x % 10) ∷ buf) (omega arith) in
          rw b (rest ∙ rw (d, n) refl)
    ]

digit_loop-Digits : (f x : ℕ) (buf : List ℕ) → Digits buf → Digits (digit_loop f 10 x buf)
unfolding digit_loop
digit_loop-Digits zero x buf h = h
digit_loop-Digits (suc f) x buf h =
    let d : digit_at (x % 10) ≡ b'0' + x % 10 = digit_at-less (x % 10) (omega arith) in
    let more : Digits (digit_at (x % 10) ∷ buf) = rw d (ground arith, h) in
    elim (ℕ_discrete (x / 10) 0) [
      | yes z ↦ let b : (x / 10 == 0) ≡ true = ground arith in rw b more
      | no ne ↦
          let b : (x / 10 == 0) ≡ false = ground arith in
          rw b (digit_loop-Digits f (x / 10) (digit_at (x % 10) ∷ buf) more)
    ]

-- At most as many digits as the number has.
length-digit_loop :
    (f g x : ℕ) (buf : List ℕ)
    → x < limit (suc g)
    → length (digit_loop f 10 x buf) ≤ suc g + length buf
unfolding digit_loop
length-digit_loop zero g x buf lt = omega arith
length-digit_loop (suc f) zero x buf lt =
    let b : (x / 10 == 0) ≡ true = ground arith in rw b (omega arith)
length-digit_loop (suc f) (suc g) x buf lt =
    let rest = length-digit_loop f g (x / 10) (digit_at (x % 10) ∷ buf) (omega arith) in
    elim (ℕ_discrete (x / 10) 0) [
      | yes z ↦ let b : (x / 10 == 0) ≡ true = ground arith in rw b (omega arith)
      | no ne ↦ let b : (x / 10 == 0) ≡ false = ground arith in rw b (omega arith)
    ]

abbrev Cons : List ℕ → Type 0
Cons s = (c : ℕ) × (t : List ℕ) × (s ≡ c ∷ t)

digit_loop-Cons : (f x c : ℕ) (buf : List ℕ) → Cons (digit_loop f 10 x (c ∷ buf))
unfolding digit_loop
digit_loop-Cons zero x c buf = (c, buf, refl)
digit_loop-Cons (suc f) x c buf = elim (ℕ_discrete (x / 10) 0) [
  | yes z ↦ let b : (x / 10 == 0) ≡ true = ground arith in rw b (digit_at (x % 10), c ∷ buf, refl)
  | no ne ↦
      let b : (x / 10 == 0) ≡ false = ground arith in
      rw b (digit_loop-Cons f (x / 10) (digit_at (x % 10)) (c ∷ buf))
]

-- Reading digits back.
atoi-Digits :
    (x : ℕ) (s : List ℕ)
    → Cons s
    → Digits s
    → value 0 s ≡ x
    → x < 2 ^ 31
    → (atoi s ≡ pos x) × (atoi (b'-' ∷ s) ≡ neg (pos x))
atoi-Digits x s (c, t, e) h v lt =
    let e' : c ∷ t ++ [] ≡ s = append-nil (c ∷ t) ∙ sym e in
    let v' : value 0 (c ∷ t) ≡ x = ap (value 0) (sym e) ∙ v in
    let (p, n) = atoi-value c t [] (rw e at h) refl (rw v' lt) in
    (
      ap atoi (sym e') ∙ p ∙ ap pos v',
      ap (λ (w : List ℕ). atoi (b'-' ∷ w)) (sym e') ∙ n ∙ ap (λ (w : ℕ). neg (pos w)) v',
    )

start-Cons : (f x : ℕ) → Cons (digit_loop (suc f) 10 x [])
unfolding digit_loop
start-Cons f x = elim (ℕ_discrete (x / 10) 0) [
  | yes z ↦ let b : (x / 10 == 0) ≡ true = ground arith in rw b (digit_at (x % 10), [], refl)
  | no ne ↦
      let b : (x / 10 == 0) ≡ false = ground arith in
      rw b (digit_loop-Cons f (x / 10) (digit_at (x % 10)) [])
]

-- In base 10 `printint` writes a signed 32-bit number so that `atoi` reads it back, unless it is
-- the least one, and it uses at most 11 of the 16 bytes of its buffer for any.
pub atoi-printint :
    (xx : ℕ)
    → xx < 2 ^ 32
    → (xx ≢ 2 ^ 31 → atoi (printint xx 10 true) ≡ to_int xx) × (length (printint xx 10 true) ≤ 11)
unfolding printint value
atoi-printint xx lt = elim (dec_lt xx (2 ^ 31)) [
  | yes small ↦
      let b : leb (2 ^ 31) xx ≡ false = ground arith in
      let (p, n) =
        atoi-Digits xx (digit_loop 16 10 xx []) (start-Cons 15 xx) (digit_loop-Digits 16 xx [] tt)
          (digit_loop-value 16 xx [] (omega arith)) small in
      let e : to_int xx ≡ pos xx = ground arith in
      let l : length (digit_loop 16 10 xx []) ≤ 10 = length-digit_loop 16 9 xx [] (omega arith) in
      (λ ne. rw (b, e) p, rw b (omega arith))
  | no big ↦
      let b : leb (2 ^ 31) xx ≡ true = ground arith in
      let x = negate xx in
      let l : length (digit_loop 16 10 x []) ≤ 10 = length-digit_loop 16 9 x [] (omega arith) in
      (
        λ ne.
            let (p, n) =
              atoi-Digits x (digit_loop 16 10 x []) (start-Cons 15 x) (digit_loop-Digits 16 x [] tt)
                (digit_loop-value 16 x [] (omega arith)) (omega arith) in
            let e : to_int xx ≡ neg (pos x) = ground arith in rw (b, e) n,
        rw b (omega arith),
      )
]
