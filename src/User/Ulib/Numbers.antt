-- ===== src/User/Ulib/Numbers.antt =====
-- What the functions of user/ulib.c that read numbers return.
use os_proj.Base.{
  ℕ, ◌+◌, ◌-◌, ◌*◌, ◌^◌, ◌<◌, ◌≤◌, ◌≡◌, ◌≢◌, ◌↔◌, ◌⊎◌, inl, inr, refl, true, false, List, [], ◌∷◌,
  ◌++◌, pos, minus_one, neg, arith,
}
use os_proj.User.Ulib.{
  deref, strcmp, is_digit, push_digit, atoi_loop, atoi_bits, atoi, all_digits, nonneg_loop,
  parse_nonneg_int,
}

abbrev pub Digits : List ℕ → Type 0
Digits [] = Unit
Digits (c ∷ s) = (is_digit c ≡ true) × Digits s

-- The number that digits denote after a number `n`, without any bound.
unfoldable pub value : ℕ → List ℕ → ℕ
value n [] = n
value n (c ∷ s) = value (n * 10 + (c - b'0')) s

value-le : (n : ℕ) (s : List ℕ) → n ≤ value n s
unfolding value
value-le n [] = omega arith
value-le n (c ∷ s) = omega (arith, value-le (n * 10 + (c - b'0')) s)

nonneg_loop-value :
    (s : List ℕ) (v : ℕ) → Digits s → value v s < 2 ^ 31 → nonneg_loop s v ≡ pos (value v s)
unfolding nonneg_loop value
nonneg_loop-value [] v d h = ground arith
nonneg_loop-value (c ∷ s) v (dc, ds) h =
    let small : v * 10 + (c - b'0') < 2 ^ 31 = omega (arith, value-le (v * 10 + (c - b'0')) s) in
    let e : push_digit v c ≡ v * 10 + (c - b'0') = omega arith in
    rw e (ground (arith, nonneg_loop-value s (v * 10 + (c - b'0')) ds h))

nonneg_loop-bad : (s : List ℕ) (v : ℕ) → all_digits s ≡ false → nonneg_loop s v ≡ minus_one
unfolding nonneg_loop all_digits
nonneg_loop-bad [] v h = cc
nonneg_loop-bad (c ∷ s) v h = ground (arith, nonneg_loop-bad s (push_digit v c))

-- `parse_nonneg_int` returns the number that the digits denote, if it fits an `int`.
pub parse_nonneg_int-value :
    (c : ℕ) (s : List ℕ)
    → Digits (c ∷ s)
    → value 0 (c ∷ s) < 2 ^ 31
    → parse_nonneg_int (c ∷ s) ≡ pos (value 0 (c ∷ s))
unfolding parse_nonneg_int
parse_nonneg_int-value c s d h = nonneg_loop-value (c ∷ s) 0 d h

-- `parse_nonneg_int` refuses the empty string and every string with a byte that is no digit.
pub parse_nonneg_int-refuses :
    (s : List ℕ) → (s ≡ []) ⊎ (all_digits s ≡ false) → parse_nonneg_int s ≡ minus_one
unfolding parse_nonneg_int
parse_nonneg_int-refuses [] h = refl
parse_nonneg_int-refuses (c ∷ s) (inl e) = cc
parse_nonneg_int-refuses (c ∷ s) (inr e) = nonneg_loop-bad (c ∷ s) 0 e

atoi_loop-value :
    (s rest : List ℕ) (n : ℕ)
    → Digits s
    → is_digit (deref rest) ≡ false
    → value n s < 2 ^ 32
    → atoi_loop (s ++ rest) n ≡ value n s
unfolding atoi_loop value
atoi_loop-value [] [] n d stop h = refl
atoi_loop-value [] (c ∷ rest) n d stop h = ground arith
atoi_loop-value (c ∷ s) rest n (dc, ds) stop h =
    let small : n * 10 + (c - b'0') < 2 ^ 32 = omega (arith, value-le (n * 10 + (c - b'0')) s) in
    let e : push_digit n c ≡ n * 10 + (c - b'0') = omega arith in
    rw e (ground (arith, atoi_loop-value s rest (n * 10 + (c - b'0')) ds stop h))

-- `atoi` reads the digits in front of the first byte that is none, with a minus sign if there is
-- one, as long as the number fits.
pub atoi-value :
    (c : ℕ) (s rest : List ℕ)
    → Digits (c ∷ s)
    → is_digit (deref rest) ≡ false
    → value 0 (c ∷ s) < 2 ^ 31
    → (atoi (c ∷ s ++ rest) ≡ pos (value 0 (c ∷ s)))
      × (atoi (b'-' ∷ c ∷ s ++ rest) ≡ neg (pos (value 0 (c ∷ s))))
unfolding atoi atoi_bits
atoi-value c s rest d stop h =
    let e : atoi_loop (c ∷ s ++ rest) 0 ≡ value 0 (c ∷ s) =
      atoi_loop-value (c ∷ s) rest 0 d stop (omega arith) in
    (ground arith, ground arith)

abbrev pub NoNul : List ℕ → Type 0
NoNul [] = Unit
NoNul (c ∷ s) = (c ≢ 0) × NoNul s

-- `strcmp` is 0 exactly for equal strings.
pub strcmp-eq-zero : (p q : List ℕ) → NoNul p → NoNul q → (strcmp p q ≡ pos 0) ↔ (p ≡ q)
unfolding strcmp
strcmp-eq-zero [] [] hp hq = (λ h. refl, λ h. refl)
strcmp-eq-zero [] (d ∷ q) hp hq = (λ h. ground arith, λ h. cc)
strcmp-eq-zero (c ∷ p) [] hp hq = (λ h. ground arith, λ h. cc)
strcmp-eq-zero (c ∷ p) (d ∷ q) hp hq =
    let (to, from) = strcmp-eq-zero p q hp.1 hq.1 in
    (λ h. ground (arith, to), λ h. ground (arith, from))
