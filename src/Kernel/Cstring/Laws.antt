-- ===== src/Kernel/Cstring/Laws.antt =====
-- What the functions of kernel/string.c write and return.
use os_proj.Base.{
  ℕ, zero, suc, ◌+◌, ◌-◌, ◌%◌, ◌≤◌, ◌≡◌, ◌≢◌, ◌⊎◌, ◌&&◌, List, [], ◌∷◌, ◌++◌, ltb, leb,
  if◌then◌else◌, update, pos, replicate, arith, refl, ap, take, ◌↔◌, sym,
}
use os_proj.Kernel.Cstring.{
  memset, memset_loop, move_down, move_up, memmove, strncmp, strncpy, safestrcpy, safestrcpy_loop,
}

move_up_lem :
    (n d s : ℕ) (m : ℕ → ℕ) (a : ℕ)
    → (d ≤ s) ⊎ (s + n ≤ d)
    → move_up n d s m a ≡ (if leb d a && ltb a (d + n) then m (s + (a - d)) else m a)
unfolding move_up
move_up_lem zero d s m a h = ground arith
move_up_lem (suc n) d s m a h = ground (arith, move_up_lem n (d + 1) (s + 1) (update m d (m s)) a)

move_down_lem :
    (n d s : ℕ) (m : ℕ → ℕ) (a : ℕ)
    → s ≤ d
    → move_down n (d + n) (s + n) m a ≡ (if leb d a && ltb a (d + n) then m (s + (a - d)) else m a)
unfolding move_down
move_down_lem zero d s m a h = ground arith
move_down_lem (suc n) d s m a h =
    let ed : d + suc n - 1 ≡ d + n = omega arith in
    let es : s + suc n - 1 ≡ s + n = omega arith in
    rw (ed, es) (ground (arith, move_down_lem n d s (update m (d + n) (m (s + n))) a))

-- `memmove` copies as if through a buffer, also where the areas overlap, and writes nothing else.
pub memmove_lem :
    (dst src n : ℕ) (m : ℕ → ℕ) (a : ℕ)
    → memmove dst src n m a ≡ (if leb dst a && ltb a (dst + n) then m (src + (a - dst)) else m a)
unfolding memmove
memmove_lem dst src n m a = ground (arith, move_up_lem n dst src m a, move_down_lem n dst src m a)

memset_loop_lem :
    (dst c k i : ℕ) (m : ℕ → ℕ) (a : ℕ)
    → memset_loop dst c k i m a ≡ (if leb (dst + i) a && ltb a (dst + i + k) then c % 256 else m a)
unfolding memset_loop
memset_loop_lem dst c zero i m a = ground arith
memset_loop_lem dst c (suc k) i m a =
    ground (arith, memset_loop_lem dst c k (i + 1) (update m (dst + i) (c % 256)) a)

-- `memset` fills the area with the low byte of its argument and writes nothing else.
pub memset_lem :
    (dst c n : ℕ) (m : ℕ → ℕ) (a : ℕ)
    → memset dst c n m a ≡ (if leb dst a && ltb a (dst + n) then c % 256 else m a)
unfolding memset
memset_lem dst c n m a = ground (arith, memset_loop_lem dst c n 0 m a)

safestrcpy_loop-take : (t : List ℕ) (n : ℕ) → safestrcpy_loop t (suc n) ≡ take n t
unfolding safestrcpy_loop
safestrcpy_loop-take t zero = refl
safestrcpy_loop-take [] (suc n) = refl
safestrcpy_loop-take (c ∷ t) (suc n) = ap (λ (r : List ℕ). c ∷ r) (safestrcpy_loop-take t n)

-- `safestrcpy` into a buffer of `n > 0` bytes keeps the first `n - 1` bytes of the string.
pub safestrcpy-take : (old t : List ℕ) (n : ℕ) → safestrcpy old t (suc n) ≡ take n t
unfolding safestrcpy
safestrcpy-take old t n = ground (arith, safestrcpy_loop-take t n)

take-replicate : (n k : ℕ) → n ≤ k → take {A = ℕ} n (replicate k 0) ≡ replicate n 0
take-replicate zero k h = refl
take-replicate (suc n) zero h = elim h [ ]
take-replicate (suc n) (suc k) h = ap (λ (r : List ℕ). 0 ∷ r) (take-replicate n k (omega arith))

strncpy-fill : (t : List ℕ) (n k : ℕ) → n ≤ k → strncpy t n ≡ take n (t ++ replicate k 0)
unfolding strncpy
strncpy-fill t zero k h = refl
strncpy-fill [] (suc n) zero h = elim h [ ]
strncpy-fill [] (suc n) (suc k) h =
    ap (λ (r : List ℕ). 0 ∷ r) (sym (take-replicate n k (omega arith)))
strncpy-fill (c ∷ t) (suc n) k h = ap (λ (r : List ℕ). c ∷ r) (strncpy-fill t n k (omega arith))

-- The `n` bytes of `strncpy` are the string cut or filled up with NULs.
pub strncpy-take : (t : List ℕ) (n : ℕ) → strncpy t n ≡ take n (t ++ replicate n 0)
strncpy-take t n = strncpy-fill t n n (omega arith)

abbrev pub NoNul : List ℕ → Type 0
NoNul [] = Unit
NoNul (c ∷ s) = (c ≢ 0) × NoNul s

-- `strncmp` is 0 exactly for strings that agree in their first `n` bytes.
pub strncmp-eq-zero :
    (p q : List ℕ) (n : ℕ) → NoNul p → NoNul q → (strncmp p q n ≡ pos 0) ↔ (take n p ≡ take n q)
unfolding strncmp
strncmp-eq-zero p q zero hp hq = (λ _. refl, λ _. refl)
strncmp-eq-zero [] [] (suc n) hp hq = (λ _. refl, λ _. refl)
strncmp-eq-zero [] (d ∷ q) (suc n) hp hq = (λ h. ground arith, λ h. ground arith)
strncmp-eq-zero (c ∷ p) [] (suc n) hp hq = (λ h. ground arith, λ h. ground arith)
strncmp-eq-zero (c ∷ p) (d ∷ q) (suc n) hp hq =
    let (to, from) = strncmp-eq-zero p q n hp.1 hq.1 in
    (λ h. ground (arith, to), λ h. ground (arith, from))
