-- ===== src/Kernel/Cstring.antt =====
-- kernel/string.c: a C string is the list of its bytes before the NUL, memory a function from
-- addresses to bytes.
pub mod Laws
use os_proj.Base.{
  ℕ, zero, suc, ◌+◌, ◌-◌, ◌%◌, ◌<◌, ◌||◌, ◌&&◌, Bool, true, false, List, [], ◌∷◌, ◌++◌, ltb, leb,
  ◌==◌, if◌then◌else◌, update, ℤ, pos, sub_ℕ, replicate, length,
}

-- `cdst[i] = c` for `k` bytes from index `i` on; the assignment keeps the low byte.
memset_loop : ℕ → ℕ → ℕ → ℕ → (ℕ → ℕ) → ℕ → ℕ
memset_loop dst c zero i m = m
memset_loop dst c (suc k) i m = memset_loop dst c k (i + 1) (update m (dst + i) (c % 256))

pub memset : ℕ → ℕ → ℕ → (ℕ → ℕ) → ℕ → ℕ
unfolding memset_loop
memset dst c n m = memset_loop dst c n 0 m

-- The two areas lie at `s1` and `s2` in one memory.
pub memcmp : (ℕ → ℕ) → ℕ → ℕ → ℕ → ℤ
memcmp m s1 s2 zero = pos 0
memcmp m s1 s2 (suc n) =
    let rest = memcmp m (s1 + 1) (s2 + 1) n in if m s1 == m s2 then rest else sub_ℕ (m s1) (m s2)

-- `while(n-- > 0) *--d = *--s;`: the next byte is the one before `d` and `s`.
move_down : ℕ → ℕ → ℕ → (ℕ → ℕ) → ℕ → ℕ
move_down zero d s m = m
move_down (suc n) d s m = move_down n (d - 1) (s - 1) (update m (d - 1) (m (s - 1)))

move_up : ℕ → ℕ → ℕ → (ℕ → ℕ) → ℕ → ℕ
move_up zero d s m = m
move_up (suc n) d s m = move_up n (d + 1) (s + 1) (update m d (m s))

pub memmove : ℕ → ℕ → ℕ → (ℕ → ℕ) → ℕ → ℕ
unfolding move_down move_up
memmove dst src n m =
    if n == 0
    then m
    else if ltb src dst && ltb dst (src + n)
    then move_down n (dst + n) (src + n) m
    else move_up n dst src m

-- `*p`: the first byte, or the NUL.
abbrev pub deref : List ℕ → ℕ
deref [] = 0
deref (c ∷ s) = c

unfoldable pub strncmp : List ℕ → List ℕ → ℕ → ℤ
strncmp p q zero = pos 0
strncmp [] q (suc n) = sub_ℕ 0 (deref q)
strncmp (c ∷ p) [] (suc n) = sub_ℕ c 0
strncmp (c ∷ p) (d ∷ q) (suc n) = let rest = strncmp p q n in if c == d then rest else sub_ℕ c d

-- The `n` bytes that `strncpy` writes.
unfoldable pub strncpy : List ℕ → ℕ → List ℕ
strncpy t zero = []
strncpy [] (suc n) = 0 ∷ replicate n 0
strncpy (c ∷ t) (suc n) = c ∷ strncpy t n

-- The loop of `safestrcpy` with `n` as it stands before `--n`: the bytes copied before the final
-- NUL.
safestrcpy_loop : List ℕ → ℕ → List ℕ
safestrcpy_loop t zero = []
safestrcpy_loop t (suc zero) = []
safestrcpy_loop [] (suc (suc n)) = []
safestrcpy_loop (c ∷ t) (suc (suc n)) = c ∷ safestrcpy_loop t (suc n)

-- The string that the destination, a buffer of `n` bytes that held `old`, holds afterwards.
pub safestrcpy : List ℕ → List ℕ → ℕ → List ℕ
unfolding safestrcpy_loop
safestrcpy old t n = if n == 0 then old else safestrcpy_loop t n

pub strlen : List ℕ → ℕ
strlen [] = 0
strlen (c ∷ s) = strlen s + 1
