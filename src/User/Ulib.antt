-- ===== src/User/Ulib.antt =====
-- The string functions of user/ulib.c. A C string is the list of its bytes before the NUL; `char`
-- is unsigned, as on RISC-V.
pub mod Examples
pub mod Numbers
pub mod Paths
use os_proj.Base.{
  ℕ, zero, suc, ◌+◌, ◌-◌, ◌*◌, ◌%◌, ◌^◌, ◌&&◌, ◌||◌, Bool, true, false, Option, none, some, List,
  [], ◌∷◌, ◌++◌, ltb, leb, ◌==◌, if◌then◌else◌, not, ℤ, pos, negsuc, minus_one, neg, sub_ℕ, length,
}

-- The value of a 32-bit pattern as an `int`.
abbrev pub to_int : ℕ → ℤ
to_int v = if ltb v (2 ^ 31) then pos v else negsuc (2 ^ 32 - 1 - v)

abbrev pub deref : List ℕ → ℕ
deref [] = 0
deref (c ∷ s) = c

pub strcmp : List ℕ → List ℕ → ℤ
strcmp [] q = sub_ℕ 0 (deref q)
strcmp (c ∷ p) [] = sub_ℕ c 0
strcmp (c ∷ p) (d ∷ q) = let rest = strcmp p q in if c == d then rest else sub_ℕ c d

pub strlen : List ℕ → ℕ
strlen [] = 0
strlen (c ∷ s) = strlen s + 1

-- The suffix that begins with the first `c`; the terminating NUL is never found.
pub strchr : List ℕ → ℕ → Option (List ℕ)
strchr [] c = none
strchr (d ∷ s) c = if d == c then some (d ∷ s) else strchr s c

-- `contains_char` on a string that is not null.
unfoldable pub contains_char : List ℕ → ℕ → Bool
contains_char [] c = false
contains_char (d ∷ s) c = if d == c then true else contains_char s c

abbrev pub is_digit : ℕ → Bool
is_digit c = leb b'0' c && leb c b'9'

-- One round of the loops that read digits, in 32 bits.
abbrev pub push_digit : ℕ → ℕ → ℕ
push_digit n c = (n * 10 + (c - b'0')) % 2 ^ 32

pub atoi_loop : List ℕ → ℕ → ℕ
atoi_loop [] n = n
atoi_loop (c ∷ s) n = let rest = atoi_loop s (push_digit n c) in if is_digit c then rest else n

-- `-x` in 32 bits.
abbrev pub negate : ℕ → ℕ
negate v = (2 ^ 32 - v) % 2 ^ 32

atoi_bits : List ℕ → ℕ
atoi_bits [] = 0
atoi_bits (c ∷ s) = let rest = atoi_bits s in if c == b'-' then negate rest else atoi_loop (c ∷ s) 0

pub atoi : List ℕ → ℤ
unfolding atoi_bits atoi_loop
atoi s = to_int (atoi_bits s)

pub all_digits : List ℕ → Bool
all_digits [] = true
all_digits (c ∷ s) = if ltb c b'0' || ltb b'9' c then false else all_digits s

pub is_valid_int : List ℕ → Bool
unfolding all_digits
is_valid_int [] = true
is_valid_int (c ∷ s) = if c == b'-' || c == b'+' then all_digits s else all_digits (c ∷ s)

pub nonneg_loop : List ℕ → ℕ → ℤ
nonneg_loop [] v = to_int v
nonneg_loop (c ∷ p) v =
    let rest = nonneg_loop p (push_digit v c) in
    if ltb c b'0' || ltb b'9' c then minus_one else rest

-- On a string that is not null.
pub parse_nonneg_int : List ℕ → ℤ
unfolding nonneg_loop
parse_nonneg_int [] = minus_one
parse_nonneg_int (c ∷ s) = nonneg_loop (c ∷ s) 0

-- `*p` for the last byte of a string; `before` is the byte that lies in front of it in memory,
-- which the source reads for an empty string.
pub last_byte : ℕ → List ℕ → ℕ
last_byte before [] = before
last_byte before (c ∷ s) = last_byte c s

-- `joinpath` with the string it leaves in `out_buffer`; `none` is the null pointer.
pub joinpath : ℕ → List ℕ → List ℕ → ℕ → Option (List ℕ)
unfolding last_byte strlen
joinpath before dir filename bufsize =
    if ltb bufsize (strlen dir + 1 + strlen filename + 1)
    then none
    else some ((if last_byte before dir == b'/' then dir else dir ++ b'/' ∷ []) ++ filename)

pub filename_loop : List ℕ → List ℕ → List ℕ
filename_loop dirname [] = dirname
filename_loop dirname (c ∷ p) = filename_loop (if c == b'/' then p else dirname) p

-- `getFilename`.
pub get_filename : List ℕ → List ℕ
unfolding filename_loop
get_filename path = filename_loop path path
