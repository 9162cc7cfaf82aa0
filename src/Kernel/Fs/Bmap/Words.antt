-- ===== src/Kernel/Fs/Bmap/Words.antt =====
-- The words of a block.
use os_proj.Base.{ℕ, ◌+◌, ◌*◌, ◌%◌, ◌≤◌, ◌⊎◌, inl, inr, ◌<◌, ◌≡◌, ◌≢◌, arith}
use os_proj.Kernel.Fs.{Block}
use os_proj.Kernel.Fs.Bmap.{get_word, put_word}

pub get_word-put_word : (bp : Block) (j v : ℕ) → v < 4294967296 → get_word (put_word bp j v) j ≡ v
unfolding get_word put_word
get_word-put_word bp j v lt = ground arith

pub get_word-put_word_ne :
    (bp : Block) (j k v : ℕ) → k ≢ j → get_word (put_word bp j v) k ≡ get_word bp k
unfolding get_word put_word
get_word-put_word_ne bp j k v ne = ground arith

pub get_word-zero : (j : ℕ) → get_word (λ i. 0) j ≡ 0
unfolding get_word
get_word-zero j = omega arith

pub get_word-put_word_mod : (bp : Block) (j v : ℕ) → get_word (put_word bp j v) j ≡ v % 4294967296
unfolding get_word put_word
get_word-put_word_mod bp j v = ground arith

pub put_word-out :
    (bp : Block) (j v x : ℕ) → (x < 4 * j) ⊎ (4 * j + 4 ≤ x) → put_word bp j v x ≡ bp x
unfolding put_word
put_word-out bp j v x (inl lt) = ground arith
put_word-out bp j v x (inr ge) = ground arith

pub get_word-below :
    (bp bp' : Block) (j : ℕ)
    → ((x : ℕ) → 4 * j ≤ x → x < 4 * j + 4 → bp' x ≡ bp x)
    → get_word bp' j ≡ get_word bp j
unfolding get_word
get_word-below bp bp' j same = ground (
  arith,
  same (4 * j) (omega arith) (omega arith),
  same (4 * j + 1) (omega arith) (omega arith),
  same (4 * j + 2) (omega arith) (omega arith),
  same (4 * j + 3) (omega arith) (omega arith),
)
