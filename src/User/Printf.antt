-- ===== src/User/Printf.antt =====
-- user/printf.c: `printint`, by the bytes that it writes.
pub mod Numbers
pub mod Examples
use os_proj.Base.{
  ℕ, zero, suc, ◌+◌, ◌-◌, ◌/◌, ◌%◌, ◌^◌, ◌&&◌, Bool, true, false, List, [], ◌∷◌, ltb, leb, ◌==◌,
  if◌then◌else◌,
}
use os_proj.User.Ulib.{negate}

-- `digits[k]`.
pub digit_at : ℕ → ℕ
digit_at k = if ltb k 10 then b'0' + k else b'A' + (k - 10)

-- The loop that fills `buf`, on fuel; `buf` is the list of its bytes, the last one first, which
-- is the order in which they are written.
pub digit_loop : ℕ → ℕ → ℕ → List ℕ → List ℕ
digit_loop zero base x buf = buf
digit_loop (suc fuel) base x buf =
    let rest = digit_loop fuel base (x / base) (digit_at (x % base) ∷ buf) in
    if x / base == 0 then digit_at (x % base) ∷ buf else rest

-- `sizeof(buf)`.
abbrev pub printint_buf : ℕ
printint_buf = 16

-- `xx` by its 32 bits.
pub printint : ℕ → ℕ → Bool → List ℕ
printint xx base sgn =
    if sgn && leb (2 ^ 31) xx
    then b'-' ∷ digit_loop printint_buf base (negate xx) []
    else digit_loop printint_buf base xx []
