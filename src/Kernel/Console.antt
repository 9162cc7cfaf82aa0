-- ===== src/Kernel/Console.antt =====
-- The input ring of kernel/console.c: `consoleintr` and `consoleread`. A run of `consoleread` is
-- cut where it sleeps. The echo is left out.
pub mod Input
pub mod Read
pub mod Examples
use os_proj.Base.{
  ℕ, zero, suc, ◌+◌, ◌-◌, ◌%◌, ◌&&◌, ◌||◌, Bool, true, false, not, Option, none, some, List, [],
  ◌∷◌, ltb, ◌==◌, if◌then◌else◌, update, ℤ, pos, minus_one,
}

abbrev pub input_buf_size : ℕ
input_buf_size = 128

-- One more than the largest `uint`.
abbrev pub uint_size : ℕ
uint_size = 4294967296

-- `cons`, less its lock.
pub record Cons : Type 0 where
  pub buf : ℕ → ℕ
  pub r : ℕ
  pub w : ℕ
  pub e : ℕ

-- `C(x)`.
abbrev pub ctrl : ℕ → ℕ
ctrl x = x - b'@'

-- `cons.e-1` and `cons.e-cons.r`, as `uint`.
abbrev pub before_e : Cons → ℕ
before_e c = (c.e + (uint_size - 1)) % uint_size

abbrev pub pending : Cons → ℕ
pending c = (c.e + (uint_size - c.r)) % uint_size

abbrev pub edited : Cons → ℕ
edited c = (c.e + (uint_size - c.w)) % uint_size

-- The loop of `C('U')`, on fuel; the bytes that are not yet a line are enough.
pub kill_line : ℕ → Cons → Cons
kill_line zero c = c
kill_line (suc fuel) c =
    if not (c.e == c.w) && not (c.buf (before_e c % input_buf_size) == b'\n')
    then kill_line fuel (record c { e = before_e c })
    else c

-- The `default` case: whether readers are woken, and the ring.
pub put : ℕ → Cons → Bool × Cons
put ch c =
    let byte = if ch == b'\r' then b'\n' else ch in
    let stored = record c {
      buf = update c.buf (c.e % input_buf_size) byte;
      e = (c.e + 1) % uint_size;
    } in
    if not (ch == 0) && ltb (pending c) input_buf_size
    then if byte == b'\n' || byte == ctrl b'D' || pending stored == input_buf_size
      then (true, record stored { w = stored.e })
      else (false, stored)
    else (false, c)

-- `consoleintr`, less the list of processes that `C('P')` prints.
pub consoleintr : ℕ → Cons → Bool × Cons
consoleintr ch c =
    if ch == ctrl b'P'
    then (false, c)
    else if ch == ctrl b'U'
    then (false, kill_line (edited c) c)
    else if ch == ctrl b'H' || ch == 127
    then (false, if c.e == c.w then c else record c { e = before_e c })
    else put ch c

-- How a piece of `consoleread` ends: with a return value, or asleep with what is left of the user's
-- range, the number of bytes copied so far in `copied`.
pub data Outcome : Type 0 where
  returns : ℤ → Outcome
  sleeps : (dst : List Bool) (copied : ℕ) → Outcome

-- The loop of `consoleread`. The user's range is the list of the answers of `either_copyout`; the
-- result holds the bytes that reach the user.
pub consoleread : Bool → List Bool → ℕ → Cons → Outcome × List ℕ × Cons
consoleread killed [] copied c = (returns (pos copied), [], c)
consoleread killed (answer ∷ dst) copied c =
    if c.r == c.w
    then (if killed then returns minus_one else sleeps (answer ∷ dst) copied, [], c)
    else let ch = c.buf (c.r % input_buf_size) in
      let c' = record c { r = (c.r + 1) % uint_size } in
      let (end, bytes, after) = consoleread killed dst (copied + 1) c' in
      if ch == ctrl b'D'
      then (returns (pos copied), [], if ltb 0 copied then c else c')
      else if not answer
      then (returns (pos copied), [], c')
      else if ch == b'\n'
      then (returns (pos (copied + 1)), ch ∷ [], c')
      else (end, ch ∷ bytes, after)
