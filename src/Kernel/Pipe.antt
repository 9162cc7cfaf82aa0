-- ===== src/Kernel/Pipe.antt =====
-- kernel/pipe.c. A run of `pipewrite` or `piperead` is cut where it sleeps, since it gives up
-- `pi->lock` there: each piece is one function from the pipe to the pipe, and a piece that sleeps
-- says what is left for the next one. A user address range is the list of its bytes for `copyin`,
-- `none` where it fails, and the list of the answers for `copyout`.
pub mod Examples
pub mod Ring
pub mod Write
pub mod Read
pub mod Fifo
use os_proj.Base.{
  ℕ, zero, suc, ◌+◌, ◌%◌, ◌&&◌, ◌||◌, Bool, true, false, not, Option, none, some, List, [], ◌∷◌,
  ◌==◌, if◌then◌else◌, update, ℤ, pos, minus_one,
}

abbrev pub pipesize : ℕ
pipesize = 512

-- One more than the largest `uint`.
abbrev pub uint_size : ℕ
uint_size = 4294967296

-- `struct pipe`, less its lock; `buf` is its array `data`.
pub record Pipe : Type 0 where
  pub buf : ℕ → ℕ
  pub nread : ℕ
  pub nwrite : ℕ
  pub readopen : Bool
  pub writeopen : Bool

-- The two channels, `&pi->nread` and `&pi->nwrite`.
pub data End : Type 0 where
  nread_chan nwrite_chan : End

-- What `pipealloc` sets in a fresh page.
pub new_pipe : (ℕ → ℕ) → Pipe
new_pipe page = record { buf = page; nread = 0; nwrite = 0; readopen = true; writeopen = true }

-- The pipe, the channel that is woken, and whether the page is freed.
pub pipeclose : Pipe → Bool → Pipe × End × Bool
pipeclose pi writable =
    let after =
      if writable then record pi { writeopen = false } else record pi { readopen = false } in
    let woken = if writable then nread_chan else nwrite_chan in
    (after, woken, not after.readopen && not after.writeopen)

-- How a piece ends: with a return value, or asleep.
pub data Outcome (A : Type 0) : Type 0 where
  returns : ℤ → Outcome A
  sleeps : A → Outcome A

-- A piece of `pipewrite`: how it ends, the pipe, and whether readers are woken. What is left to a
-- sleeping writer is the bytes that are still to be written and `i`.
abbrev pub Writing : Type 0
Writing = Outcome (List (Option ℕ) × ℕ) × Pipe × Bool

-- `while(i < n)`, from `i` on, over the bytes from `addr + i` on.
pub pipewrite : Bool → List (Option ℕ) → ℕ → Pipe → Writing
pipewrite killed [] i pi = (returns (pos i), pi, true)
pipewrite killed (b ∷ bytes) i pi =
    if not pi.readopen || killed
    then (returns minus_one, pi, false)
    else if pi.nwrite == (pi.nread + pipesize) % uint_size
    then (sleeps (b ∷ bytes, i), pi, true)
    else elim b [
      | none ↦ (returns (pos i), pi, true)
      | some ch ↦ pipewrite killed bytes (i + 1) (record pi {
        buf = update pi.buf (pi.nwrite % pipesize) ch;
        nwrite = (pi.nwrite + 1) % uint_size;
      })
    ]

-- The copying loop of `piperead`: the bytes that reach the user, and the pipe. A byte whose copy
-- fails has been taken out of the pipe all the same.
pub read_loop : List Bool → Pipe → List ℕ × Pipe
read_loop [] pi = ([], pi)
read_loop (copied ∷ dst) pi =
    if pi.nread == pi.nwrite
    then ([], pi)
    else let ch = pi.buf (pi.nread % pipesize) in
      let pi' = record pi { nread = (pi.nread + 1) % uint_size } in
      elim copied [
        | false ↦ ([], pi')
        | true ↦ let (bytes, after) = read_loop dst pi' in (ch ∷ bytes, after)
      ]

-- A piece of `piperead`: how it ends, the bytes that reach the user, the pipe, and whether
-- writers are woken. The number of bytes is the value it returns.
abbrev pub Reading : Type 0
Reading = Outcome Unit × List ℕ × Pipe × Bool

abbrev pub count : List ℕ → ℕ
count [] = 0
count (c ∷ bytes) = suc (count bytes)

pub piperead : Bool → List Bool → Pipe → Reading
piperead killed dst pi =
    if pi.nread == pi.nwrite && pi.writeopen
    then if killed then (returns minus_one, [], pi, false) else (sleeps tt, [], pi, false)
    else let (bytes, after) = read_loop dst pi in (returns (pos (count bytes)), bytes, after, true)
