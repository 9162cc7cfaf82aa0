-- ===== src/Kernel/Bio.antt =====
-- kernel/bio.c: the buffer cache. The links of the buffers are the list of their numbers from the
-- most recently used one on; the sleep locks of the buffers and their contents are left out.
pub mod Cache
pub mod Examples
use os_proj.Base.{
  ℕ, zero, suc, ◌+◌, ◌-◌, ◌%◌, ◌&&◌, Bool, true, false, not, Option, none, some, List, [], ◌∷◌,
  ◌++◌, ◌==◌, if◌then◌else◌, update, Res, ok, panic,
}

abbrev pub nbuf : ℕ
nbuf = 30

-- `struct buf`, less its lock, links and data.
pub record Buf : Type 0 where
  pub valid : Bool
  pub dev : ℕ
  pub blockno : ℕ
  pub refcnt : ℕ

pub record Bcache : Type 0 where
  pub buf : ℕ → Buf
  pub order : List ℕ

-- The loop of `binit`, with `k` buffers left, from number `i` on: each goes to the front.
pub binit_loop : ℕ → ℕ → List ℕ → List ℕ
binit_loop zero i order = order
binit_loop (suc k) i order = binit_loop k (i + 1) (i ∷ order)

pub binit : (ℕ → Buf) → Bcache
binit buf = record { buf = buf; order = binit_loop nbuf 0 [] }

-- The first buffer of a list that passes.
pub find_buf : (ℕ → Bool) → List ℕ → Option ℕ
find_buf test [] = none
find_buf test (b ∷ bs) = let rest = find_buf test bs in if test b then some b else rest

abbrev pub holds_block : (ℕ → Buf) → ℕ → ℕ → ℕ → Bool
holds_block buf dev blockno b = (buf b).dev == dev && (buf b).blockno == blockno

abbrev pub is_free : (ℕ → Buf) → ℕ → Bool
is_free buf b = (buf b).refcnt == 0

pub reverse : List ℕ → List ℕ
reverse [] = []
reverse (b ∷ bs) = reverse bs ++ b ∷ []

-- What `bget` does with a cached buffer, and with one that it recycles.
abbrev pub take_cached : ℕ → Bcache → Bcache
take_cached b c = record c {
  buf = update c.buf b (record (c.buf b) { refcnt = ((c.buf b).refcnt + 1) % 4294967296 });
}

abbrev pub recycle : ℕ → ℕ → ℕ → Bcache → Bcache
recycle dev blockno b c = record c {
  buf = update c.buf b (record { valid = false; dev = dev; blockno = blockno; refcnt = 1 });
}

pub bget_with : Option ℕ → Option ℕ → ℕ → ℕ → Bcache → Res (ℕ × Bcache)
bget_with (some b) spare dev blockno c = ok (b, take_cached b c)
bget_with none (some b) dev blockno c = ok (b, recycle dev blockno b c)
bget_with none none dev blockno c = panic

-- `bget` up to the sleep lock of the buffer.
pub bget : ℕ → ℕ → Bcache → Res (ℕ × Bcache)
unfolding bget_with
bget dev blockno c =
    bget_with (find_buf (holds_block c.buf dev blockno) c.order)
      (find_buf (is_free c.buf) (reverse c.order)) dev blockno c

-- Without a number.
pub unlink : ℕ → List ℕ → List ℕ
unlink b [] = []
unlink b (x ∷ xs) = let rest = unlink b xs in if x == b then rest else x ∷ rest

-- `brelse` behind the sleep lock.
pub brelse : ℕ → Bcache → Bcache
brelse b c =
    let n = ((c.buf b).refcnt + 4294967295) % 4294967296 in
    let buf' = update c.buf b (record (c.buf b) { refcnt = n }) in
    record { buf = buf'; order = if n == 0 then b ∷ unlink b c.order else c.order }
