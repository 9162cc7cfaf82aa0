-- ===== src/Kernel/Log/Ops.antt =====
-- Runs of the log of kernel/log.c: file-system operations that begin, log blocks and end, in any
-- order.
use os_proj.Base.{ℕ, suc, ◌≡◌, ◌<◌, false, some, List, [], ◌∷◌, ◌++◌, ok}
use os_proj.Kernel.Log.{Store, Log, begin_op, end_op, log_write, maxopblocks}

-- A running operation is the number of blocks that it may still add to the log.
pub record System : Type 0 where
  pub log : Log
  pub store : Store
  pub ops : List ℕ

-- The reservation is of distinct blocks: `again` writes one that the log names already, which costs
-- nothing. A `write` may be of any block.
pub data Step (s : System) : System → Type 0 where
  begin :
      {l : Log}
      → begin_op s.log ≡ some l
      → Step s (record { log = l; store = s.store; ops = maxopblocks ∷ s.ops })
  write :
      (b : ℕ) {l : Log} {t : Store} (before after : List ℕ) (left : ℕ)
      → s.ops ≡ before ++ suc left ∷ after
      → log_write b s.log s.store ≡ ok (l, t)
      → Step s (record { log = l; store = t; ops = before ++ left ∷ after })
  again :
      (b i : ℕ) {l : Log} {t : Store} (before after : List ℕ) (left : ℕ)
      → s.ops ≡ before ++ left ∷ after
      → i < s.log.lh.n
      → s.log.lh.block i ≡ b
      → log_write b s.log s.store ≡ ok (l, t)
      → Step s (record { log = l; store = t; ops = s.ops })
  finish :
      {l : Log} {t : Store} (before after : List ℕ) (left : ℕ)
      → s.ops ≡ before ++ left ∷ after
      → end_op s.log s.store ≡ ok (l, t)
      → Step s (record { log = l; store = t; ops = before ++ after })

-- The log is empty after `initlog`.
abbrev pub init : ℕ → ℕ → (ℕ → ℕ) → Store → System
init start size block t = record {
  log = record {
    start = start;
    size = size;
    outstanding = 0;
    committing = false;
    lh = record { n = 0; block = block };
  };
  store = t;
  ops = [];
}

pub data Reach (s : System) : System → Type 0 where
  here : Reach s s
  next : {t u : System} → Reach s t → Step t u → Reach s u
