-- ===== src/Kernel/Log.antt =====
-- kernel/log.c: the redo log of the file system, over the contract of the buffer cache.
pub mod Examples
pub mod Loops
pub mod Recovery
pub mod Crash
pub mod Restart
pub mod Ops
pub mod Append
pub mod Space
use os_proj.Base.{
  ℕ, zero, suc, ◌+◌, ◌-◌, ◌*◌, ◌%◌, ◌^◌, ◌||◌, Bool, true, false, Option, none, some, ltb, leb,
  ◌==◌, if◌then◌else◌, update, Res, ok, panic, ◌>>=◌, ◌>>◌, panic_if,
}

-- A disk block as its 32-bit words.
abbrev pub Block : Type 0
Block = ℕ → ℕ

-- What bio.c promises: `bread` of block `b` returns `mem b`, and `bwrite` also writes the disk.
-- `power` is the number of disk writes that still reach the disk before the machine stops.
pub record Store : Type 0 where
  pub mem : ℕ → Block
  pub disk : ℕ → Block
  pub pins : ℕ → ℕ
  pub power : ℕ

abbrev pub bread : Store → ℕ → Block
bread s b = s.mem b

pub bwrite : ℕ → Block → Store → Store
bwrite b v s = record s {
  mem = update s.mem b v;
  disk = if s.power == 0 then s.disk else update s.disk b v;
  power = s.power - 1;
}

pub bpin : ℕ → Store → Store
bpin b s = record s { pins = update s.pins b ((s.pins b + 1) % 2 ^ 32) }

pub bunpin : ℕ → Store → Store
bunpin b s = record s { pins = update s.pins b ((s.pins b + 2 ^ 32 - 1) % 2 ^ 32) }

-- The machine stops and starts again: memory is lost, and `k` more disk writes will succeed.
pub reboot : ℕ → Store → Store
reboot k s = record { mem = s.disk; disk = s.disk; pins = λ _. 0; power = k }

-- `struct logheader`.
pub record Header : Type 0 where
  pub n : ℕ
  pub block : ℕ → ℕ

-- `struct log`, less its lock and `dev`.
pub record Log : Type 0 where
  pub start : ℕ
  pub size : ℕ
  pub outstanding : ℕ
  pub committing : Bool
  pub lh : Header

abbrev pub maxopblocks : ℕ
maxopblocks = 10

abbrev pub logsize : ℕ
logsize = maxopblocks * 3

-- The loop of `install_trans`: `k` rounds are left, the first with index `tail`.
pub install_loop : Bool → ℕ → (ℕ → ℕ) → ℕ → ℕ → Store → Store
install_loop recovering start block zero tail s = s
install_loop recovering start block (suc k) tail s =
    let s' = bwrite (block tail) (bread s (start + tail + 1)) s in
    install_loop recovering start block k (tail + 1)
      (if recovering then s' else bunpin (block tail) s')

pub install_trans : Bool → Log → Store → Store
install_trans recovering l s = install_loop recovering l.start l.lh.block l.lh.n 0 s

-- `for (i = 0; i < n; i++) dst[i] = src[i]`, from the index `i` with `k` rounds left.
pub copy_words : ℕ → ℕ → (ℕ → ℕ) → (ℕ → ℕ) → ℕ → ℕ
copy_words zero i src dst = dst
copy_words (suc k) i src dst = copy_words k (i + 1) src (update dst i (src i))

-- The header lies in its block as `n` in word 0 and `block[i]` in word `i + 1`.
pub words_of : Header → Block → Block
unfolding copy_words
words_of h b zero = h.n
words_of h b (suc i) = copy_words h.n 0 h.block (λ j. b (suc j)) i

pub read_head : Log → Store → Log
unfolding copy_words
read_head l s =
    let b = bread s l.start in
    record l { lh = record { n = b 0; block = copy_words (b 0) 0 (λ i. b (suc i)) l.lh.block } }

pub write_head : Log → Store → Store
unfolding bwrite words_of
write_head l s = bwrite l.start (words_of l.lh (bread s l.start)) s

abbrev pub clear_n : Log → Log
clear_n l = record l { lh = record { n = 0; block = l.lh.block } }

pub recover_from_log : Log → Store → Log × Store
unfolding read_head write_head install_trans
recover_from_log l s =
    let l' = read_head l s in
    let s' = install_trans true l' s in (clear_n l', write_head (clear_n l') s')

-- `initlog` on the zeroed `log`; its size check is a constant that is false.
pub initlog : ℕ → ℕ → Store → Log × Store
unfolding recover_from_log
initlog logstart nlog s =
    recover_from_log
      (record {
        start = logstart;
        size = nlog;
        outstanding = 0;
        committing = false;
        lh = record { n = 0; block = λ _. 0 };
      })
      s

-- The loop of `write_log`.
pub write_log_loop : ℕ → (ℕ → ℕ) → ℕ → ℕ → Store → Store
write_log_loop start block zero tail s = s
write_log_loop start block (suc k) tail s =
    write_log_loop start block k (tail + 1) (bwrite (start + tail + 1) (bread s (block tail)) s)

pub write_log : Log → Store → Store
write_log l s = write_log_loop l.start l.lh.block l.lh.n 0 s

pub commit : Log → Store → Log × Store
unfolding write_log write_head install_trans
commit l s =
    if ltb 0 l.lh.n
    then (let s₁ = write_log l s in
        let s₂ = write_head l s₁ in
        let s₃ = install_trans false l s₂ in (clear_n l, write_head (clear_n l) s₃))
    else (l, s)

-- One pass of the loop of `begin_op`; `none` is a sleep, after which the loop runs again.
pub begin_op : Log → Option Log
begin_op l =
    if l.committing
    then none
    else if ltb logsize (l.lh.n + (l.outstanding + 1) * maxopblocks)
    then none
    else some (record l { outstanding = l.outstanding + 1 })

-- `end_op` up to the first `release`: the new log, and whether to commit. Only a misplaced `end_op`
-- meets `outstanding` at 0; it commits nothing, and the count stays at 0 here.
pub end_op_start : Log → Res (Log × Bool)
end_op_start l = do
  let m = record l { outstanding = l.outstanding - 1 }
  panic_if m.committing
  if l.outstanding == 1 then ok (record m { committing = true }, true) else ok (m, false)

pub end_op : Log → Store → Res (Log × Store)
unfolding end_op_start commit
end_op l s = do
  (m, do_commit) ← end_op_start l
  let (m', s') = commit m s
  if do_commit then ok (record m' { committing = false }, s') else ok (m, s)

-- The search loop of `log_write`: the first index from `i` on that holds `b`, or the end.
pub find_block : (ℕ → ℕ) → ℕ → ℕ → ℕ → ℕ
find_block block b zero i = i
find_block block b (suc k) i = if block i == b then i else find_block block b k (i + 1)

pub log_write : ℕ → Log → Store → Res (Log × Store)
unfolding find_block bpin
log_write b l s = do
  panic_if (leb logsize l.lh.n || leb (l.size - 1) l.lh.n)
  panic_if (ltb l.outstanding 1)
  let i = find_block l.lh.block b l.lh.n 0
  let block' = update l.lh.block i b
  if i == l.lh.n
      then ok (record l { lh = record { n = l.lh.n + 1; block = block' } }, bpin b s)
      else ok (record l { lh = record { n = l.lh.n; block = block' } }, s)
