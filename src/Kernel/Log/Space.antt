-- ===== src/Kernel/Log/Space.antt =====
-- The reservation of log space in kernel/log.c: file-system operations that begin, log blocks and
-- end, in any order.
use os_proj.Base.{
  ℕ, suc, ◌+◌, ◌*◌, ◌≤◌, ◌<◌, ◌≡◌, refl, sym, ap, ◌≢◌, ◌↔◌, inl, inr, false, arith, ◌∙◌, List, [],
  ◌∷◌, ◌++◌, length, panic,
}
use os_proj.Kernel.Log.{Store, Header, Log, log_write, maxopblocks, logsize}
use os_proj.Kernel.Log.Ops.{System, Step, begin, write, again, finish, init, Reach, here, next}
use os_proj.Kernel.Log.Append.{
  Distinct, log_write-Written, log_write-ne-panic, Written-Distinct, Written-log, end_op-Ended,
  begin_op-lem, Written-again,
}

abbrev pub sum : List ℕ → ℕ
sum [] = 0
sum (x ∷ xs) = x + sum xs

abbrev pub AllSmall : List ℕ → Type 0
AllSmall [] = Unit
AllSmall (x ∷ xs) = (x ≤ maxopblocks) × AllSmall xs

pub record Inv (size : ℕ) (s : System) : Type 0 where
  pub same_size : s.log.size ≡ size
  pub running : s.log.outstanding ≡ length s.ops
  pub idle : s.log.committing ≡ false
  pub small : AllSmall s.ops
  pub room : s.log.lh.n + sum s.ops ≤ logsize
  pub distinct :
      (i j : ℕ) → i < s.log.lh.n → j < s.log.lh.n → s.log.lh.block i ≡ s.log.lh.block j → i ≡ j

sum-middle : (xs ys : List ℕ) (x : ℕ) → sum (xs ++ x ∷ ys) ≡ x + sum (xs ++ ys)
sum-middle [] ys x = refl
sum-middle (z ∷ xs) ys x = omega (arith, sum-middle xs ys x)

length-middle : (xs ys : List ℕ) (x : ℕ) → length (xs ++ x ∷ ys) ≡ suc (length (xs ++ ys))
length-middle [] ys x = refl
length-middle (z ∷ xs) ys x = ap suc (length-middle xs ys x)

AllSmall-sum : (xs : List ℕ) → AllSmall xs → sum xs ≤ maxopblocks * length xs
AllSmall-sum [] a = omega arith
AllSmall-sum (x ∷ xs) a = omega (arith, AllSmall-sum xs a.1)

AllSmall-lower : (xs ys : List ℕ) (x : ℕ) → AllSmall (xs ++ suc x ∷ ys) → AllSmall (xs ++ x ∷ ys)
AllSmall-lower [] ys x a = (omega arith, a.1)
AllSmall-lower (z ∷ xs) ys x a = (a.0, AllSmall-lower xs ys x a.1)

AllSmall-drop : (xs ys : List ℕ) (x : ℕ) → AllSmall (xs ++ x ∷ ys) → AllSmall (xs ++ ys)
AllSmall-drop [] ys x a = a.1
AllSmall-drop (z ∷ xs) ys x a = (a.0, AllSmall-drop xs ys x a.1)

Step-Inv : {size : ℕ} {s t : System} → Step s t → Inv size s → Inv size t
Step-Inv {s} (begin {l} e) v =
    let (same, fits, idle) = begin_op-lem s.log e in
    record {
      same_size = ground arith;
      running = ground arith;
      idle = ground arith;
      small = (omega arith, v.small);
      room =
          let e : l.lh.n ≡ s.log.lh.n = ap (λ (m : Log). m.lh.n) same in
          omega (arith, AllSmall-sum s.ops v.small);
      distinct = rw same v.distinct;
    }
Step-Inv {s} (write b {l} before after left e w) v =
    let wr = log_write-Written b s.log s.store w in
    let (size, running, idle, grows) = Written-log b wr in
    record {
      same_size = size ∙ v.same_size;
      running =
          running
          ∙ v.running
          ∙ ap length e
          ∙ length-middle before after (suc left)
          ∙ sym (length-middle before after left);
      idle = idle ∙ v.idle;
      small = AllSmall-lower before after left (rw e at v.small);
      room =
          omega (arith, ap sum e, sum-middle before after (suc left), sum-middle before after left);
      distinct = Written-Distinct b wr v.distinct;
    }
Step-Inv {s} (again b i before after left e lt named w) v =
    rw (Written-again b i lt named (log_write-Written b s.log s.store w)) record {
      same_size = v.same_size;
      running = v.running;
      idle = v.idle;
      small = v.small;
      room = v.room;
      distinct = v.distinct;
    }
Step-Inv {s} (finish {l} before after left e w) v =
    let en = end_op-Ended s.log s.store w in
    record {
      same_size = en.size ∙ v.same_size;
      running = omega (arith, en.running, ap length e, length-middle before after left);
      idle = en.idle;
      small = AllSmall-drop before after left (rw e at v.small);
      room = elim (en.kept) [
        | inl same ↦
            let n_same : l.lh.n ≡ s.log.lh.n = ap (λ (h : Header). h.n) same in
            omega (arith, ap sum e, sum-middle before after left)
        | inr empty ↦ omega (arith, ap sum e, sum-middle before after left)
      ];
      distinct = elim (en.kept) [
        | inl same ↦ rw same v.distinct
        | inr empty ↦ λ i j hi hj q. absurd (omega arith)
      ];
    }

init-Inv : (start size : ℕ) (block : ℕ → ℕ) (t : Store) → Inv size (init start size block t)
init-Inv start size block t = record {
  same_size = refl;
  running = refl;
  idle = refl;
  small = tt;
  room = omega arith;
  distinct = λ i j hi hj q. absurd (omega arith);
}

pub Reach-Inv : {size : ℕ} {s t : System} → Inv size s → Reach s t → Inv size t
Reach-Inv v here = v
Reach-Inv v (next r st) = Step-Inv st (Reach-Inv v r)

-- In a log with more blocks than `LOGSIZE`, an operation that has logged fewer than `MAXOPBLOCKS`
-- blocks, where one that the log names already does not count, can log any other one, whatever the
-- operations have done so far: `log_write` does not panic.
pub log_write-reserved :
    (start size : ℕ) (block : ℕ → ℕ) (t : Store) {s : System}
    → logsize < size
    → Reach (init start size block t) s
    → (before after : List ℕ) (left : ℕ) → s.ops ≡ before ++ suc left ∷ after
    → (b : ℕ) → log_write b s.log s.store ≢ panic
log_write-reserved start size block t {s} big r before after left e b =
    let v = Reach-Inv (init-Inv start size block t) r in
    log_write-ne-panic b s.log s.store
      (omega (arith, v.room, ap sum e, sum-middle before after (suc left)))
      (omega (arith, v.room, v.same_size, ap sum e, sum-middle before after (suc left)))
      (omega (arith, v.running, ap length e, length-middle before after (suc left)))

-- In every run of operations that log at most `MAXOPBLOCKS` blocks each, where one that the log
-- names already does not count, on a log that is empty at first, the log never names a block
-- twice.
pub logged-Distinct :
    (start size : ℕ) (block : ℕ → ℕ) (t : Store) {s : System}
    → Reach (init start size block t) s
    → Distinct s.log.lh
logged-Distinct start size block t r = (Reach-Inv (init-Inv start size block t) r).distinct

-- In a log of `LOGSIZE` blocks, as mkfs makes it, an operation that has logged fewer than
-- `MAXOPBLOCKS` blocks, where one that the log names already does not count, is refused exactly
-- when one block less than `LOGSIZE` is logged.
pub log_write-mkfs :
    (start : ℕ) (block : ℕ → ℕ) (t : Store) {s : System}
    → Reach (init start logsize block t) s
    → (before after : List ℕ) (left : ℕ) → s.ops ≡ before ++ suc left ∷ after
    → (b : ℕ) → (log_write b s.log s.store ≡ panic) ↔ (s.log.lh.n + 1 ≡ logsize)
unfolding log_write
log_write-mkfs start block t {s} r before after left e b =
    let v = Reach-Inv (init-Inv start logsize block t) r in
    let room : s.log.lh.n < logsize =
      omega (arith, v.room, ap sum e, sum-middle before after (suc left)) in
    let running : 0 < s.log.outstanding =
      omega (arith, v.running, ap length e, length-middle before after (suc left)) in
    let size : s.log.size ≡ logsize = v.same_size in (λ h. ground arith, λ h. ground arith)
