-- ===== src/Kernel/Pipe/Fifo.antt =====
-- Runs of a pipe of kernel/pipe.c: writes, reads and closes in any order.
use os_proj.Base.{
  ℕ, ◌≡◌, refl, ap, sym, ◌∙◌, Bool, true, false, Option, List, [], ◌∷◌, ◌++◌, arith, zero, suc, ◌+◌,
  ◌-◌, ◌≤◌, take, drop,
}
use mathlib.Core.List.{append_assoc}
use os_proj.Kernel.Pipe.{Pipe, new_pipe, pipeclose}
use os_proj.Kernel.Pipe.Ring.{bytes_from, used, contents, Valid}
use os_proj.Kernel.Pipe.Write.{accepted, written, take-nil, pipewrite-contents}
use os_proj.Kernel.Pipe.Read.{reached, tried, delivered, taken, read, piperead-contents}

-- The byte that a read loses, if its copy to the user fails: the one after those that were copied.
unfoldable pub lost : List Bool → Pipe → List ℕ
lost dst pi = take (tried dst - reached dst) (drop (reached dst) (contents pi))

one_at_most : (dst : List Bool) → (reached dst ≤ tried dst) × (tried dst ≤ reached dst + 1)
one_at_most [] = (omega arith, omega arith)
one_at_most (false ∷ dst) = (omega arith, omega arith)
one_at_most (true ∷ dst) = let (a, b) = one_at_most dst in (omega arith, omega arith)

take-take : (xs : List ℕ) (m n : ℕ) → m ≤ n → take n xs ≡ take m xs ++ take (n - m) (drop m xs)
take-take xs zero n le = let e : n - 0 ≡ n = omega arith in rw e refl
take-take xs (suc m) zero le = absurd (omega arith)
take-take [] (suc m) (suc n) le = sym (take-nil (suc n - suc m))
take-take (x ∷ xs) (suc m) (suc n) le =
    let e : suc n - suc m ≡ n - m = omega arith in
    rw e (ap (λ (r : List ℕ). x ∷ r) (take-take xs m n (omega arith)))

-- What leaves the pipe is what is handed over and what is lost.
delivered-lost :
    (killed : Bool) (dst : List Bool) (pi : Pipe)
    → Valid pi
    → taken dst pi ≡ delivered killed dst pi ++ lost dst pi
unfolding taken lost
delivered-lost killed dst pi v =
    take-take (contents pi) (reached dst) (tried dst) (one_at_most dst).0
    ∙ ap (λ (x : List ℕ). x ++ lost dst pi) (sym (piperead-contents killed dst pi v).0)

-- Every run: writes, reads and closes in any order, with all the bytes accepted so far and all
-- the bytes that reads have handed over or, where a copy failed, lost.
pub data Run : List ℕ → List ℕ → Pipe → Type 0 where
  start : (page : ℕ → ℕ) → Run [] [] (new_pipe page)
  writes :
      {w r : List ℕ} {pi : Pipe} (killed : Bool) (bytes : List (Option ℕ)) (i : ℕ)
      → Run w r pi
      → Run (w ++ accepted killed bytes pi) r (written killed bytes i pi)
  reads :
      {w r : List ℕ} {pi : Pipe} (killed : Bool) (dst : List Bool)
      → Run w r pi
      → Run w (r ++ (delivered killed dst pi ++ lost dst pi)) (read killed dst pi)
  closes :
      {w r : List ℕ} {pi : Pipe} (writable : Bool) → Run w r pi → Run w r (pipeclose pi writable).0

new_pipe-empty : (page : ℕ → ℕ) → ([] ≡ contents (new_pipe page)) × Valid (new_pipe page)
unfolding contents new_pipe used bytes_from
new_pipe-empty page =
    (refl, record { read_bound = omega arith; write_bound = omega arith; fits = omega arith })

pipeclose-contents :
    (pi : Pipe) (writable : Bool)
    → Valid pi
    → (contents (pipeclose pi writable).0 ≡ contents pi) × Valid (pipeclose pi writable).0
unfolding contents pipeclose used
pipeclose-contents pi false v =
    (refl, record { read_bound = v.read_bound; write_bound = v.write_bound; fits = v.fits })
pipeclose-contents pi true v =
    (refl, record { read_bound = v.read_bound; write_bound = v.write_bound; fits = v.fits })

-- In every run from a new pipe, of writes, reads and closes in any order, the bytes accepted so
-- far are, in this order, the bytes that the reads handed over, with the at most one byte that a
-- read loses to a failed copy at its end, and then the bytes in the pipe; the pipe is valid.
pub Run-fifo : {w r : List ℕ} {pi : Pipe} → Run w r pi → (w ≡ r ++ contents pi) × Valid pi
Run-fifo (start page) = new_pipe-empty page
Run-fifo (writes {w} {r} {pi} killed bytes i run) =
    let (e, v) = Run-fifo run in
    let (c, v') = pipewrite-contents killed bytes i pi v in
    let tail = accepted killed bytes pi in
    (
      ap (λ (q : List ℕ). q ++ tail) e
          ∙ append_assoc r (contents pi) tail
          ∙ ap (λ (q : List ℕ). r ++ q) (sym c),
      v',
    )
Run-fifo (reads {w} {r} {pi} killed dst run) =
    let (e, v) = Run-fifo run in
    let (d, c, v') = piperead-contents killed dst pi v in
    let out = delivered-lost killed dst pi v in
    let gone = delivered killed dst pi ++ lost dst pi in
    let rest = contents (read killed dst pi) in
    (
      e
          ∙ ap (λ (q : List ℕ). r ++ q) (c ∙ ap (λ (q : List ℕ). q ++ rest) out)
          ∙ sym (append_assoc r gone rest),
      v',
    )
Run-fifo (closes {w} {r} {pi} writable run) =
    let (e, v) = Run-fifo run in
    let (c, v') = pipeclose-contents pi writable v in (e ∙ ap (λ (q : List ℕ). r ++ q) (sym c), v')
