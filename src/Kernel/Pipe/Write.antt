-- ===== src/Kernel/Pipe/Write.antt =====
-- `pipewrite` of kernel/pipe.c as the writing end of a queue of at most 512 bytes.
use os_proj.Base.{
  ℕ, zero, suc, ◌+◌, ◌-◌, ◌%◌, ◌<◌, ◌≡◌, ◌≢◌, refl, ap, sym, ◌∙◌, Bool, true, not, ◌&&◌, Option,
  none, some, List, [], ◌∷◌, ◌++◌, arith, take, if◌then◌else◌, Bool-cases, inl, inr, ℕ_discrete,
}
use mathlib.Core.List.{append-nil, append_assoc}
use os_proj.Kernel.Pipe.{Pipe, pipesize, uint_size, pipewrite}
use os_proj.Kernel.Pipe.Ring.{used, contents, Valid, push, used-push, push-Valid, contents-push}

-- The bytes that `copyin` delivers.
abbrev pub valid_prefix : List (Option ℕ) → List ℕ
valid_prefix [] = []
valid_prefix (none ∷ bytes) = []
valid_prefix (some c ∷ bytes) = c ∷ valid_prefix bytes

-- What a piece of `pipewrite` is to append: nothing for a killed writer or without a reader, and
-- otherwise what fits.
unfoldable pub accepted : Bool → List (Option ℕ) → Pipe → List ℕ
accepted killed bytes pi =
    if pi.readopen && not killed then take (pipesize - used pi) (valid_prefix bytes) else []

unfoldable pub written : Bool → List (Option ℕ) → ℕ → Pipe → Pipe
written killed bytes i pi = (pipewrite killed bytes i pi).1

full-used :
    (pi : Pipe) → Valid pi → pi.nwrite ≡ (pi.nread + pipesize) % uint_size → used pi ≡ pipesize
unfolding used
full-used pi v e = omega (arith, v.read_bound)

not_full :
    (pi : Pipe) → used pi ≢ pipesize → Valid pi → pi.nwrite ≢ (pi.nread + pipesize) % uint_size
not_full pi ne v e = ne (full-used pi v e)

pub take-nil : (n : ℕ) → take {A = ℕ} n [] ≡ []
take-nil zero = refl
take-nil (suc n) = refl

take-suc : (n : ℕ) (c : ℕ) (bytes : List ℕ) → 0 < n → take n (c ∷ bytes) ≡ c ∷ take (n - 1) bytes
take-suc zero c bytes lt = absurd (omega arith)
take-suc (suc n) c bytes lt = let e : suc n - 1 ≡ n = omega arith in rw e refl

accepted-nil : (killed : Bool) (pi : Pipe) → accepted killed [] pi ≡ []
unfolding accepted
accepted-nil killed pi = ground (arith, take-nil (pipesize - used pi))

accepted-none :
    (killed : Bool) (bytes : List (Option ℕ)) (pi : Pipe) → accepted killed (none ∷ bytes) pi ≡ []
unfolding accepted
accepted-none killed bytes pi = ground (arith, take-nil (pipesize - used pi))

stays :
    (killed : Bool) (bytes : List (Option ℕ)) (pi : Pipe)
    → accepted killed bytes pi ≡ []
    → contents pi ≡ contents pi ++ accepted killed bytes pi
stays killed bytes pi e = rw (e, append-nil (contents pi)) refl

accepted-push :
    (killed : Bool) (c : ℕ) (bytes : List (Option ℕ)) (pi : Pipe)
    → pi.readopen && not killed ≡ true
    → used (push c pi) ≡ suc (used pi)
    → used pi < pipesize
    → accepted killed (some c ∷ bytes) pi ≡ c ∷ accepted killed bytes (push c pi)
unfolding accepted push
accepted-push killed c bytes pi go e lt =
    let s = take-suc (pipesize - used pi) c (valid_prefix bytes) (omega arith) in
    let d : pipesize - used pi - 1 ≡ pipesize - used (push c pi) = omega arith in ground arith

written-push :
    (killed : Bool) (c : ℕ) (bytes : List (Option ℕ)) (i : ℕ) (pi : Pipe)
    → pi.readopen && not killed ≡ true
    → pi.nwrite ≢ (pi.nread + pipesize) % uint_size
    → written killed (some c ∷ bytes) i pi ≡ written killed bytes (i + 1) (push c pi)
unfolding written pipewrite push
written-push killed c bytes i pi go room = ground arith

-- From a valid pipe, a piece of `pipewrite` leaves a valid pipe whose contents are those before
-- and then, for a writer that is not killed and while the read end is open, as many of the
-- readable bytes as fit in 512; nothing otherwise.
pub pipewrite-contents :
    (killed : Bool) (bytes : List (Option ℕ)) (i : ℕ) (pi : Pipe)
    → Valid pi
    → (contents (written killed bytes i pi) ≡ contents pi ++ accepted killed bytes pi)
      × Valid (written killed bytes i pi)
unfolding pipewrite accepted written push
pipewrite-contents killed [] i pi v = (stays killed [] pi (accepted-nil killed pi), v)
pipewrite-contents killed (none ∷ bytes) i pi v =
    let e = stays killed (none ∷ bytes) pi (accepted-none killed bytes pi) in ground arith
pipewrite-contents killed (some c ∷ bytes) i pi v = elim (Bool-cases (pi.readopen && not killed)) [
  | inr stop ↦ let e = stays killed (some c ∷ bytes) pi (ground arith) in ground arith
  | inl go ↦ elim (ℕ_discrete pi.nwrite ((pi.nread + pipesize) % uint_size)) [
    | yes full ↦
        let n = full-used pi v full in
        let e = stays killed (some c ∷ bytes) pi (ground arith) in ground arith
    | no room ↦
        let (e, lt) = used-push c pi v room in
        let (ih, v') =
          pipewrite-contents killed bytes (i + 1) (push c pi) (push-Valid c pi v room) in
        let first = contents-push c pi v room in
        let more = accepted-push killed c bytes pi go e lt in
        let run = written-push killed c bytes i pi go room in
        let tail = accepted killed bytes (push c pi) in
        (
          ap contents run
              ∙ ih
              ∙ ap (λ (r : List ℕ). r ++ tail) first
              ∙ append_assoc (contents pi) (c ∷ []) tail
              ∙ ap (λ (r : List ℕ). contents pi ++ r) (sym more),
          rw run v',
        )
  ]
]
