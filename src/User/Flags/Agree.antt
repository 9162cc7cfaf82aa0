-- ===== src/User/Flags/Agree.antt =====
-- The two option parsers of user/ulib.c side by side: `parse_flags`, which looks letters up in the
-- table of options, and `strip_flags`, which is given the letters that take an argument.
use os_proj.Base.{
  ℕ, zero, suc, ◌+◌, ◌≡◌, refl, sym, ◌∙◌, Bool, true, false, Option, none, some, List, [], ◌∷◌,
  ◌==◌, if◌then◌else◌, Bool-cases, Option-cases, inl, inr, get_elem?, set, map,
}
use os_proj.Base.{arith}
use os_proj.User.Ulib.{deref, contains_char}
use os_proj.User.Flags.{
  Opt, find_opt, mark, take_arg, opt_at, parse_cluster, is_plain, is_dashes, next_of, parse_args,
  reset, parse_flags, strip_cluster, strip_args, strip_flags,
}

-- Whether the first option with this letter takes an argument.
unfoldable pub needs : List Opt → ℕ → Option Bool
needs [] ch = none
needs (o ∷ opts) ch = let rest = needs opts ch in if o.opt == ch then some o.has_arg else rest

-- The letters are those of the options that take an argument.
abbrev pub Fits : List Opt → List ℕ → Type 0
Fits opts letters = (ch : ℕ) (b : Bool) → needs opts ch ≡ some b → contains_char letters ch ≡ b

needs-mark :
    (opts : List Opt) (i : ℕ) (o : Opt) (x : Option (List ℕ)) (ch : ℕ)
    → get_elem? opts i ≡ some o
    → needs (set opts i (mark o x)) ch ≡ needs opts ch
unfolding needs mark
needs-mark [] i o x ch g = refl
needs-mark (p ∷ opts) zero o none ch g = ground arith
needs-mark (p ∷ opts) zero o (some a) ch g = ground arith
needs-mark (p ∷ opts) (suc i) o x ch g = rw (needs-mark opts i o x ch g)

needs-reset : (opts : List Opt) (ch : ℕ) → needs (map reset opts) ch ≡ needs opts ch
unfolding needs
needs-reset [] ch = refl
needs-reset (p ∷ opts) ch = rw (needs-reset opts ch)

find_opt-needs :
    (opts : List Opt) (ch i : ℕ) (o : Opt)
    → find_opt opts ch ≡ some i
    → get_elem? opts i ≡ some o
    → needs opts ch ≡ some o.has_arg
unfolding needs find_opt
find_opt-needs [] ch i o f g = ground arith
find_opt-needs (p ∷ opts) ch i o f g = elim (Bool-cases (p.opt == ch)) [
  | inl y ↦ at_head y i f g
  | inr n ↦ elim (Option-cases (find_opt opts ch)) [
    | inl missing ↦ ground arith
    | inr (j, at_j) ↦
        let e : i ≡ j + 1 = ground arith in
        ground (arith, find_opt-needs opts ch j o at_j (ground arith))
  ]
]
  where
    at_head :
        p.opt == ch ≡ true
        → (i : ℕ) → find_opt (p ∷ opts) ch ≡ some i
        → get_elem? (p ∷ opts) i ≡ some o
        → needs (p ∷ opts) ch ≡ some o.has_arg
    at_head y zero f g = ground arith
    at_head y (suc i) f g = ground arith

Fits-mark :
    (opts : List Opt) (letters : List ℕ) (i : ℕ) (o : Opt) (x : Option (List ℕ))
    → get_elem? opts i ≡ some o
    → Fits opts letters
    → Fits (set opts i (mark o x)) letters
Fits-mark opts letters i o x g fits ch b e = fits ch b (sym (needs-mark opts i o x ch g) ∙ e)

-- The option that was found, with what the letters say of it.
found :
    (opts : List Opt) (letters : List ℕ) (ch i : ℕ) (o : Opt)
    → Fits opts letters
    → opt_at opts (find_opt opts ch) ≡ some (i, o)
    → (get_elem? opts i ≡ some o) × (contains_char letters ch ≡ o.has_arg)
found opts letters ch i o fits e = elim (Option-cases (find_opt opts ch)) [
  | inl missing ↦ ground arith
  | inr (j, at_j) ↦ elim (Option-cases (get_elem? opts j)) [
    | inl missing ↦ ground arith
    | inr (p, at_p) ↦
        let g : get_elem? opts i ≡ some o = ground arith in
        (g, fits ch o.has_arg (find_opt-needs opts ch i o (ground arith) g))
  ]
]

parse_cluster-takes :
    (opts : List Opt) (ch : ℕ) (rest : List ℕ) (next : Option (List ℕ)) (i : ℕ) (o : Opt)
    → opt_at opts (find_opt opts ch) ≡ some (i, o)
    → o.has_arg ≡ true
    → parse_cluster opts (ch ∷ rest) next ≡ take_arg opts i o rest next
unfolding parse_cluster
parse_cluster-takes opts ch rest next i o e h = rw (e, h)

parse_cluster-flag :
    (opts : List Opt) (ch : ℕ) (rest : List ℕ) (next : Option (List ℕ)) (i : ℕ) (o : Opt)
    → opt_at opts (find_opt opts ch) ≡ some (i, o)
    → o.has_arg ≡ false
    → parse_cluster opts (ch ∷ rest) next ≡ parse_cluster (set opts i (mark o none)) rest next
unfolding parse_cluster
parse_cluster-flag opts ch rest next i o e h = rw (e, h)

parse_cluster-unknown :
    (opts : List Opt) (ch : ℕ) (rest : List ℕ) (next : Option (List ℕ))
    → opt_at opts (find_opt opts ch) ≡ none
    → parse_cluster opts (ch ∷ rest) next ≡ none
unfolding parse_cluster
parse_cluster-unknown opts ch rest next e = rw e

take_arg-agree :
    (opts opts' : List Opt) (letters : List ℕ) (ch i : ℕ) (o : Opt) (rest : List ℕ)
    (next : Option (List ℕ)) (skip : Bool)
    → Fits opts letters
    → get_elem? opts i ≡ some o
    → contains_char letters ch ≡ true
    → take_arg opts i o rest next ≡ some (opts', skip)
    → (strip_cluster letters (ch ∷ rest) next ≡ some skip) × Fits opts' letters
unfolding take_arg strip_cluster
take_arg-agree opts opts' letters ch i o (c ∷ rest) next skip fits g in_letters e =
    let q : opts' ≡ set opts i (mark o (some (c ∷ rest))) = ground arith in
    (ground arith, rw q (Fits-mark opts letters i o (some (c ∷ rest)) g fits))
take_arg-agree opts opts' letters ch i o [] none skip fits g in_letters e = ground arith
take_arg-agree opts opts' letters ch i o [] (some a) skip fits g in_letters e =
    elim (Bool-cases (deref a == b'-')) [
      | inl y ↦ ground arith
      | inr n ↦
          let q : opts' ≡ set opts i (mark o (some a)) = ground arith in
          (ground arith, rw q (Fits-mark opts letters i o (some a) g fits))
    ]

cluster-agree :
    (opts opts' : List Opt) (letters rest : List ℕ) (next : Option (List ℕ)) (skip : Bool)
    → Fits opts letters
    → parse_cluster opts rest next ≡ some (opts', skip)
    → (strip_cluster letters rest next ≡ some skip) × Fits opts' letters
unfolding parse_cluster strip_cluster
cluster-agree opts opts' letters [] next skip fits e = end e
  where
    end :
        parse_cluster opts [] next ≡ some (opts', skip)
        → (strip_cluster letters [] next ≡ some skip) × Fits opts' letters
    end e = let q : opts' ≡ opts = ground arith in (ground arith, rw q fits)
cluster-agree opts opts' letters (ch ∷ rest) next skip fits e =
    elim (Option-cases (opt_at opts (find_opt opts ch))) [
      | inl missing ↦ let f = parse_cluster-unknown opts ch rest next missing in ground arith
      | inr ((i, o), at_i) ↦
          let (g, agrees) = found opts letters ch i o fits at_i in
          elim (Bool-cases o.has_arg) [
            | inl takes ↦
                take_arg-agree opts opts' letters ch i o rest next skip fits g (agrees ∙ takes)
                  (sym (parse_cluster-takes opts ch rest next i o at_i takes) ∙ e)
            | inr flag ↦
                let (s, fits') =
                  cluster-agree (set opts i (mark o none)) opts' letters rest next skip
                    (Fits-mark opts letters i o none g fits)
                    (sym (parse_cluster-flag opts ch rest next i o at_i flag) ∙ e) in
                (skipped (agrees ∙ flag) s, fits')
          ]
    ]
  where
    skipped :
        contains_char letters ch ≡ false
        → strip_cluster letters rest next ≡ some skip
        → strip_cluster letters (ch ∷ rest) next ≡ some skip
    skipped out s = ground arith

args-agree :
    (skip : Bool) (opts opts' : List Opt) (letters : List ℕ) (args kept : List (List ℕ))
    → Fits opts letters
    → parse_args skip opts args ≡ some (kept, opts')
    → strip_args skip letters args ≡ some kept
unfolding parse_args strip_args
args-agree skip opts opts' letters [] kept fits e = ground arith
args-agree true opts opts' letters (a ∷ args) kept fits e =
    args-agree false opts opts' letters args kept fits e
args-agree false opts opts' letters ([] ∷ args) kept fits e =
    args-agree false opts opts' letters args kept fits e
args-agree false opts opts' letters ((c ∷ a) ∷ args) kept fits e =
    elim (Bool-cases (is_plain (c ∷ a))) [
      | inl plain ↦ elim (Option-cases (parse_args false opts args)) [
        | inl fails ↦ ground arith
        | inr ((later, opts''), at_later) ↦
            let s = args-agree false opts opts'' letters args later fits at_later in ground arith
      ]
      | inr option ↦ elim (Bool-cases (is_dashes (c ∷ a))) [
        | inl dashes ↦ ground arith
        | inr cluster ↦ elim (Option-cases (parse_cluster opts a (next_of args))) [
          | inl fails ↦ ground arith
          | inr ((opts'', skip), at_skip) ↦
              let (s, fits') =
                cluster-agree opts opts'' letters a (next_of args) skip fits at_skip in
              let later : parse_args skip opts'' args ≡ some (kept, opts') = ground arith in
              let t = args-agree skip opts'' opts' letters args kept fits' later in ground arith
        ]
      ]
    ]

-- For letters that contain exactly those of the known options that take an argument: whenever
-- `parse_flags` accepts an argument vector, `strip_flags` accepts it too and keeps the same files
-- in the same order.
pub parse_flags-strip_flags :
    (opts opts' : List Opt) (letters : List ℕ) (args kept : List (List ℕ))
    → Fits opts letters
    → parse_flags args opts ≡ some (kept, opts')
    → strip_flags args letters ≡ some kept
unfolding parse_flags strip_flags
parse_flags-strip_flags opts opts' letters args kept fits e =
    args-agree false (map reset opts) opts' letters args kept
      (λ ch b n. fits ch b (sym (needs-reset opts ch) ∙ n)) e
