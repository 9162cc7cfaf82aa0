-- ===== src/User/Flags.antt =====
-- The option parsers of user/ulib.c: `find_opt`, `parse_flags` and `strip_flags`. An argument
-- vector is the list of its strings behind `argv[0]`.
pub mod Examples
pub mod Agree
use os_proj.Base.{
  ℕ, zero, suc, ◌+◌, ◌&&◌, ◌||◌, Bool, true, false, Option, none, some, List, [], ◌∷◌, ◌++◌, map,
  ◌==◌, if◌then◌else◌, not, get_elem?, set,
}
use os_proj.User.Ulib.{deref, contains_char}

-- `struct opt`.
pub record Opt : Type 0 where
  pub opt : ℕ
  pub has_arg : Bool
  pub seen : Bool
  pub arg : Option (List ℕ)

-- The index of the first option with this letter; `none` is -1.
pub find_opt : List Opt → ℕ → Option ℕ
find_opt [] ch = none
find_opt (o ∷ opts) ch =
    let rest = find_opt opts ch in
    if o.opt == ch then some 0 else elim rest [ none ↦ none | some i ↦ some (i + 1) ]

-- `opts[idx].seen = 1; opts[idx].arg = arg`; a flag without argument keeps its `arg`.
pub mark : Opt → Option (List ℕ) → Opt
mark o none = record o { seen = true }
mark o (some a) = record o { seen = true; arg = some a }

-- What the scan of one argument ends with: an error, or the options, and whether the next argument
-- was taken.
abbrev pub Scanned : Type 0
Scanned = Option (List Opt × Bool)

-- An option that needs an argument, at the end of its cluster or before the bytes `rest` of it,
-- with the next element of `argv`.
pub take_arg : List Opt → ℕ → Opt → List ℕ → Option (List ℕ) → Scanned
take_arg opts i o (c ∷ rest) next = some (set opts i (mark o (some (c ∷ rest))), false)
take_arg opts i o [] none = none
take_arg opts i o [] (some a) =
    if deref a == b'-' then none else some (set opts i (mark o (some a)), true)

-- The option that `find_opt` found.
abbrev pub opt_at : List Opt → Option ℕ → Option (ℕ × Opt)
opt_at opts none = none
opt_at opts (some i) = elim (get_elem? opts i) [ none ↦ none | some o ↦ some (i, o) ]

-- One letter of a cluster, with the option that was found for it; `later` is the rest of the loop.
abbrev pub letter_of :
    List Opt → List ℕ → Option (List ℕ) → (List Opt → Scanned) → Option (ℕ × Opt) → Scanned
letter_of opts rest next later none = none
letter_of opts rest next later (some (i, o)) =
    if o.has_arg then take_arg opts i o rest next else later (set opts i (mark o none))

-- The loop over the bytes of a cluster behind its dash.
pub parse_cluster : List Opt → List ℕ → Option (List ℕ) → Scanned
parse_cluster opts [] next = some (opts, false)
parse_cluster opts (ch ∷ rest) next =
    letter_of opts rest next (λ opts'. parse_cluster opts' rest next)
      (opt_at opts (find_opt opts ch))

-- A file name, or the single dash.
pub is_plain : List ℕ → Bool
is_plain [] = false
is_plain (c ∷ []) = true
is_plain (c ∷ d ∷ a) = not (c == b'-')

pub is_dashes : List ℕ → Bool
is_dashes (c ∷ d ∷ []) = c == b'-' && d == b'-'
is_dashes _ = false

abbrev pub next_of : List (List ℕ) → Option (List ℕ)
next_of [] = none
next_of (a ∷ args) = some a

-- `argv[write_i++] = a` before the rest of a scan.
abbrev pub keep : List ℕ → Option (List (List ℕ) × List Opt) → Option (List (List ℕ) × List Opt)
keep a none = none
keep a (some (kept, opts)) = some (a ∷ kept, opts)

-- The next turn of the loop, behind a cluster.
abbrev pub resume {ℓ} : {A : Type ℓ} → (Bool → List Opt → Option A) → Scanned → Option A
resume later none = none
resume later (some (opts, skip)) = later skip opts

-- The loop of `parse_flags`; with `skip` the first element was taken as an argument. The result
-- is the new argument vector behind `argv[0]` and the options; `none` is -1.
pub parse_args : Bool → List Opt → List (List ℕ) → Option (List (List ℕ) × List Opt)
parse_args skip opts [] = some ([], opts)
parse_args true opts (a ∷ args) = parse_args false opts args
parse_args false opts ([] ∷ args) = parse_args false opts args
parse_args false opts ((c ∷ a) ∷ args) = elim (is_plain (c ∷ a)) [
  | true ↦ keep (c ∷ a) (parse_args false opts args)
  | false ↦ elim (is_dashes (c ∷ a)) [
    | true ↦ some (args, opts)
    | false ↦
        resume (λ skip opts'. parse_args skip opts' args) (parse_cluster opts a (next_of args))
  ]
]

abbrev pub reset : Opt → Opt
reset o = record o { seen = false; arg = none }

pub parse_flags : List (List ℕ) → List Opt → Option (List (List ℕ) × List Opt)
parse_flags args opts = parse_args false (map reset opts) args

-- The loop of `strip_flags` over a cluster: an error, or whether the next argument is skipped.
pub strip_cluster : List ℕ → List ℕ → Option (List ℕ) → Option Bool
strip_cluster letters [] next = some false
strip_cluster letters (ch ∷ rest) next =
    let later = strip_cluster letters rest next in
    if contains_char letters ch
    then elim rest [ c ∷ _ ↦ some false | [] ↦ elim next [ none ↦ none | some a ↦ some true ] ]
    else later

abbrev pub kept_before : List ℕ → Option (List (List ℕ)) → Option (List (List ℕ))
kept_before a none = none
kept_before a (some kept) = some (a ∷ kept)

abbrev pub after_cluster : (Bool → Option (List (List ℕ))) → Option Bool → Option (List (List ℕ))
after_cluster later none = none
after_cluster later (some skip) = later skip

pub strip_args : Bool → List ℕ → List (List ℕ) → Option (List (List ℕ))
strip_args skip letters [] = some []
strip_args true letters (a ∷ args) = strip_args false letters args
strip_args false letters ([] ∷ args) = strip_args false letters args
strip_args false letters ((c ∷ a) ∷ args) = elim (is_plain (c ∷ a)) [
  | true ↦ kept_before (c ∷ a) (strip_args false letters args)
  | false ↦ elim (is_dashes (c ∷ a)) [
    | true ↦ some args
    | false ↦
        after_cluster (λ skip. strip_args skip letters args)
          (strip_cluster letters a (next_of args))
  ]
]

-- `strip_flags(argc, argv, letters)`.
pub strip_flags : List (List ℕ) → List ℕ → Option (List (List ℕ))
strip_flags args letters = strip_args false letters args
