-- ===== src/User/Flags/Examples.antt =====
-- A concrete command line for the theorem on the option parsers of user/ulib.c.
use os_proj.Base.{ℕ, ◌≡◌, refl, true, false, none, some, List, [], ◌∷◌, arith, ℕ_discrete}
use os_proj.User.Ulib.{contains_char}
use os_proj.User.Flags.{
  Opt, find_opt, mark, take_arg, parse_cluster, is_plain, is_dashes, parse_args, parse_flags,
  strip_flags,
}
use os_proj.User.Flags.Agree.{needs, Fits, parse_flags-strip_flags}

-- `tail -f -n 5 file` with its options.
abbrev options : List Opt
options =
    record { opt = b'n'; has_arg = true; seen = false; arg = none }
    ∷ record { opt = b'f'; has_arg = false; seen = false; arg = none }
    ∷ []

abbrev parsed : List Opt
parsed =
    record { opt = b'n'; has_arg = true; seen = true; arg = some (b'5' ∷ []) }
    ∷ record { opt = b'f'; has_arg = false; seen = true; arg = none }
    ∷ []

abbrev command : List (List ℕ)
command = (b'-' ∷ b'f' ∷ []) ∷ (b'-' ∷ b'n' ∷ []) ∷ (b'5' ∷ []) ∷ (b'a' ∷ []) ∷ []

Fits-options : Fits options (b'n' ∷ [])
unfolding needs contains_char
Fits-options ch b e = elim (ℕ_discrete b'n' ch) [
  | yes n ↦ ground arith
  | no not_n ↦ elim (ℕ_discrete b'f' ch) [ yes f ↦ ground arith | no not_f ↦ ground arith ]
]

parse_flags-strip_flags_example : strip_flags command (b'n' ∷ []) ≡ some ((b'a' ∷ []) ∷ [])
unfolding find_opt mark take_arg parse_cluster is_plain is_dashes parse_args parse_flags needs
parse_flags-strip_flags_example =
    parse_flags-strip_flags options parsed (b'n' ∷ []) command ((b'a' ∷ []) ∷ []) Fits-options refl
