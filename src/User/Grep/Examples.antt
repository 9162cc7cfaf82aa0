-- ===== src/User/Grep/Examples.antt =====
-- Concrete patterns and texts for the theorems on user/grep.c.
use os_proj.Base.{ℕ, ◌+◌, ◌∙◌, ap, ◌≡◌, ◌↔◌, arith, true, List, [], ◌∷◌, length, length-append}
use os_proj.User.Grep.{accepts, matchstar, matchhere, match_from, match, grep}
use os_proj.User.Grep.Language.{Found, match-Found}
use os_proj.User.Grep.Lines.{lines, selected, left-length}
use os_proj.User.Grep.Output.{Short, grep-selected}

-- `a*b`.
abbrev pattern_ab : List ℕ
pattern_ab = b'a' ∷ b'*' ∷ b'b' ∷ []

match-Found_example :
    (match pattern_ab (b'x' ∷ b'a' ∷ b'b' ∷ []) ≡ true) ↔ Found pattern_ab (b'x' ∷ b'a' ∷ b'b' ∷ [])
match-Found_example = match-Found pattern_ab (b'x' ∷ b'a' ∷ b'b' ∷ [])

-- Two lines, of which the first matches, read in pieces.
abbrev text : List ℕ
text = b'a' ∷ b'b' ∷ b'\n' ∷ b'c' ∷ b'\n' ∷ []

text-Short : Short [] text
text-Short front back e =
    let total : length text ≡ length front + length back = ap length e ∙ length-append front back in
    omega (arith, left-length front)

grep-selected_example :
    (grep pattern_ab (2 ∷ 1 ∷ 1 ∷ 9 ∷ 1 ∷ 1 ∷ []) text []).0 ≡ (b'a' ∷ b'b' ∷ b'\n' ∷ []) ∷ []
unfolding lines selected match match_from matchhere matchstar accepts
grep-selected_example =
    grep-selected pattern_ab (2 ∷ 1 ∷ 1 ∷ 9 ∷ 1 ∷ 1 ∷ []) text
      (omega arith, (omega arith, (omega arith, (omega arith, (omega arith, tt))))) text-Short
      (omega arith, (omega arith, (omega arith, (omega arith, (omega arith, (omega arith, tt))))))
      (omega arith)
