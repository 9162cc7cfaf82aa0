-- ===== src/User/Grep/Lines.antt =====
-- The lines that user/grep.c prints, however its input is cut into reads.
use os_proj.Base.{
  ℕ, zero, suc, ◌≤◌, ◌<◌, ◌≡◌, ◌≢◌, refl, arith, none, some, List, [], ◌∷◌, ◌++◌, ◌==◌,
  if◌then◌else◌, Option-cases, ℕ_discrete, inl, inr, length, take, drop,
}
use os_proj.User.Grep.{match, next_line, with_newline, scan}

abbrev pub NoNul : List ℕ → Type 0
NoNul [] = Unit
NoNul (c ∷ s) = (c ≢ 0) × NoNul s

abbrev pub prepend : ℕ → List (List ℕ) × List ℕ → List (List ℕ) × List ℕ
prepend c ([], rest) = ([], c ∷ rest)
prepend c (line ∷ lines, rest) = ((c ∷ line) ∷ lines, rest)

-- The complete lines of a text, and what follows the last newline.
unfoldable pub lines : List ℕ → List (List ℕ) × List ℕ
lines [] = ([], [])
lines (c ∷ s) = if c == b'\n' then ([] ∷ (lines s).0, (lines s).1) else prepend c (lines s)

-- The lines that match, as they are printed.
unfoldable pub selected : List ℕ → List (List ℕ) → List (List ℕ)
selected re [] = []
selected re (line ∷ ls) =
    let out = selected re ls in if match re line then with_newline line ∷ out else out

pub selected-append :
    (re : List ℕ) (ls ms : List (List ℕ))
    → selected re (ls ++ ms) ≡ selected re ls ++ selected re ms
unfolding selected
selected-append re [] ms = refl
selected-append re (l ∷ ls) ms = let ih = selected-append re ls ms in ground arith

pub NoNul-append : (s t : List ℕ) → NoNul s → NoNul t → NoNul (s ++ t)
NoNul-append [] t h k = k
NoNul-append (c ∷ s) t (ne, h) k = (ne, NoNul-append s t h k)

abbrev pub joined : List (List ℕ) × List ℕ → List ℕ → List (List ℕ) × List ℕ
joined (ls, left) t = (ls ++ (lines (left ++ t)).0, (lines (left ++ t)).1)

prepend-joined :
    (c : ℕ) (r : List (List ℕ) × List ℕ) (t : List ℕ)
    → c ≢ b'\n'
    → prepend c (joined r t) ≡ joined (prepend c r) t
unfolding lines
prepend-joined c ([], left) t ne = ground arith
prepend-joined c (l ∷ ls, left) t ne = refl

-- The lines of two texts: the last piece of the first goes on in the second.
pub lines-append : (s t : List ℕ) → lines (s ++ t) ≡ joined (lines s) t
unfolding lines
lines-append [] t = refl
lines-append (c ∷ s) t = elim (ℕ_discrete c b'\n') [
  | yes e ↦ let ih = lines-append s t in ground arith
  | no ne ↦ let ih = lines-append s t in let p = prepend-joined c (lines s) t ne in ground arith
]

next_line-none : (buf : List ℕ) → NoNul buf → next_line buf ≡ none → lines buf ≡ ([], buf)
unfolding next_line lines
next_line-none [] h e = refl
next_line-none (c ∷ buf) (ne, h) e = elim (Option-cases (next_line buf)) [
  | inl n ↦ let ih = next_line-none buf h n in ground arith
  | inr ((line, rest), y) ↦ ground arith
]

next_line-some :
    (buf line rest : List ℕ)
    → NoNul buf
    → next_line buf ≡ some (line, rest)
    → (lines buf ≡ (line ∷ (lines rest).0, (lines rest).1))
      × (length rest < length buf)
      × NoNul rest
unfolding next_line lines
next_line-some [] line rest h e = ground arith
next_line-some (c ∷ buf) line rest (ne, h) e = elim (ℕ_discrete c b'\n') [
  | yes n ↦
      let l : line ≡ [] = ground arith in
      let r : rest ≡ buf = ground arith in rw (l, r) (ground arith, omega arith, h)
  | no n ↦ elim (Option-cases (next_line buf)) [
    | inl missing ↦ ground arith
    | inr ((line', rest'), y) ↦
        let (l, shorter, k) = next_line-some buf line' rest' h y in
        let l' : line ≡ c ∷ line' = ground arith in
        let r : rest ≡ rest' = ground arith in rw (l', r) (ground arith, omega arith, k)
  ]
]

pub scan-lines :
    (fuel : ℕ) (re buf : List ℕ)
    → NoNul buf
    → length buf < fuel
    → scan fuel re buf ≡ (selected re (lines buf).0, (lines buf).1)
unfolding scan selected
scan-lines zero re buf h lt = absurd (omega arith)
scan-lines (suc fuel) re buf h lt = elim (Option-cases (next_line buf)) [
  | inl n ↦ let l = next_line-none buf h n in ground arith
  | inr ((line, rest), y) ↦
      let (l, shorter, k) = next_line-some buf line rest h y in
      let ih = scan-lines fuel re rest k (omega arith) in ground arith
]

prepend-left :
    (c : ℕ) (r : List (List ℕ) × List ℕ)
    → c ≢ b'\n'
    → lines r.1 ≡ ([], r.1)
    → lines (prepend c r).1 ≡ ([], (prepend c r).1)
unfolding lines
prepend-left c ([], left) ne e = ground arith
prepend-left c (l ∷ ls, left) ne e = e

-- What follows the last newline holds none.
pub lines-left : (s : List ℕ) → lines (lines s).1 ≡ ([], (lines s).1)
unfolding lines
lines-left [] = refl
lines-left (c ∷ s) = elim (ℕ_discrete c b'\n') [
  | yes e ↦ let ih = lines-left s in ground arith
  | no ne ↦ let ih = lines-left s in ground (arith, prepend-left c (lines s) ne ih)
]

pub NoNul-take : (n : ℕ) (s : List ℕ) → NoNul s → NoNul (take n s) × NoNul (drop n s)
NoNul-take zero s h = (tt, h)
NoNul-take (suc n) [] h = (tt, tt)
NoNul-take (suc n) (c ∷ s) (ne, h) = let (a, b) = NoNul-take n s h in ((ne, a), b)

prepend-NoNul : (c : ℕ) (r : List (List ℕ) × List ℕ) → c ≢ 0 → NoNul r.1 → NoNul (prepend c r).1
prepend-NoNul c ([], left) ne h = (ne, h)
prepend-NoNul c (l ∷ ls, left) ne h = h

pub NoNul-left : (s : List ℕ) → NoNul s → NoNul (lines s).1
unfolding lines
NoNul-left [] h = tt
NoNul-left (c ∷ s) (ne, h) = elim (ℕ_discrete c b'\n') [
  | yes e ↦ let ih = NoNul-left s h in ground arith
  | no n ↦ let ih = prepend-NoNul c (lines s) ne (NoNul-left s h) in ground arith
]

prepend-length : (c : ℕ) (r : List (List ℕ) × List ℕ) → length (prepend c r).1 ≤ suc (length r.1)
prepend-length c ([], left) = omega arith
prepend-length c (l ∷ ls, left) = omega arith

pub left-length : (s : List ℕ) → length (lines s).1 ≤ length s
unfolding lines
left-length [] = omega arith
left-length (c ∷ s) = ground (arith, left-length s, prepend-length c (lines s))
