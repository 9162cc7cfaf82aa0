-- ===== src/User/Grep/Output.antt =====
-- What user/grep.c prints, however its input is cut into reads.
use os_proj.Base.{
  ℕ, ◌+◌, ◌-◌, ◌<◌, ◌≡◌, refl, ap, sym, ◌∙◌, arith, List, [], ◌∷◌, ◌++◌, ℕ_discrete, length, take,
  drop, take-append-drop, length-take, length-drop,
}
use mathlib.Core.List.{append-nil, append_assoc}
use os_proj.User.Grep.{bufsize, read_size, grep}
use os_proj.User.Grep.Lines.{
  NoNul, NoNul-append, NoNul-take, NoNul-left, lines, selected, selected-append, lines-append,
  lines-left, scan-lines,
}

module _ (re : List ℕ) where
  grep-turn :
      (ready : ℕ) (later input left : List ℕ)
      → NoNul input
      → NoNul left
      → 0 < length (take (read_size ready left) input)
      → grep re (ready ∷ later) input left ≡ (
        selected re (lines (left ++ take (read_size ready left) input)).0
            ++ (grep re later
                (drop (read_size ready left) input)
                (lines (left ++ take (read_size ready left) input)).1).0,
        (grep re later
            (drop (read_size ready left) input)
            (lines (left ++ take (read_size ready left) input)).1).1,
      )
  unfolding grep
  grep-turn ready later input left h k some_read =
      let got = take (read_size ready left) input in
      let l =
        scan-lines (length (left ++ got) + 1) re (left ++ got)
          (NoNul-append left got k (NoNul-take (read_size ready left) input h).0) (omega arith) in
      ground arith

  grep-prefix :
      (sizes input left : List ℕ)
      → NoNul input
      → NoNul left
      → lines left ≡ ([], left)
      → (consumed : List ℕ) × (input ≡ consumed ++ (grep re sizes input left).1)
        × ((grep re sizes input left).0 ≡ selected re (lines (left ++ consumed)).0)
  unfolding grep selected
  grep-prefix [] input left h k l = ([], refl, rw (append-nil left, l) refl)
  grep-prefix (ready ∷ later) input left h k l =
      let got = take (read_size ready left) input in
      elim (ℕ_discrete (length got) 0) [
        | yes none_read ↦ ([], ground arith, rw (append-nil left, l) (ground arith))
        | no ne ↦
            let (h₁, h₂) = NoNul-take (read_size ready left) input h in
            let turn = grep-turn ready later input left h k (omega arith) in
            let rest = drop (read_size ready left) input in
            let left' = (lines (left ++ got)).1 in
            let (consumed, e, out) =
              grep-prefix later rest left' h₂
                (NoNul-left (left ++ got) (NoNul-append left got k h₁))
                (lines-left (left ++ got)) in
            let cut = take-append-drop (read_size ready left) input in
            (
              got ++ consumed,
              sym cut
                  ∙ ap (λ (r : List ℕ). got ++ r) e
                  ∙ sym (append_assoc got consumed (grep re later rest left').1)
                  ∙ ap (λ r. (got ++ consumed) ++ r.1) (sym turn),
              ap (λ r. r.0) turn
                  ∙ ap (λ (r : List (List ℕ)). selected re (lines (left ++ got)).0 ++ r) out
                  ∙ sym (selected-append re (lines (left ++ got)).0 (lines (left' ++ consumed)).0)
                  ∙ ap (λ r. selected re r.0) (sym (lines-append (left ++ got) consumed))
                  ∙ ap (λ r. selected re (lines r).0) (append_assoc left got consumed),
            )
      ]

-- No line of the text, and no last piece of one, is too long for the buffer.
abbrev pub Short : List ℕ → List ℕ → Type 0
Short left input =
    (front back : List ℕ) → input ≡ front ++ back → length (lines (left ++ front)).1 < bufsize - 1

-- Every `read` has at least one byte ready, until the file ends.
abbrev pub AllReady : List ℕ → Type 0
AllReady [] = Unit
AllReady (ready ∷ later) = (0 < ready) × AllReady later

abbrev no_bytes : List ℕ
no_bytes = []

module _ (re : List ℕ) where
  grep-all :
      (sizes input left : List ℕ)
      → NoNul input
      → NoNul left
      → lines left ≡ ([], left)
      → Short left input
      → AllReady sizes
      → length input < length sizes
      → (grep re sizes input left).1 ≡ []
  unfolding grep
  grep-all [] input left h k l short all lt = absurd (omega arith)
  grep-all (ready ∷ later) [] left h k l short all lt =
      let t = length-take (read_size ready left) no_bytes in
      let none_read : length (take (read_size ready left) no_bytes) ≡ 0 = omega arith in
      ground arith
  grep-all (ready ∷ later) (c ∷ input) left h k l short (pos, all) lt =
      let got = take (read_size ready left) (c ∷ input) in
      let rest = drop (read_size ready left) (c ∷ input) in
      let room : length left < bufsize - 1 =
        let at_once = short [] (c ∷ input) refl in rw (append-nil left, l) at at_once in
      let taken = length-take (read_size ready left) (c ∷ input) in
      let some_read : 0 < length got = omega arith in
      let turn = grep-turn re ready later (c ∷ input) left h k some_read in
      let (h₁, h₂) = NoNul-take (read_size ready left) (c ∷ input) h in
      let short' : Short (lines (left ++ got)).1 rest = λ front back e.
        let cut = take-append-drop (read_size ready left) (c ∷ input) in
        let whole = sym cut ∙ ap (λ (r : List ℕ). got ++ r) e ∙ sym (append_assoc got front back) in
        let bound = short (got ++ front) back whole in
        let same = ap (λ r. r.1) (lines-append (left ++ got) front) in
        let flat = ap (λ r. (lines r).1) (append_assoc left got front) in
        rw (← (sym same ∙ flat)) at bound in
      let ih =
        grep-all later rest (lines (left ++ got)).1 h₂
          (NoNul-left (left ++ got) (NoNul-append left got k h₁)) (lines-left (left ++ got)) short'
          all (omega (arith, length-drop (read_size ready left) (c ∷ input))) in
      ap (λ r. r.1) turn ∙ ih

-- However its input is cut into reads that each have a byte ready, and enough of them: if the
-- input has no NUL byte and no line in it is 1023 bytes long or longer, `grep` prints exactly its
-- complete lines that match.
pub grep-selected :
    (re sizes input : List ℕ)
    → NoNul input
    → Short [] input
    → AllReady sizes
    → length input < length sizes
    → (grep re sizes input []).0 ≡ selected re (lines input).0
unfolding lines
grep-selected re sizes input h short all lt =
    let (consumed, e, out) = grep-prefix re sizes input [] h tt refl in
    let done = grep-all re sizes input [] h tt refl short all lt in
    out
    ∙ ap (λ r. selected re (lines r).0)
        (sym (e ∙ ap (λ (r : List ℕ). consumed ++ r) done ∙ append-nil consumed))
