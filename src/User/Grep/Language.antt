-- ===== src/User/Grep/Language.antt =====
-- The language of the patterns of user/grep.c, and that its matcher decides it.
use os_proj.Base.{
  ℕ, ◌≡◌, ◌≢◌, ◌⊎◌, inl, inr, ◌↔◌, refl, ap, ◌∙◌, arith, Bool, true, List, [], ◌∷◌, ◌++◌,
  Bool-cases, ℕ_discrete,
}
use os_proj.User.Grep.{accepts, matchstar, matchhere, match_from, match}

-- A dot stands for every byte, another byte for itself.
abbrev pub Accepts : ℕ → ℕ → Type 0
Accepts c t = (c ≡ b'.') ⊎ (c ≡ t)

-- The byte at the head of a pattern is one that stands for itself, or a dot.
abbrev pub IsPlain : ℕ → List ℕ → Type 0
IsPlain c [] = c ≢ b'$'
IsPlain c (d ∷ re) = d ≢ b'*'

abbrev pub AllAccepted : ℕ → List ℕ → Type 0
AllAccepted c [] = Unit
AllAccepted c (t ∷ us) = Accepts c t × AllAccepted c us

-- The pattern matches at the beginning of the text.
pub data Here : List ℕ → List ℕ → Type 0 where
  nothing : (text : List ℕ) → Here [] text
  at_end : {c : ℕ} → c ≡ b'$' → Here (c ∷ []) []
  one :
      {c t : ℕ} {re text : List ℕ}
      → IsPlain c re
      → Accepts c t
      → Here re text
      → Here (c ∷ re) (t ∷ text)
  many :
      {c d : ℕ} {re text : List ℕ} (us rest : List ℕ)
      → d ≡ b'*'
      → text ≡ us ++ rest
      → AllAccepted c us
      → Here re rest
      → Here (c ∷ d ∷ re) text

accepts-Accepts : (c t : ℕ) → (accepts c t ≡ true) ↔ Accepts c t
unfolding accepts
accepts-Accepts c t = (λ h. ground arith, λ h. ground arith)

-- `matchstar` finds a repetition, if `here` decides what follows it.
module _ (c : ℕ) (here : List ℕ → Bool) where
  abbrev Star : List ℕ → Type 0
  Star text =
      (us : List ℕ) × (rest : List ℕ) × (text ≡ us ++ rest) × AllAccepted c us × (here rest ≡ true)

  matchstar-found : (text : List ℕ) → matchstar c here text ≡ true → Star text
  unfolding matchstar
  matchstar-found [] h = ([], [], refl, tt, h)
  matchstar-found (t ∷ text) h = elim (Bool-cases (here (t ∷ text))) [
    | inl y ↦ ([], t ∷ text, refl, tt, y)
    | inr n ↦ elim (Bool-cases (accepts c t)) [
      | inr out ↦ ground arith
      | inl a ↦
          let (us, rest, e, all, y) = matchstar-found text (ground arith) in
          (t ∷ us, rest, ap (λ (r : List ℕ). t ∷ r) e, ((accepts-Accepts c t).0 a, all), y)
    ]
  ]

  matchstar-finds :
      (us rest : List ℕ)
      → AllAccepted c us
      → here rest ≡ true
      → matchstar c here (us ++ rest) ≡ true
  unfolding matchstar
  matchstar-finds [] [] all h = h
  matchstar-finds [] (t ∷ rest) all h = ground arith
  matchstar-finds (u ∷ us) rest (a, all) h =
      let b = (accepts-Accepts c u).1 a in let ih = matchstar-finds us rest all h in ground arith

repeated :
    (c d : ℕ) (re text : List ℕ)
    → ((rest : List ℕ) → matchhere re rest ≡ true → Here re rest)
    → d ≡ b'*'
    → matchstar c (matchhere re) text ≡ true
    → Here (c ∷ d ∷ re) text
repeated c d re text sound e h =
    let (us, rest, e', all, y) = matchstar-found c (matchhere re) text h in
    many us rest e e' all (sound rest y)

one-finds :
    (c t : ℕ) (re text : List ℕ)
    → IsPlain c re
    → Accepts c t
    → matchhere re text ≡ true
    → matchhere (c ∷ re) (t ∷ text) ≡ true
unfolding matchhere
one-finds c t [] text plain a h = let b = (accepts-Accepts c t).1 a in ground arith
one-finds c t (d ∷ re) text plain a h = let b = (accepts-Accepts c t).1 a in ground arith

matchhere-sound : (re text : List ℕ) → matchhere re text ≡ true → Here re text
unfolding matchhere
matchhere-sound [] text h = nothing text
matchhere-sound (c ∷ []) [] h = elim (ℕ_discrete c b'$') [ yes e ↦ at_end e | no ne ↦ ground arith ]
matchhere-sound (c ∷ []) (t ∷ text) h = elim (ℕ_discrete c b'$') [
  | yes e ↦ ground arith
  | no ne ↦ elim (Bool-cases (accepts c t)) [
    | inl a ↦ one ne ((accepts-Accepts c t).0 a) (nothing text)
    | inr out ↦ ground arith
  ]
]
matchhere-sound (c ∷ d ∷ re) [] h = elim (ℕ_discrete d b'*') [
  | yes e ↦ repeated c d re [] (matchhere-sound re) e (ground arith)
  | no ne ↦ ground arith
]
matchhere-sound (c ∷ d ∷ re) (t ∷ text) h = elim (ℕ_discrete d b'*') [
  | yes e ↦ repeated c d re (t ∷ text) (matchhere-sound re) e (ground arith)
  | no ne ↦ elim (Bool-cases (accepts c t)) [
    | inl a ↦ one ne ((accepts-Accepts c t).0 a) (matchhere-sound (d ∷ re) text (ground arith))
    | inr out ↦ ground arith
  ]
]

matchhere_complete : {re text : List ℕ} → Here re text → matchhere re text ≡ true
unfolding matchhere
matchhere_complete (nothing text) = refl
matchhere_complete (at_end e) = ground arith
matchhere_complete (one {c} {t} {re} {text} plain a h) =
    one-finds c t re text plain a (matchhere_complete h)
matchhere_complete (many {c} {d} {re} {text} us rest e e' all h) =
    let found = matchstar-finds c (matchhere re) us rest all (matchhere_complete h) in
    let at_text : matchstar c (matchhere re) text ≡ true =
      ap (matchstar c (matchhere re)) e' ∙ found in
    ground arith

abbrev pub Somewhere : List ℕ → List ℕ → Type 0
Somewhere re text = (front : List ℕ) × (back : List ℕ) × (text ≡ front ++ back) × Here re back

-- The pattern matches somewhere in the text, or at its beginning behind `^`.
pub Found : List ℕ → List ℕ → Type 0
Found re text =
    ((anchored : List ℕ) × (re ≡ b'^' ∷ anchored) × Here anchored text)
    ⊎ (((anchored : List ℕ) → re ≢ b'^' ∷ anchored) × Somewhere re text)

match_from-found : (re text : List ℕ) → match_from re text ≡ true → Somewhere re text
unfolding match_from
match_from-found re [] h = ([], [], refl, matchhere-sound re [] h)
match_from-found re (t ∷ text) h = elim (Bool-cases (matchhere re (t ∷ text))) [
  | inl y ↦ ([], t ∷ text, refl, matchhere-sound re (t ∷ text) y)
  | inr n ↦
      let (front, back, e, m) = match_from-found re text (ground arith) in
      (t ∷ front, back, ap (λ (r : List ℕ). t ∷ r) e, m)
]

match_from-finds :
    (re front back : List ℕ) → matchhere re back ≡ true → match_from re (front ++ back) ≡ true
unfolding match_from
match_from-finds re [] [] h = h
match_from-finds re [] (t ∷ back) h = ground arith
match_from-finds re (f ∷ front) back h = let ih = match_from-finds re front back h in ground arith

match_from_complete : (re text : List ℕ) → Somewhere re text → match_from re text ≡ true
match_from_complete re text (front, back, e, m) =
    ap (match_from re) e ∙ match_from-finds re front back (matchhere_complete m)

-- `match` answers true exactly for the texts in which the pattern matches somewhere or, behind
-- `^`, at the beginning.
pub match-Found : (re text : List ℕ) → (match re text ≡ true) ↔ Found re text
unfolding match Found
match-Found [] text = (
  λ h. inr (λ anchored e. cc, match_from-found [] text h),
  λ f. elim f [
    | inl (anchored, e, m) ↦ cc
    | inr (free, somewhere) ↦ match_from_complete [] text somewhere
  ],
)
match-Found (c ∷ re) text = elim (ℕ_discrete c b'^') [
  | yes y ↦ (
    λ h. inl (re, ap (λ (x : ℕ). x ∷ re) y, matchhere-sound re text (ground arith)),
    λ f. elim f [
      | inl (anchored, e, m) ↦ let k = matchhere_complete m in ground arith
      | inr (free, somewhere) ↦ absurd (free re (ap (λ (x : ℕ). x ∷ re) y))
    ],
  )
  | no n ↦ (
    λ h. inr (λ anchored e. ground arith, match_from-found (c ∷ re) text (ground arith)),
    λ f. elim f [
      | inl (anchored, e, m) ↦ ground arith
      | inr (free, somewhere) ↦ let k = match_from_complete (c ∷ re) text somewhere in ground arith
    ],
  )
]
