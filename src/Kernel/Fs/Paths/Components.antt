-- ===== src/Kernel/Fs/Paths/Components.antt =====
-- `skipelem` of kernel/fs.c takes a path apart at its slashes.
use os_proj.Base.{
  ℕ, ◌<◌, ◌≤◌, ◌≡◌, ◌≢◌, ◌↔◌, refl, ap, sym, ◌∙◌, arith, true, false, ◌==◌, if◌then◌else◌, Option,
  none, some, List, [], ◌∷◌, take, length, ℕ_discrete,
}
use os_proj.Kernel.Fs.Dir.{dirsiz}
use os_proj.Kernel.Fs.Paths.{skip_slashes, take_elem, drop_elem, elem_at, skipelem}

-- The pieces between the slashes.
pub put_first : ℕ → List (List ℕ) → List (List ℕ)
put_first c [] = (c ∷ []) ∷ []
put_first c (w ∷ ws) = (c ∷ w) ∷ ws

pub split : List ℕ → List (List ℕ)
split [] = [] ∷ []
split (c ∷ path) = let rest = split path in if c == 47 then [] ∷ rest else put_first c rest

-- Those that are not empty, cut to the length of a directory entry.
pub names_of : List (List ℕ) → List (List ℕ)
names_of [] = []
names_of ([] ∷ ws) = names_of ws
names_of ((c ∷ w) ∷ ws) = take dirsiz (c ∷ w) ∷ names_of ws

unfoldable pub components : List ℕ → List (List ℕ)
components path = names_of (split path)

b_split : (c : ℕ) (path : List ℕ) → (c == 47) ≡ true → split (c ∷ path) ≡ [] ∷ split path
unfolding split
b_split c path b = rw b refl

split_elem :
    (path : List ℕ)
    → (ws : List (List ℕ)) × (split path ≡ take_elem path ∷ ws) × (split (drop_elem path) ≡ [] ∷ ws)
unfolding split take_elem drop_elem put_first
split_elem [] = ([], refl, refl)
split_elem (c ∷ path) = elim (ℕ_discrete c 47) [
  | yes e ↦ let b : (c == 47) ≡ true = ground arith in rw b (split path, refl, b_split c path b)
  | no ne ↦
      let b : (c == 47) ≡ false = ground arith in
      let (ws, e, e') = split_elem path in rw b (ws, rw e refl, e')
]

skip_nil : skip_slashes [] ≡ []
unfolding skip_slashes
skip_nil = refl

skip_one : (c : ℕ) (path : List ℕ) → (c == 47) ≡ true → skip_slashes (c ∷ path) ≡ skip_slashes path
unfolding skip_slashes
skip_one c path b = rw b refl

skip_none : (c : ℕ) (path : List ℕ) → (c == 47) ≡ false → skip_slashes (c ∷ path) ≡ c ∷ path
unfolding skip_slashes
skip_none c path b = rw b refl

components-skip_slashes : (path : List ℕ) → components (skip_slashes path) ≡ components path
unfolding components names_of
components-skip_slashes [] = ap components skip_nil
components-skip_slashes (c ∷ path) = elim (ℕ_discrete c 47) [
  | yes e ↦
      let b : (c == 47) ≡ true = ground arith in
      ap components (skip_one c path b)
      ∙ components-skip_slashes path
      ∙ ap names_of (sym (b_split c path b))
  | no ne ↦ let b : (c == 47) ≡ false = ground arith in ap components (skip_none c path b)
]

-- The path after the slashes starts with no slash.
abbrev NoSlash : List ℕ → Type 0
NoSlash [] = Unit
NoSlash (c ∷ path) = c ≢ 47

skip_slashes-NoSlash : (path : List ℕ) → NoSlash (skip_slashes path)
unfolding skip_slashes
skip_slashes-NoSlash [] = tt
skip_slashes-NoSlash (c ∷ path) = elim (ℕ_discrete c 47) [
  | yes e ↦ let b : (c == 47) ≡ true = ground arith in rw b (skip_slashes-NoSlash path)
  | no ne ↦ let b : (c == 47) ≡ false = ground arith in rw b ne
]

-- What an element is, and where it ends.
abbrev pub Skipped : List ℕ → Option (List ℕ × List ℕ) → Type 0
Skipped path none = components path ≡ []
Skipped path (some (name, rest)) =
    (components path ≡ name ∷ components rest)
    × (length rest < length path)
    × ((rest ≡ []) ↔ (components rest ≡ []))

drop_elem_short : (path : List ℕ) → length (drop_elem path) ≤ length path
unfolding drop_elem
drop_elem_short [] = omega arith
drop_elem_short (c ∷ path) = ground (arith, drop_elem_short path)

drop_elem_less : (c : ℕ) (path : List ℕ) → c ≢ 47 → length (drop_elem (c ∷ path)) ≤ length path
unfolding drop_elem
drop_elem_less c path ne = ground (arith, drop_elem_short path)

skip_slashes_short : (path : List ℕ) → length (skip_slashes path) ≤ length path
unfolding skip_slashes
skip_slashes_short [] = omega arith
skip_slashes_short (c ∷ path) = ground (arith, skip_slashes_short path)

-- The first component of a path that starts with no slash.
components-elem :
    (c : ℕ) (path : List ℕ)
    → c ≢ 47
    → components (c ∷ path) ≡ take dirsiz (take_elem (c ∷ path)) ∷ components (drop_elem (c ∷ path))
unfolding components take_elem names_of
components-elem c path ne =
    let b : (c == 47) ≡ false = ground arith in
    let (ws, e, e') = split_elem (c ∷ path) in rw (e, e', b) refl

components-end : (path : List ℕ) → NoSlash path → (path ≡ []) ↔ (components path ≡ [])
unfolding components names_of split
components-end [] h = (λ _. refl, λ _. refl)
components-end (c ∷ path) h =
    let e = components-elem c path h in (λ q. ground arith, λ q. let r = sym q ∙ e in ground arith)

elem_at-Skipped : (path : List ℕ) → NoSlash path → Skipped path (elem_at path)
unfolding elem_at components names_of split
elem_at-Skipped [] h = refl
elem_at-Skipped (c ∷ path) h =
    let rest = drop_elem (c ∷ path) in
    let short = skip_slashes_short rest in
    (
      components-elem c path h
          ∙ ap (λ x. take dirsiz (take_elem (c ∷ path)) ∷ x) (sym (components-skip_slashes rest)),
      omega (arith, drop_elem_less c path h),
      components-end (skip_slashes rest) (skip_slashes-NoSlash rest),
    )

skipped :
    (path path' : List ℕ) (o : Option (List ℕ × List ℕ))
    → components path' ≡ components path
    → length path' ≤ length path
    → Skipped path' o
    → Skipped path o
skipped path path' none k le s = sym k ∙ s
skipped path path' (some (name, rest)) k le (e, short, end) = (sym k ∙ e, omega arith, end)

-- `skipelem` gives the first of the names between the slashes, cut to the length of a directory
-- entry, and a shorter path with those that follow, which is empty when none follows; or nothing,
-- when there is none.
pub skipelem-Skipped : (path : List ℕ) → Skipped path (skipelem path)
unfolding skipelem
skipelem-Skipped path =
    let k = components-skip_slashes path in
    let s = elem_at-Skipped (skip_slashes path) (skip_slashes-NoSlash path) in
    skipped path (skip_slashes path) (elem_at (skip_slashes path)) k (skip_slashes_short path) s
