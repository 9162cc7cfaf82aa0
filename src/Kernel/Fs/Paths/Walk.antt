-- ===== src/Kernel/Fs/Paths/Walk.antt =====
-- `namex` of kernel/fs.c walks the names of a path, and keeps one reference.
use os_proj.Base.{
  ℕ, zero, suc, ◌+◌, ◌<◌, ◌≡◌, ◌↔◌, inl, inr, refl, ap, sym, ◌∙◌, fun_ext, arith, Bool, true, false,
  not, ◌&&◌, if◌then◌else◌, Option, none, some, List, [], ◌∷◌, length, Bool-cases, Option-cases,
}
use os_proj.Kernel.Fs.Paths.{
  Tree, Refs, iget, iput, is_end, is_absolute, rootino, skipelem, after_lookup, namex_elem,
  namex_loop, namex,
}
use os_proj.Kernel.Fs.Paths.Components.{components, Skipped, skipelem-Skipped}

abbrev pub or_stop : (ℕ → Option ℕ) → Option ℕ → Option ℕ
or_stop go none = none
or_stop go (some ip) = go ip

abbrev pub no_names : List (List ℕ) → Bool
no_names [] = true
no_names (n ∷ ns) = false

-- The inode that a list of names leads to from `ip`, or with `parent` the one before the last.
pub walk : Tree → Bool → ℕ → List (List ℕ) → Option ℕ
walk t parent ip [] = if parent then none else some ip
walk t parent ip (name ∷ names) =
    if not (t.is_dir ip)
    then none
    else if parent && no_names names
    then some ip
    else or_stop (λ next. walk t parent next names) (t.lookup ip name)

-- The counts with one more reference to the result.
abbrev pub kept_refs : Refs → Option ℕ → Refs
kept_refs refs none = refs
kept_refs refs (some ip) = iget refs ip

iput-iget : (refs : Refs) (ip : ℕ) → iput (iget refs ip) ip ≡ refs
iput-iget refs ip = fun_ext (λ x. ground arith)

-- The next inode is taken before the last is let go.
iput-iget-iget : (refs : Refs) (ip next : ℕ) → iput (iget (iget refs ip) next) ip ≡ iget refs next
iput-iget-iget refs ip next = fun_ext (λ x. ground arith)

same_end :
    (rest : List ℕ) (names : List (List ℕ))
    → components rest ≡ names
    → ((rest ≡ []) ↔ (components rest ≡ []))
    → is_end rest ≡ no_names names
same_end [] [] e end = refl
same_end (c ∷ rest) (n ∷ names) e end = refl
same_end [] (n ∷ names) e end = let r = sym e ∙ end.0 refl in ground arith
same_end (c ∷ rest) [] e end = let r = end.1 e in ground arith

-- A round of the loop, where the rounds that follow walk.
round :
    (t : Tree) (parent : Bool) (again : List ℕ → ℕ → Refs → Option ℕ × Refs) (path : List ℕ)
    (o : Option (List ℕ × List ℕ)) (ip : ℕ) (refs : Refs)
    → Skipped path o
    → ((path' : List ℕ) (ip' : ℕ)
        → length path' < length path
        → again path' ip' (iget refs ip') ≡ (
          walk t parent ip' (components path'),
          kept_refs refs (walk t parent ip' (components path')),
        ))
    → namex_elem t parent again ip (iget refs ip) o
      ≡ (walk t parent ip (components path), kept_refs refs (walk t parent ip (components path)))
unfolding namex_elem walk after_lookup
round t true again path none ip refs e rec = rw (e, iput-iget refs ip) refl
round t false again path none ip refs e rec = rw e refl
round t parent again path (some (name, rest)) ip refs (e, short, end) rec =
    elim (Bool-cases (t.is_dir ip)) [
      | inr file ↦ rw (e, file, iput-iget refs ip) refl
      | inl dir ↦
          let same = same_end rest (components rest) refl end in
          elim (Bool-cases (parent && is_end rest)) [
            | inl last ↦
                let last' : (parent && no_names (components rest)) ≡ true =
                  ap (λ b. parent && b) (sym same) ∙ last in
                rw (e, dir, last, last') refl
            | inr more ↦
                let more' : (parent && no_names (components rest)) ≡ false =
                  ap (λ b. parent && b) (sym same) ∙ more in
                elim (Option-cases (t.lookup ip name)) [
                  | inl missing ↦ rw (e, dir, more, more', missing, iput-iget refs ip) refl
                  | inr (next, found) ↦
                      rw (e, dir, more, more', found, iput-iget-iget refs ip next)
                        (rec rest next short)
                ]
          ]
    ]

namex_loop-walk :
    (t : Tree) (parent : Bool) (fuel : ℕ) (path : List ℕ) (ip : ℕ) (refs : Refs)
    → length path < fuel
    → namex_loop t parent fuel path ip (iget refs ip)
      ≡ (walk t parent ip (components path), kept_refs refs (walk t parent ip (components path)))
unfolding namex_loop
namex_loop-walk t parent zero path ip refs lt = absurd (omega arith)
namex_loop-walk t parent (suc fuel) path ip refs lt =
    round t parent (λ path' ip' refs'. namex_loop t parent fuel path' ip' refs') path
      (skipelem path) ip refs (skipelem-Skipped path)
      (λ path' ip' l. namex_loop-walk t parent fuel path' ip' refs (omega arith))

-- `namex` finds the inode that the names between the slashes of the path, each cut to 14 bytes,
-- lead to from the root for a path that starts with a slash and from the current directory
-- otherwise, or with `nameiparent` the last but one, where it does not check the last name; it
-- fails at the first name that is missing or whose inode is no directory. It leaves one more
-- reference to the result, and every other count as before.
pub namex-walk :
    (t : Tree) (cwd : ℕ) (path : List ℕ) (parent : Bool) (refs : Refs)
    → let r = walk t parent (if is_absolute path then rootino else cwd) (components path) in
      namex t cwd path parent refs ≡ (r, kept_refs refs r)
unfolding namex
namex-walk t cwd path parent refs =
    namex_loop-walk t parent (length path + 1) path (if is_absolute path then rootino else cwd) refs
      (omega arith)
