-- ===== src/Kernel/Fs/Paths.antt =====
-- Path names in kernel/fs.c: `skipelem`, `namex`, `namei` and `nameiparent`. A path is the list
-- of its bytes before the NUL.
pub mod Components
pub mod Walk
pub mod Examples
use os_proj.Base.{
  ℕ, zero, suc, ◌+◌, ◌-◌, Bool, true, false, ◌&&◌, not, Option, none, some, List, [], ◌∷◌, take,
  length, ltb, leb, ◌==◌, if◌then◌else◌, update,
}
use os_proj.Kernel.Fs.Dir.{dirsiz}

-- `while(*path == '/') path++;`.
pub skip_slashes : List ℕ → List ℕ
skip_slashes [] = []
skip_slashes (c ∷ path) = let rest = skip_slashes path in if c == 47 then rest else c ∷ path

-- `while(*path != '/' && *path != 0) path++;`: the bytes passed, and the path from there.
pub take_elem : List ℕ → List ℕ
take_elem [] = []
take_elem (c ∷ path) = let rest = take_elem path in if c == 47 then [] else c ∷ rest

pub drop_elem : List ℕ → List ℕ
drop_elem [] = []
drop_elem (c ∷ path) = let rest = drop_elem path in if c == 47 then c ∷ path else rest

-- The name, cut to DIRSIZ bytes, and the path after it; `none` at the end of the path.
pub elem_at : List ℕ → Option (List ℕ × List ℕ)
elem_at [] = none
elem_at (c ∷ path) = some (take dirsiz (take_elem (c ∷ path)), skip_slashes (drop_elem (c ∷ path)))

pub skipelem : List ℕ → Option (List ℕ × List ℕ)
skipelem path = elem_at (skip_slashes path)

-- What `namex` asks of an inode that it has locked: whether it is a directory, and the number that
-- `dirlookup` finds for a name.
pub record Tree : Type 0 where
  pub is_dir : ℕ → Bool
  pub lookup : ℕ → List ℕ → Option ℕ

-- The counts of references, `iget` or `idup`, and `iput` of an inode that still has links.
abbrev pub Refs : Type 0
Refs = ℕ → ℕ

abbrev pub iget : Refs → ℕ → Refs
iget refs ip = update refs ip (refs ip + 1)

abbrev pub iput : Refs → ℕ → Refs
iput refs ip = update refs ip (refs ip - 1)

abbrev pub is_end : List ℕ → Bool
is_end [] = true
is_end (c ∷ path) = false

-- A round of the loop of `namex` after `skipelem`; `again` is the rounds that follow.
pub after_lookup : (ℕ → Refs → Option ℕ × Refs) → ℕ → Refs → Option ℕ → Option ℕ × Refs
after_lookup again ip refs none = (none, iput refs ip)
after_lookup again ip refs (some next) = again next (iput (iget refs next) ip)

pub namex_elem :
    Tree
    → Bool
    → (List ℕ → ℕ → Refs → Option ℕ × Refs)
    → ℕ
    → Refs
    → Option (List ℕ × List ℕ)
    → Option ℕ × Refs
namex_elem t parent again ip refs none = if parent then (none, iput refs ip) else (some ip, refs)
namex_elem t parent again ip refs (some (name, path)) =
    if not (t.is_dir ip)
    then (none, iput refs ip)
    else if parent && is_end path
    then (some ip, refs)
    else after_lookup (again path) ip refs (t.lookup ip name)

-- The loop, on fuel.
pub namex_loop : Tree → Bool → ℕ → List ℕ → ℕ → Refs → Option ℕ × Refs
namex_loop t parent zero path ip refs = (none, iput refs ip)
namex_loop t parent (suc fuel) path ip refs =
    let again : List ℕ → ℕ → Refs → Option ℕ × Refs =
      λ path' ip' refs'. namex_loop t parent fuel path' ip' refs' in
    namex_elem t parent again ip refs (skipelem path)

abbrev pub is_absolute : List ℕ → Bool
is_absolute [] = false
is_absolute (c ∷ path) = c == 47

-- `ROOTINO`.
abbrev pub rootino : ℕ
rootino = 1

pub namex : Tree → ℕ → List ℕ → Bool → Refs → Option ℕ × Refs
namex t cwd path parent refs =
    let ip = if is_absolute path then rootino else cwd in
    namex_loop t parent (length path + 1) path ip (iget refs ip)

pub namei : Tree → ℕ → List ℕ → Refs → Option ℕ × Refs
namei t cwd path refs = namex t cwd path false refs

-- The code also hands out the last name.
pub nameiparent : Tree → ℕ → List ℕ → Refs → Option ℕ × Refs
nameiparent t cwd path refs = namex t cwd path true refs
