-- ===== src/Kernel/Fs/Paths/Examples.antt =====
-- The path `/a//b` in a tree of three inodes.
use os_proj.Base.{ℕ, suc, ◌≡◌, true, false, none, some, List, [], ◌∷◌, ◌==◌, if◌then◌else◌}
use os_proj.Kernel.Fs.Paths.{Tree, Refs, namex}
use os_proj.Kernel.Fs.Paths.Components.{components}
use os_proj.Kernel.Fs.Paths.Walk.{walk, kept_refs, namex-walk}

-- `/a//b`.
abbrev a_b : List ℕ
a_b = 47 ∷ 97 ∷ 47 ∷ 47 ∷ 98 ∷ []

-- The inode 1 has `a`, which is 2, and that has `b`, which is 3.
abbrev three : Tree
three = record {
  is_dir = λ ip. if ip == 3 then false else true;
  lookup = λ ip name. if ip == 3 then none else some (suc ip);
}

abbrev no_refs : Refs
no_refs = λ ip. 0

namex-walk_example :
    namex three 7 a_b true no_refs
    ≡ (walk three true 1 (components a_b), kept_refs no_refs (walk three true 1 (components a_b)))
namex-walk_example = namex-walk three 7 a_b true no_refs
