-- ===== src/User/Ulib/Examples.antt =====
-- Concrete strings for the theorems on user/ulib.c.
use os_proj.Base.{ℕ, ◌<◌, ◌≡◌, refl, List, [], ◌∷◌, length, arith}
use os_proj.User.Ulib.{joinpath, get_filename}
use os_proj.User.Ulib.Paths.{get_filename-joinpath}

abbrev joined : List ℕ
joined = b'/' ∷ b'a' ∷ b'/' ∷ b'b' ∷ []

get_filename-joinpath_example : (get_filename joined ≡ b'b' ∷ []) × (length joined < 16)
unfolding joinpath
get_filename-joinpath_example =
    get_filename-joinpath 0 (b'/' ∷ b'a' ∷ []) (b'b' ∷ []) 16 joined (λ e. ground arith)
      (omega arith, tt) refl
