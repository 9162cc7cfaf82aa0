-- ===== src/User/Ulib/Paths.antt =====
-- Paths in user/ulib.c: `joinpath` and `getFilename`.
use os_proj.Base.{
  ℕ, ◌+◌, ◌<◌, ◌≤◌, ◌≡◌, ◌≢◌, inl, inr, refl, ap, ◌∙◌, some, List, [], ◌∷◌, ◌++◌, ◌==◌,
  if◌then◌else◌, length, length-append, arith, Bool-cases,
}
use mathlib.Core.List.{append_assoc}
use os_proj.User.Ulib.{strlen, last_byte, joinpath, filename_loop, get_filename}

abbrev pub NoSlash : List ℕ → Type 0
NoSlash [] = Unit
NoSlash (c ∷ s) = (c ≢ b'/') × NoSlash s

strlen-length : (s : List ℕ) → strlen s ≡ length s
unfolding strlen
strlen-length [] = refl
strlen-length (c ∷ s) = omega (arith, strlen-length s)

filename_loop-NoSlash : (dirname p : List ℕ) → NoSlash p → filename_loop dirname p ≡ dirname
unfolding filename_loop
filename_loop-NoSlash dirname [] h = refl
filename_loop-NoSlash dirname (c ∷ p) (ne, h) = ground (arith, filename_loop-NoSlash dirname p h)

filename_loop-slash :
    (dirname front name : List ℕ)
    → NoSlash name
    → filename_loop dirname (front ++ b'/' ∷ name) ≡ name
unfolding filename_loop
filename_loop-slash dirname [] name h = filename_loop-NoSlash name name h
filename_loop-slash dirname (c ∷ front) name h =
    filename_loop-slash (if c == b'/' then front ++ b'/' ∷ name else dirname) front name h

-- A path whose last byte is a slash.
ends_in_slash :
    (before : ℕ) (dir : List ℕ)
    → dir ≢ []
    → last_byte before dir ≡ b'/'
    → (front : List ℕ) × (dir ≡ front ++ b'/' ∷ [])
unfolding last_byte
ends_in_slash before [] ne e = absurd (ne refl)
ends_in_slash before (c ∷ []) ne e = ([], ground arith)
ends_in_slash before (c ∷ d ∷ dir) ne e =
    let (front, q) = ends_in_slash c (d ∷ dir) (λ n. cc) e in
    (c ∷ front, ap (λ (r : List ℕ). c ∷ r) q)

-- What `joinpath` leaves in the buffer.
abbrev joined : ℕ → List ℕ → List ℕ → List ℕ
joined before dir name = (if last_byte before dir == b'/' then dir else dir ++ b'/' ∷ []) ++ name

joined-filename :
    (before : ℕ) (dir name : List ℕ)
    → dir ≢ []
    → NoSlash name
    → get_filename (joined before dir name) ≡ name
unfolding get_filename
joined-filename before dir name ne h = elim (Bool-cases (last_byte before dir == b'/')) [
  | inl y ↦
      let (front, q) = ends_in_slash before dir ne (ground arith) in
      let e : dir ++ name ≡ front ++ b'/' ∷ name =
        ap (λ (r : List ℕ). r ++ name) q ∙ append_assoc front (b'/' ∷ []) name in
      rw (y, e) (filename_loop-slash (front ++ b'/' ∷ name) front name h)
  | inr y ↦
      rw (y, append_assoc dir (b'/' ∷ []) name)
        (filename_loop-slash (dir ++ b'/' ∷ name) dir name h)
]

joined-length :
    (before : ℕ) (dir name : List ℕ)
    → length (joined before dir name) ≤ length dir + 1 + length name
joined-length before dir name = ground (
  arith,
  length-append dir name,
  length-append (dir ++ b'/' ∷ []) name,
  length-append dir (b'/' ∷ []),
)

-- `joinpath` and `getFilename` are inverse: the file name of a joined path is the name that was
-- joined, for a directory that is not empty and a name without a slash. The path and its NUL fit
-- the buffer.
pub get_filename-joinpath :
    (before : ℕ) (dir name : List ℕ) (bufsize : ℕ) (path : List ℕ)
    → dir ≢ []
    → NoSlash name
    → joinpath before dir name bufsize ≡ some path
    → (get_filename path ≡ name) × (length path < bufsize)
unfolding joinpath
get_filename-joinpath before dir name bufsize path ne h e = (
  ground (arith, joined-filename before dir name ne h),
  ground (arith, joined-length before dir name, strlen-length dir, strlen-length name),
)
