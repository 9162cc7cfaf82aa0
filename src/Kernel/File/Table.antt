-- ===== src/Kernel/File/Table.antt =====
-- The references to the open files of kernel/file.c.
use os_proj.Base.{
  ℕ, zero, suc, ◌+◌, ◌-◌, ◌≤◌, ◌<◌, ◌≡◌, ◌≢◌, ◌⊎◌, inl, inr, refl, ap, sym, ◌∙◌, fun_ext, arith,
  true, false, Option, none, some, Option-cases, ltb, ◌==◌, update, update_self, update_ne,
  cases_at, ℕ_discrete, ok, panic, ◌>>=◌,
}
use os_proj.Kernel.File.{
  File, Ftable, FileType, nfile, find_free, filealloc, filedup, Closing, nothing, close_pipe,
  put_inode, closing, fileclose, fd_none, fd_pipe, fd_inode, fd_device,
}

abbrev FirstFree : Ftable → ℕ → ℕ → Option ℕ → Type 0
FirstFree t lo hi none = (x : ℕ) → lo ≤ x → x < hi → (t x).ref ≢ 0
FirstFree t lo hi (some f) =
    (lo ≤ f) × (f < hi) × ((t f).ref ≡ 0) × ((x : ℕ) → lo ≤ x → x < f → (t x).ref ≢ 0)

skip_used :
    (t : Ftable) (lo hi : ℕ) (o : Option ℕ)
    → (t lo).ref ≢ 0
    → FirstFree t (lo + 1) hi o
    → FirstFree t lo hi o
skip_used t lo hi none u h =
    λ x l k. cases_at (λ y. (t y).ref ≢ 0) lo x l u (λ q. h x (omega arith) k)
skip_used t lo hi (some f) u (le, lt, free, before) = (
  omega arith,
  lt,
  free,
  λ x l k. cases_at (λ y. (t y).ref ≢ 0) lo x l u (λ q. before x (omega arith) k),
)

find_free-FirstFree : (t : Ftable) (k i : ℕ) → FirstFree t i (i + k) (find_free t k i)
unfolding find_free
find_free-FirstFree t zero i = λ x l k. absurd (omega arith)
find_free-FirstFree t (suc k) i = elim (ℕ_discrete (t i).ref 0) [
  | yes z ↦
      let b : ((t i).ref == 0) ≡ true = ground arith in
      rw b (omega arith, omega arith, z, λ x l m. absurd (omega arith))
  | no ne ↦
      let b : ((t i).ref == 0) ≡ false = ground arith in
      let e : i + 1 + k ≡ i + suc k = omega arith in
      rw b (
        skip_used t i (i + suc k) (find_free t k (i + 1)) ne
          (rw e at (find_free-FirstFree t k (i + 1))))
]

-- `filealloc` gives the first entry of the table with no reference, with one reference to it and
-- no other change; it gives null only if every entry has one, and then changes nothing.
pub filealloc-first :
    (t : Ftable)
    → (((x : ℕ) → x < nfile → (t x).ref ≢ 0) × (filealloc t ≡ (none, t)))
      ⊎ ((f : ℕ) × (f < nfile)
          × ((t f).ref ≡ 0)
          × ((x : ℕ) → x < f → (t x).ref ≢ 0)
          × (filealloc t ≡ (some f, update t f (record (t f) { ref = 1 }))))
unfolding filealloc
filealloc-first t =
    let h = find_free-FirstFree t nfile 0 in
    elim (Option-cases (find_free t nfile 0)) [
      | inl e ↦ inl (λ x l. (rw e at h) x (omega arith) l, rw e refl)
      | inr (f, e) ↦
          let (le, lt, free, before) = rw e at h in
          inr (f, lt, free, λ x l. before x (omega arith) l, rw e refl)
    ]

put_back : (t : Ftable) (f : ℕ) (g : File) → update (update t f g) f (t f) ≡ t
put_back t f g = fun_ext (λ x. elim (ℕ_discrete x f) [
  | yes e ↦ let b : (x == f) ≡ true = ground arith in rw b (ap t (sym e))
  | no ne ↦ let b : (x == f) ≡ false = ground arith in rw b refl
])

dup_closed :
    (t : Ftable) (f : ℕ)
    → (t f).ref ≢ 0
    → fileclose (update t f (record (t f) { ref = (t f).ref + 1 })) f ≡ ok (nothing, t)
unfolding fileclose
dup_closed t f ne =
    let e = update_self t f (record (t f) { ref = (t f).ref + 1 }) in
    let b : ltb ((t f).ref + 1) 1 ≡ false = ground arith in
    let b' : ltb 0 ((t f).ref + 1 - 1) ≡ true = ground arith in
    let r : (t f).ref + 1 - 1 ≡ (t f).ref = omega arith in
    rw (e, b, b', r)
      (ap (λ x. ok (nothing, x)) (put_back t f (record (t f) { ref = (t f).ref + 1 })))

-- A file that is duplicated and closed once is as before, and nothing is closed underneath; of a
-- file without a reference both panic.
pub fileclose-filedup :
    (t : Ftable) (f : ℕ)
    → (((t f).ref ≡ 0) × (filedup t f ≡ panic) × (fileclose t f ≡ panic))
      ⊎ (((t f).ref ≢ 0) × ((filedup t f >>= (λ t'. fileclose t' f)) ≡ ok (nothing, t)))
unfolding filedup fileclose
fileclose-filedup t f = elim (ℕ_discrete (t f).ref 0) [
  | yes z ↦ let b : ltb (t f).ref 1 ≡ true = ground arith in inl (z, rw b refl, rw b refl)
  | no ne ↦ let b : ltb (t f).ref 1 ≡ false = ground arith in inr (ne, rw b (dup_closed t f ne))
]

-- What the last close of a file must let go of: its end of the pipe, the one for writing if the
-- file could write; one reference to its inode, also for a device; nothing if there is neither.
pub data Closes (g : File) : Closing → Type 0 where
  closes_nothing : g.type_ ≡ fd_none → Closes g nothing
  closes_pipe : g.type_ ≡ fd_pipe → Closes g (close_pipe g.pipe g.writable)
  closes_inode : g.type_ ≡ fd_inode → Closes g (put_inode g.ip)
  closes_device : g.type_ ≡ fd_device → Closes g (put_inode g.ip)

FileType-cases :
    (x : FileType) → ((x ≡ fd_none) ⊎ (x ≡ fd_pipe)) ⊎ ((x ≡ fd_inode) ⊎ (x ≡ fd_device))
FileType-cases fd_none = inl (inl refl)
FileType-cases fd_pipe = inl (inr refl)
FileType-cases fd_inode = inr (inl refl)
FileType-cases fd_device = inr (inr refl)

closing-Closes : (g : File) → Closes g (closing g)
unfolding closing
closing-Closes g = elim (FileType-cases g.type_) [
  | inl (inl e) ↦ let c : closing g ≡ nothing = ground arith in rw c (closes_nothing e)
  | inl (inr e) ↦
      let c : closing g ≡ close_pipe g.pipe g.writable = ground arith in rw c (closes_pipe e)
  | inr (inl e) ↦ let c : closing g ≡ put_inode g.ip = ground arith in rw c (closes_inode e)
  | inr (inr e) ↦ let c : closing g ≡ put_inode g.ip = ground arith in rw c (closes_device e)
]

-- The last close of a file frees its entry and lets go of what is underneath, by the type of the
-- file: its end of the pipe, or its reference to the inode; any other close only takes the file's
-- reference, and no other entry changes.
pub fileclose-last :
    (t : Ftable) (f : ℕ)
    → (t f).ref ≢ 0
    → (t' : Ftable) × ((x : ℕ) → x ≢ f → t' x ≡ t x)
      × ((t' f).ref ≡ (t f).ref - 1)
      × ((((t f).ref ≡ 1)
            × ((t' f).type_ ≡ fd_none)
            × (what : Closing) × Closes (t f) what
            × (fileclose t f ≡ ok (what, t')))
          ⊎ (((t f).ref ≢ 1)
              × (t' f ≡ record (t f) { ref = (t f).ref - 1 })
              × (fileclose t f ≡ ok (nothing, t'))))
unfolding fileclose
fileclose-last t f ne =
    let b : ltb (t f).ref 1 ≡ false = ground arith in
    elim (ℕ_discrete (t f).ref 1) [
      | yes one ↦
          let g = record (t f) { ref = 0; type_ = fd_none } in
          let e = update_self t f g in
          let c : ltb 0 ((t f).ref - 1) ≡ false = ground arith in
          let z : 0 ≡ (t f).ref - 1 = omega arith in
          (
            update t f g,
            λ x n. update_ne t f g x n,
            ap (λ (h : File). h.ref) e ∙ z,
            inl (
              one,
              ap (λ (h : File). h.type_) e,
              closing (t f),
              closing-Closes (t f),
              rw (b, c) refl,
            ),
          )
      | no more ↦
          let g = record (t f) { ref = (t f).ref - 1 } in
          let e = update_self t f g in
          let c : ltb 0 ((t f).ref - 1) ≡ true = ground arith in
          (
            update t f g,
            λ x n. update_ne t f g x n,
            ap (λ (h : File). h.ref) e,
            inr (more, e, rw (b, c) refl),
          )
    ]
