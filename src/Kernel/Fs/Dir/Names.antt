-- ===== src/Kernel/Fs/Dir/Names.antt =====
-- The name and the number that `dirlink` of kernel/fs.c puts into an entry.
use os_proj.Base.{
  ℕ, zero, suc, ◌+◌, ◌≤◌, ◌<◌, ◌≡◌, refl, ◌∙◌, arith, true, false, ◌==◌, update, update_self,
  update_ne, List, [], ◌∷◌, replicate, take, pos,
}
use os_proj.Kernel.Cstring.{strncmp, strncpy}
use os_proj.Kernel.Cstring.Laws.{NoNul}
use os_proj.Kernel.Fs.Io.{Memory}
use os_proj.Kernel.Fs.Dir.{name_at, namecmp, entry_inum, is_free, is_named, put_bytes, put_entry}
use os_proj.Kernel.Fs.Dir.Entries.{name_at-Local}

put_bytes_before : (bs : List ℕ) (mem : Memory) (a i : ℕ) → i < a → put_bytes mem a bs i ≡ mem i
unfolding put_bytes
put_bytes_before [] mem a i lt = refl
put_bytes_before (b ∷ bs) mem a i lt =
    put_bytes_before bs (update mem a b) (a + 1) i (omega arith) ∙ update_ne mem a b i (omega arith)

-- The bytes that `strncpy` writes, read as a string.
name_at-put_bytes :
    (t : List ℕ) (k a : ℕ) (mem : Memory)
    → NoNul t
    → name_at (put_bytes mem a (strncpy t k)) a k ≡ take k t
unfolding name_at strncpy put_bytes
name_at-put_bytes t zero a mem h = refl
name_at-put_bytes [] (suc k) a mem h =
    let first : put_bytes (update mem a 0) (a + 1) (replicate k 0) a ≡ 0 =
      put_bytes_before (replicate k 0) (update mem a 0) (a + 1) a (omega arith)
      ∙ update_self mem a 0 in
    rw first refl
name_at-put_bytes (c ∷ t) (suc k) a mem (ne, h) =
    let first : put_bytes (update mem a c) (a + 1) (strncpy t k) a ≡ c =
      put_bytes_before (strncpy t k) (update mem a c) (a + 1) a (omega arith)
      ∙ update_self mem a c in
    let some_byte : (c == 0) ≡ false = ground arith in
    rw (first, some_byte, name_at-put_bytes t k (a + 1) (update mem a c) h) refl

strncmp-take : (t : List ℕ) (k : ℕ) → strncmp t (take k t) k ≡ pos 0
unfolding strncmp
strncmp-take t zero = refl
strncmp-take [] (suc k) = refl
strncmp-take (c ∷ t) (suc k) = ground (arith, strncmp-take t k)

pub entry_inum-put_entry :
    (mem : Memory) (name : List ℕ) (inum : ℕ)
    → inum < 65536
    → entry_inum (put_entry mem name inum) ≡ inum
unfolding entry_inum put_entry
entry_inum-put_entry mem name inum lt = ground arith

after_number :
    (mem : Memory) (name : List ℕ) (inum i : ℕ)
    → 2 ≤ i
    → put_entry mem name inum i ≡ put_bytes mem 2 (strncpy name 14) i
unfolding put_entry
after_number mem name inum i le = ground arith

-- The new entry has the name.
pub is_named-put_entry :
    (mem : Memory) (name : List ℕ) (inum : ℕ)
    → NoNul name
    → 0 < inum
    → inum < 65536
    → is_named name (put_entry mem name inum) ≡ true
unfolding is_named is_free namecmp
is_named-put_entry mem name inum h pos_ lt =
    let number = entry_inum-put_entry mem name inum lt in
    let m = put_bytes mem 2 (strncpy name 14) in
    let same : name_at (put_entry mem name inum) 2 14 ≡ take 14 name =
      name_at-Local (put_entry mem name inum) m 2 14 (λ i l l'. after_number mem name inum i l)
      ∙ name_at-put_bytes name 14 2 mem h in
    let used : (inum == 0) ≡ false = ground arith in
    rw (number, same, strncmp-take name 14, used) refl
