-- ===== src/Kernel/Fs/Io/Bytes.antt =====
-- The bytes of a file of kernel/fs.c, and the pieces that the loops of `readi` and `writei` move.
use os_proj.Base.{
  ℕ, ◌+◌, ◌-◌, ◌*◌, ◌/◌, ◌%◌, ◌≤◌, ◌<◌, ◌≡◌, ◌≢◌, ◌⊎◌, inl, inr, refl, ap, ◌∙◌, fun_ext, arith,
  Bool, true, false, dec_lt, Bool-cases,
}
use os_proj.Kernel.Fs.{Block, Disk, bsize}
use os_proj.Kernel.Fs.Bmap.{Inode, maxfile}
use os_proj.Kernel.Fs.Bmap.Mapping.{addr_of}
use os_proj.Kernel.Fs.Io.{Memory, blit, UserCopy, either_copyout, either_copyin}

-- The byte of a file at an offset.
unfoldable pub byte_at : Inode → Disk → ℕ → ℕ
byte_at ip d p = d (addr_of ip d (p / bsize)) (p % bsize)

-- The blocks below the size are there.
unfoldable pub Dense : Inode → Disk → Type 0
Dense ip d = (ip.size ≤ maxfile * bsize) × ((x : ℕ) → x * bsize < ip.size → addr_of ip d x ≢ 0)

-- A copy in two pieces.
pub blit-blit :
    (mem : Memory) (dst : ℕ) (src src' src'' : ℕ → ℕ) (m k : ℕ)
    → ((i : ℕ) → i < m → src i ≡ src'' i)
    → ((i : ℕ) → i < k → src' i ≡ src'' (m + i))
    → blit (blit mem dst src m) (dst + m) src' k ≡ blit mem dst src'' (m + k)
unfolding blit
blit-blit mem dst src src' src'' m k first second = fun_ext (λ i. elim (dec_lt i (dst + m)) [
  | yes low ↦ elim (dec_lt i dst) [
    | yes l ↦ ground arith
    | no l ↦ ground (arith, first (i - dst) (omega arith))
  ]
  | no high ↦ elim (dec_lt i (dst + m + k)) [
    | yes l ↦
        let e : m + (i - (dst + m)) ≡ i - dst = omega arith in
        ground (arith, second (i - (dst + m)) (omega arith) ∙ ap src'' e)
    | no l ↦ ground arith
  ]
])

pub blit-none : (mem : Memory) (dst : ℕ) (src : ℕ → ℕ) → blit mem dst src 0 ≡ mem
unfolding blit
blit-none mem dst src = fun_ext (λ i. ground arith)

pub blit-cong :
    (mem : Memory) (dst : ℕ) (src src' : ℕ → ℕ) (len : ℕ)
    → ((i : ℕ) → i < len → src i ≡ src' i)
    → blit mem dst src len ≡ blit mem dst src' len
unfolding blit
blit-cong mem dst src src' len same = fun_ext (λ i. elim (dec_lt i dst) [
  | yes l ↦ ground arith
  | no l ↦ elim (dec_lt i (dst + len)) [
    | yes k ↦ ground (arith, same (i - dst) (omega arith))
    | no k ↦ ground arith
  ]
])

pub blit-in :
    (mem : Memory) (dst : ℕ) (src : ℕ → ℕ) (len i : ℕ)
    → i < len
    → blit mem dst src len (dst + i) ≡ src i
unfolding blit
blit-in mem dst src len i lt = let e : dst + i - dst ≡ i = omega arith in ground (arith, ap src e)

pub blit-out :
    (mem : Memory) (dst : ℕ) (src : ℕ → ℕ) (len i : ℕ)
    → (i < dst) ⊎ (dst + len ≤ i)
    → blit mem dst src len i ≡ mem i
unfolding blit
blit-out mem dst src len i (inl lt) = ground arith
blit-out mem dst src len i (inr ge) = ground arith

-- Within a block.
pub byte_at-block :
    (ip : Inode) (d : Disk) (off i : ℕ)
    → i < bsize - off % bsize
    → byte_at ip d (off + i) ≡ d (addr_of ip d (off / bsize)) (off % bsize + i)
unfolding byte_at
byte_at-block ip d off i lt =
    let q : (off + i) / bsize ≡ off / bsize = omega arith in
    let r : (off + i) % bsize ≡ off % bsize + i = omega arith in rw (q, r) refl

-- What the copies of kernel/vm.c do: those that succeed copy, and those that do not stay in their
-- range.
pub record CopyLaws (c : UserCopy) : Type 0 where
  pub copyout_copies :
      (mem mem' : Memory) (dst : ℕ) (src : ℕ → ℕ) (len : ℕ)
      → c.copyout mem dst src len ≡ (true, mem')
      → mem' ≡ blit mem dst src len
  pub copyin_copies :
      (mem : Memory) (src : ℕ) (buf buf' : Block) (o len : ℕ)
      → c.copyin mem src buf o len ≡ (true, buf')
      → buf' ≡ blit buf o (λ i. mem (src + i)) len
  pub copyin_range :
      (mem : Memory) (src : ℕ) (buf buf' : Block) (o len i : ℕ)
      → c.copyin mem src buf o len ≡ (false, buf')
      → (i < o) ⊎ (o + len ≤ i)
      → buf' i ≡ buf i

-- `copyin` fails on a piece that starts at `src` and is of at most `left` bytes.
pub record InFails (c : UserCopy) (mem : Memory) (src left : ℕ) : Type 0 where
  pub len : ℕ
  pub buf : Block
  pub from : ℕ
  pub some_bytes : 0 < len
  pub inside : len ≤ left
  pub fails : (c.copyin mem src buf from len).0 ≡ false

-- After `done` bytes of the file have been copied to `dst`, `copyout` fails on a piece of the next
-- ones, and leaves memory `mem'`.
pub record OutFails (c : UserCopy) (ip : Inode) (d : Disk) (total off dst : ℕ) (mem mem' : Memory)
    : Type 0 where
  pub done : ℕ
  pub len : ℕ
  pub data_ : ℕ → ℕ
  pub some_bytes : 0 < len
  pub inside : done + len ≤ total
  pub piece : (i : ℕ) → i < len → data_ i ≡ byte_at ip d (off + done + i)
  pub fails :
      c.copyout (blit mem dst (λ i. byte_at ip d (off + i)) done) (dst + done) data_ len
      ≡ (false, mem')

module _ {c : UserCopy} (laws : CopyLaws c) where
  pub either_copyout-cases :
      (user_dst : Bool) (mem : Memory) (dst : ℕ) (src : ℕ → ℕ) (len : ℕ)
      → (either_copyout c user_dst mem dst src len ≡ (true, blit mem dst src len))
        ⊎ ((user_dst ≡ true)
            × (mem' : Memory) × (c.copyout mem dst src len ≡ (false, mem'))
            × (either_copyout c user_dst mem dst src len ≡ (false, mem')))
  unfolding either_copyout
  either_copyout-cases false mem dst src len = inl refl
  either_copyout-cases true mem dst src len = elim (Bool-cases (c.copyout mem dst src len).0) [
    | inl yes_ ↦
        let mem' = (c.copyout mem dst src len).1 in
        let e : c.copyout mem dst src len ≡ (true, mem') = ap (λ b. (b, mem')) yes_ in
        inl (e ∙ ap (λ x. (true, x)) (laws.copyout_copies mem mem' dst src len e))
    | inr no_ ↦
        let mem' = (c.copyout mem dst src len).1 in
        let e : c.copyout mem dst src len ≡ (false, mem') = ap (λ b. (b, mem')) no_ in
        inr (refl, mem', e, e)
  ]

  pub either_copyin-cases :
      (user_src : Bool) (mem : Memory) (src : ℕ) (buf : Block) (o len : ℕ)
      → (either_copyin c user_src mem src buf o len ≡ (true, blit buf o (λ i. mem (src + i)) len))
        ⊎ ((user_src ≡ true)
            × ((c.copyin mem src buf o len).0 ≡ false)
            × (buf' : Block) × (either_copyin c user_src mem src buf o len ≡ (false, buf'))
            × ((i : ℕ) → (i < o) ⊎ (o + len ≤ i) → buf' i ≡ buf i))
  unfolding either_copyin
  either_copyin-cases false mem src buf o len = inl refl
  either_copyin-cases true mem src buf o len = elim (Bool-cases (c.copyin mem src buf o len).0) [
    | inl yes_ ↦
        let buf' = (c.copyin mem src buf o len).1 in
        let e : c.copyin mem src buf o len ≡ (true, buf') = ap (λ b. (b, buf')) yes_ in
        inl (e ∙ ap (λ x. (true, x)) (laws.copyin_copies mem src buf buf' o len e))
    | inr no_ ↦
        let buf' = (c.copyin mem src buf o len).1 in
        let e : c.copyin mem src buf o len ≡ (false, buf') = ap (λ b. (b, buf')) no_ in
        inr (refl, no_, buf', e, λ i. laws.copyin_range mem src buf buf' o len i e)
  ]
