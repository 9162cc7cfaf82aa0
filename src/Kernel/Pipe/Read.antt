-- ===== src/Kernel/Pipe/Read.antt =====
-- `piperead` of kernel/pipe.c as the reading end of a queue of at most 512 bytes.
use os_proj.Base.{
  ℕ, suc, ◌%◌, ◌≡◌, ◌≢◌, refl, ap, sym, Bool, true, false, ◌&&◌, List, [], ◌∷◌, ◌++◌, arith, take,
  ◌==◌, Bool-cases, inl, inr, ℕ_discrete,
}
use os_proj.Kernel.Pipe.{Pipe, pipesize, read_loop, piperead}
use os_proj.Kernel.Pipe.Ring.{bytes_from, used, contents, Valid, pop, contents-pop}
use os_proj.Kernel.Pipe.Write.{take-nil}

-- How many bytes of the user's range `copyout` reaches, and how many leave the pipe for them.
abbrev pub reached : List Bool → ℕ
reached [] = 0
reached (false ∷ dst) = 0
reached (true ∷ dst) = suc (reached dst)

abbrev pub tried : List Bool → ℕ
tried [] = 0
tried (false ∷ dst) = 1
tried (true ∷ dst) = suc (tried dst)

pub delivered : Bool → List Bool → Pipe → List ℕ
delivered killed dst pi = (piperead killed dst pi).1

pub read : Bool → List Bool → Pipe → Pipe
read killed dst pi = (piperead killed dst pi).2

pub contents-empty : (pi : Pipe) → pi.nread ≡ pi.nwrite → Valid pi → contents pi ≡ []
unfolding contents bytes_from used
contents-empty pi e v =
    let n : used pi ≡ 0 = omega (arith, v.read_bound) in ap (bytes_from pi.buf pi.nread) n

read_loop-stop : (dst : List Bool) (pi : Pipe) → pi.nread ≡ pi.nwrite → read_loop dst pi ≡ ([], pi)
unfolding read_loop
read_loop-stop [] pi e = refl
read_loop-stop (copied ∷ dst) pi e = ground arith

read_loop-fails :
    (dst : List Bool) (pi : Pipe) → pi.nread ≢ pi.nwrite → read_loop (false ∷ dst) pi ≡ ([], pop pi)
unfolding read_loop pop
read_loop-fails dst pi ne = ground arith

read_loop-copies :
    (dst : List Bool) (pi : Pipe)
    → pi.nread ≢ pi.nwrite
    → read_loop (true ∷ dst) pi
      ≡ (pi.buf (pi.nread % pipesize) ∷ (read_loop dst (pop pi)).0, (read_loop dst (pop pi)).1)
unfolding read_loop pop
read_loop-copies dst pi ne = ground arith

read_loop-nil : (pi : Pipe) → read_loop [] pi ≡ ([], pi)
unfolding read_loop
read_loop-nil pi = refl

-- What one call of the copying loop does to a queue.
pub Reads : List Bool → List ℕ → List ℕ × Pipe → Type 0
Reads dst queue (bytes, after) =
    (bytes ≡ take (reached dst) queue)
    × (queue ≡ take (tried dst) queue ++ contents after)
    × Valid after

read_loop-contents :
    (dst : List Bool) (pi : Pipe) → Valid pi → Reads dst (contents pi) (read_loop dst pi)
unfolding Reads
read_loop-contents [] pi v = rw (read_loop-nil pi) (refl, refl, v)
read_loop-contents (copied ∷ dst) pi v = elim (ℕ_discrete pi.nread pi.nwrite) [
  | yes e ↦
      rw (read_loop-stop (copied ∷ dst) pi e, contents-empty pi e v)
        (sym (take-nil (reached (copied ∷ dst))), rw (take-nil (tried (copied ∷ dst))) refl, v)
  | no ne ↦
      let (e, v') = contents-pop pi v ne in one copied ne e v' (read_loop-contents dst (pop pi) v')
]
  where
    one :
        (copied : Bool)
        → pi.nread ≢ pi.nwrite
        → contents pi ≡ pi.buf (pi.nread % pipesize) ∷ contents (pop pi)
        → Valid (pop pi)
        → Reads dst (contents (pop pi)) (read_loop dst (pop pi))
        → Reads (copied ∷ dst) (contents pi) (read_loop (copied ∷ dst) pi)
    one false ne e v' rest = rw (read_loop-fails dst pi ne, e) (refl, refl, v')
    one true ne e v' (a, b, v'') =
        let ch = pi.buf (pi.nread % pipesize) in
        rw (read_loop-copies dst pi ne, e)
          (ap (λ (r : List ℕ). ch ∷ r) a, ap (λ (r : List ℕ). ch ∷ r) b, v'')

piperead-waits :
    (killed : Bool) (dst : List Bool) (pi : Pipe)
    → pi.nread == pi.nwrite && pi.writeopen ≡ true
    → (delivered killed dst pi ≡ []) × (read killed dst pi ≡ pi)
unfolding delivered read piperead
piperead-waits killed dst pi e = ground arith

piperead-goes :
    (killed : Bool) (dst : List Bool) (pi : Pipe)
    → pi.nread == pi.nwrite && pi.writeopen ≡ false
    → (delivered killed dst pi ≡ (read_loop dst pi).0) × (read killed dst pi ≡ (read_loop dst pi).1)
unfolding delivered read piperead
piperead-goes killed dst pi e = ground arith

-- What leaves the pipe for a range of the user's.
unfoldable pub taken : List Bool → Pipe → List ℕ
taken dst pi = take (tried dst) (contents pi)

-- From a valid pipe, a piece of `piperead` hands over the oldest bytes, as many as `copyout`
-- reaches, and leaves a valid pipe; what it takes out of the pipe, the handed bytes and the one
-- whose copy failed, and then what it leaves, are the contents before.
pub piperead-contents :
    (killed : Bool) (dst : List Bool) (pi : Pipe)
    → Valid pi
    → (delivered killed dst pi ≡ take (reached dst) (contents pi))
      × (contents pi ≡ taken dst pi ++ contents (read killed dst pi))
      × Valid (read killed dst pi)
unfolding taken Reads
piperead-contents killed dst pi v = elim (Bool-cases (pi.nread == pi.nwrite && pi.writeopen)) [
  | inl waits ↦
      let (d, p) = piperead-waits killed dst pi waits in
      rw (d, p, contents-empty pi (ground arith) v)
        (sym (take-nil (reached dst)), rw (take-nil (tried dst)) refl, v)
  | inr goes ↦
      let (d, p) = piperead-goes killed dst pi goes in rw (d, p) (read_loop-contents dst pi v)
]
