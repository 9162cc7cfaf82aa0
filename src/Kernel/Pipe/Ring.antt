-- ===== src/Kernel/Pipe/Ring.antt =====
-- The ring buffer of kernel/pipe.c as a queue of bytes.
use os_proj.Base.{
  ℕ, zero, suc, ◌+◌, ◌-◌, ◌%◌, ◌≤◌, ◌<◌, ◌≡◌, ◌≢◌, refl, ap, sym, ◌∙◌, List, [], ◌∷◌, ◌++◌, update,
  update_self, update_ne, arith,
}
use os_proj.Kernel.Pipe.{Pipe, pipesize, uint_size}

-- The `k` bytes from position `s` on.
unfoldable pub bytes_from : (ℕ → ℕ) → ℕ → ℕ → List ℕ
bytes_from cells s zero = []
bytes_from cells s (suc k) = cells (s % pipesize) ∷ bytes_from cells (s + 1) k

-- `nwrite - nread`, as a `uint`.
unfoldable pub used : Pipe → ℕ
used pi = (pi.nwrite + (uint_size - pi.nread)) % uint_size

-- What was written and not yet read.
unfoldable pub contents : Pipe → List ℕ
contents pi = bytes_from pi.buf pi.nread (used pi)

pub record Valid (pi : Pipe) : Type 0 where
  pub read_bound : pi.nread < uint_size
  pub write_bound : pi.nwrite < uint_size
  pub fits : used pi ≤ pipesize

pub bytes_from-mod :
    (cells : ℕ → ℕ) (s s' k : ℕ)
    → s % pipesize ≡ s' % pipesize
    → bytes_from cells s k ≡ bytes_from cells s' k
unfolding bytes_from
bytes_from-mod cells s s' zero e = refl
bytes_from-mod cells s s' (suc k) e = rw (e, bytes_from-mod cells (s + 1) (s' + 1) k (omega arith))

-- A write beyond the bytes leaves them alone.
pub bytes_from-update :
    (cells : ℕ → ℕ) (s k m c : ℕ)
    → k ≤ m
    → m < pipesize
    → bytes_from (update cells ((s + m) % pipesize) c) s k ≡ bytes_from cells s k
unfolding bytes_from
bytes_from-update cells s zero m c le lt = refl
bytes_from-update cells s (suc k) zero c le lt = absurd (omega arith)
bytes_from-update cells s (suc k) (suc m) c le lt =
    let ih = bytes_from-update cells (s + 1) k m c (omega arith) (omega arith) in
    let same : (s + suc m) % pipesize ≡ (s + 1 + m) % pipesize = omega arith in
    let ne : s % pipesize ≢ (s + suc m) % pipesize = omega arith in
    let head = update_ne cells ((s + suc m) % pipesize) c (s % pipesize) ne in
    let tail : bytes_from (update cells ((s + suc m) % pipesize) c) (s + 1) k
        ≡ bytes_from cells (s + 1) k =
      ap (λ y. bytes_from (update cells y c) (s + 1) k) same ∙ ih in
    cc

pub bytes_from-snoc :
    (cells : ℕ → ℕ) (s k : ℕ)
    → bytes_from cells s (suc k) ≡ bytes_from cells s k ++ cells ((s + k) % pipesize) ∷ []
unfolding bytes_from
bytes_from-snoc cells s zero = let e : s ≡ s + 0 = omega arith in rw (sym e)
bytes_from-snoc cells s (suc k) =
    let e : s + 1 + k ≡ s + suc k = omega arith in
    ap (λ (r : List ℕ). cells (s % pipesize) ∷ r) (bytes_from-snoc cells (s + 1) k ∙ rw e)

-- `data[nwrite++ % PIPESIZE] = ch`, where the pipe is not full.
unfoldable pub push : ℕ → Pipe → Pipe
push ch pi = record pi {
  buf = update pi.buf (pi.nwrite % pipesize) ch;
  nwrite = (pi.nwrite + 1) % uint_size;
}

-- `nread++`.
unfoldable pub pop : Pipe → Pipe
pop pi = record pi { nread = (pi.nread + 1) % uint_size }

pub used-push :
    (ch : ℕ) (pi : Pipe)
    → Valid pi
    → pi.nwrite ≢ (pi.nread + pipesize) % uint_size
    → (used (push ch pi) ≡ suc (used pi)) × (used pi < pipesize)
unfolding used push
used-push ch pi v ne = (
  omega (arith, v.read_bound, v.write_bound, v.fits),
  omega (arith, v.read_bound, v.write_bound, v.fits),
)

pub push-Valid :
    (ch : ℕ) (pi : Pipe)
    → Valid pi
    → pi.nwrite ≢ (pi.nread + pipesize) % uint_size
    → Valid (push ch pi)
unfolding push
push-Valid ch pi v ne =
    let (e, lt) = used-push ch pi v ne in
    record { read_bound = v.read_bound; write_bound = omega arith; fits = omega arith }

at_end : (pi : Pipe) → Valid pi → pi.nwrite % pipesize ≡ (pi.nread + used pi) % pipesize
unfolding used
at_end pi v = omega (arith, v.read_bound, v.write_bound)

pub contents-push :
    (ch : ℕ) (pi : Pipe)
    → Valid pi
    → pi.nwrite ≢ (pi.nread + pipesize) % uint_size
    → contents (push ch pi) ≡ contents pi ++ ch ∷ []
unfolding contents push
contents-push ch pi v ne =
    let (e, lt) = used-push ch pi v ne in
    let at : pi.nwrite % pipesize ≡ (pi.nread + used pi) % pipesize = at_end pi v in
    let cells = update pi.buf (pi.nwrite % pipesize) ch in
    let count : contents (push ch pi) ≡ bytes_from cells pi.nread (suc (used pi)) =
      ap (bytes_from cells pi.nread) e in
    let last = bytes_from-snoc cells pi.nread (used pi) in
    let front : bytes_from cells pi.nread (used pi) ≡ contents pi =
      ap (λ y. bytes_from (update pi.buf y ch) pi.nread (used pi)) at
      ∙ bytes_from-update pi.buf pi.nread (used pi) (used pi) ch (omega arith) lt in
    let cell : cells ((pi.nread + used pi) % pipesize) ≡ ch =
      ap cells (sym at) ∙ update_self pi.buf (pi.nwrite % pipesize) ch in
    count
    ∙ last
    ∙ ap (λ (r : List ℕ). r ++ cells ((pi.nread + used pi) % pipesize) ∷ []) front
    ∙ ap (λ (c : ℕ). contents pi ++ c ∷ []) cell

used-pop : (pi : Pipe) → Valid pi → pi.nread ≢ pi.nwrite → used pi ≡ suc (used (pop pi))
unfolding used pop
used-pop pi v ne = omega (arith, v.read_bound, v.write_bound, v.fits)

pub contents-pop :
    (pi : Pipe)
    → Valid pi
    → pi.nread ≢ pi.nwrite
    → (contents pi ≡ pi.buf (pi.nread % pipesize) ∷ contents (pop pi)) × Valid (pop pi)
unfolding contents pop bytes_from
contents-pop pi v ne =
    let e = used-pop pi v ne in
    let shift =
      bytes_from-mod pi.buf (pi.nread + 1) ((pi.nread + 1) % uint_size) (used (pop pi))
        (omega arith) in
    let tail = ap (λ (r : List ℕ). pi.buf (pi.nread % pipesize) ∷ r) shift in
    (
      ap (bytes_from pi.buf pi.nread) e ∙ tail,
      record {
        read_bound = omega arith;
        write_bound = v.write_bound;
        fits = omega (arith, v.fits);
      },
    )
