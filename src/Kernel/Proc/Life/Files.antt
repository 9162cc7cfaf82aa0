-- ===== src/Kernel/Proc/Life/Files.antt =====
-- The loops of `fork` and `exit` of kernel/proc.c over the open files of a process.
use os_proj.Base.{
  ℕ, zero, suc, ◌+◌, ◌≡◌, ◌≢◌, refl, ◌∙◌, ap, ◌≤◌, List, ◌∷◌, ◌&&◌, Option, none, some, arith, ltb,
  leb, ◌==◌, if◌then◌else◌,
}
use os_proj.Kernel.Proc.Table.{nofile, Call, fileclose, Table}
use os_proj.Kernel.Proc.Life.{dup_one, dup_files, close_one, close_files}

-- The loops over open files change the `ofile` of one process, and nothing else of any process.
abbrev pub FilesOnly : ℕ → Table → Table → Type 0
FilesOnly i t t' =
    ((j : ℕ) → j ≢ i → t'.proc j ≡ t.proc j)
    × (t'.proc i ≡ record (t.proc i) { ofile = (t'.proc i).ofile })
    × (t'.initproc ≡ t.initproc)
    × (t'.nextpid ≡ t.nextpid)

FilesOnly-trans : (i : ℕ) (t u v : Table) → FilesOnly i t u → FilesOnly i u v → FilesOnly i t v
FilesOnly-trans i t u v (a, b, c, n) (d, e, f, o) =
    (λ j h. d j h ∙ a j h, ground arith, f ∙ c, o ∙ n)

dup_one-FilesOnly : (o : Option ℕ) (np fd : ℕ) (t : Table) → FilesOnly np t (dup_one o np fd t)
unfolding dup_one
dup_one-FilesOnly none np fd t = (λ j h. refl, refl, refl, refl)
dup_one-FilesOnly (some f) np fd t = (λ j h. ground arith, ground arith, refl, refl)

close_one-FilesOnly : (o : Option ℕ) (i fd : ℕ) (t : Table) → FilesOnly i t (close_one o i fd t)
unfolding close_one
close_one-FilesOnly none i fd t = (λ j h. refl, refl, refl, refl)
close_one-FilesOnly (some f) i fd t = (λ j h. ground arith, ground arith, refl, refl)

pub dup_files-FilesOnly : (cur np k fd : ℕ) (t : Table) → FilesOnly np t (dup_files cur np k fd t)
unfolding dup_files
dup_files-FilesOnly cur np zero fd t = (λ j h. refl, refl, refl, refl)
dup_files-FilesOnly cur np (suc k) fd t =
    let u = dup_one ((t.proc cur).ofile fd) np fd t in
    FilesOnly-trans np t u (dup_files cur np k (fd + 1) u)
      (dup_one-FilesOnly ((t.proc cur).ofile fd) np fd t) (dup_files-FilesOnly cur np k (fd + 1) u)

pub close_files-FilesOnly : (cur k fd : ℕ) (t : Table) → FilesOnly cur t (close_files cur k fd t)
unfolding close_files
close_files-FilesOnly cur zero fd t = (λ j h. refl, refl, refl, refl)
close_files-FilesOnly cur (suc k) fd t =
    let u = close_one ((t.proc cur).ofile fd) cur fd t in
    FilesOnly-trans cur t u (close_files cur k (fd + 1) u)
      (close_one-FilesOnly ((t.proc cur).ofile fd) cur fd t)
      (close_files-FilesOnly cur k (fd + 1) u)

-- A file of the parent, or what the child had.
abbrev pub or_else : Option ℕ → Option ℕ → Option ℕ
or_else none o = o
or_else (some f) o = some f

dup_one-ofile :
    (o : Option ℕ) (np fd : ℕ) (t : Table) (i : ℕ)
    → ((dup_one o np fd t).proc np).ofile i
      ≡ (if i == fd then or_else o ((t.proc np).ofile i) else (t.proc np).ofile i)
unfolding dup_one
dup_one-ofile none np fd t i = ground arith
dup_one-ofile (some f) np fd t i = ground arith

pub dup_files-ofile :
    (cur np : ℕ)
    → cur ≢ np
    → (k fd : ℕ) (t : Table) (i : ℕ)
    → ((dup_files cur np k fd t).proc np).ofile i ≡ (
        if leb fd i && ltb i (fd + k)
        then or_else ((t.proc cur).ofile i) ((t.proc np).ofile i)
        else (t.proc np).ofile i)
unfolding dup_files
dup_files-ofile cur np ne zero fd t i = ground arith
dup_files-ofile cur np ne (suc k) fd t i =
    let o = (t.proc cur).ofile fd in
    let u = dup_one o np fd t in
    ground (
      arith,
      dup_files-ofile cur np ne k (fd + 1) u i,
      dup_one-ofile o np fd t i,
      (dup_one-FilesOnly o np fd t).0 cur ne,
    )

abbrev pub log_close : Option ℕ → List Call → List Call
log_close none calls = calls
log_close (some f) calls = fileclose f ∷ calls

close_one-ofile :
    (o : Option ℕ) (cur fd : ℕ) (t : Table) (i : ℕ)
    → (t.proc cur).ofile fd ≡ o
    → ((close_one o cur fd t).proc cur).ofile i ≡ (if i == fd then none else (t.proc cur).ofile i)
unfolding close_one
close_one-ofile none cur fd t i e = ground arith
close_one-ofile (some f) cur fd t i e = ground arith

-- The calls of `fileclose` for the first `k` descriptors that are open, the latest first.
pub file_closes : (ℕ → Option ℕ) → ℕ → List Call → List Call
file_closes ofile zero earlier = earlier
file_closes ofile (suc fd) earlier = log_close (ofile fd) (file_closes ofile fd earlier)

close_one-calls :
    (o : Option ℕ) (cur fd : ℕ) (t : Table) → (close_one o cur fd t).calls ≡ log_close o t.calls
unfolding close_one
close_one-calls none cur fd t = refl
close_one-calls (some f) cur fd t = refl

close_files-calls :
    (cur : ℕ) (ofile : ℕ → Option ℕ) (earlier : List Call) (k fd : ℕ) (t : Table)
    → ((i : ℕ) → fd ≤ i → (t.proc cur).ofile i ≡ ofile i)
    → t.calls ≡ file_closes ofile fd earlier
    → (close_files cur k fd t).calls ≡ file_closes ofile (fd + k) earlier
unfolding close_files file_closes
close_files-calls cur ofile earlier zero fd t same e = let z : fd + 0 ≡ fd = omega arith in rw z e
close_files-calls cur ofile earlier (suc k) fd t same e =
    let o = (t.proc cur).ofile fd in
    let u = close_one o cur fd t in
    let s : fd + 1 ≡ suc fd = omega arith in
    let z : fd + 1 + k ≡ fd + suc k = omega arith in
    let here = same fd (omega arith) in
    let now : u.calls ≡ file_closes ofile (suc fd) earlier =
      close_one-calls o cur fd t
      ∙ ap (log_close o) e
      ∙ ap (λ x. log_close x (file_closes ofile fd earlier)) here in
    rw z at (
      close_files-calls cur ofile earlier k (fd + 1) u
        (λ i le. ground (arith, close_one-ofile o cur fd t i refl, same i (omega arith)))
        (rw s now))

-- All the open files are closed, in the order of their descriptors.
pub close_files-all :
    (cur : ℕ) (t : Table)
    → (close_files cur nofile 0 t).calls ≡ file_closes (t.proc cur).ofile nofile t.calls
unfolding file_closes
close_files-all cur t =
    close_files-calls cur (t.proc cur).ofile t.calls nofile 0 t (λ i le. refl) refl

pub close_files-ofile :
    (cur k fd : ℕ) (t : Table) (i : ℕ)
    → ((close_files cur k fd t).proc cur).ofile i
      ≡ (if leb fd i && ltb i (fd + k) then none else (t.proc cur).ofile i)
unfolding close_files
close_files-ofile cur zero fd t i = ground arith
close_files-ofile cur (suc k) fd t i =
    let o = (t.proc cur).ofile fd in
    ground (
      arith,
      close_files-ofile cur k (fd + 1) (close_one o cur fd t) i,
      close_one-ofile o cur fd t i refl,
    )
