-- ===== src/Kernel/File/Examples.antt =====
-- A table of open files in which the first entry is in use.
use os_proj.Base.{ℕ, ◌-◌, ◌≡◌, ◌≢◌, ◌⊎◌, arith, true, false, ok, update}
use os_proj.Kernel.File.{File, Ftable, Closing, nothing, fileclose, fd_none, fd_pipe}
use os_proj.Kernel.File.Table.{Closes, fileclose-last}

abbrev unused : File
unused = record {
  type_ = fd_none;
  ref = 0;
  readable = false;
  writable = false;
  pipe = 0;
  ip = 0;
  off = 0;
  major = 0;
}

abbrev writer : File
writer = record {
  type_ = fd_pipe;
  ref = 1;
  readable = false;
  writable = true;
  pipe = 5;
  ip = 0;
  off = 0;
  major = 0;
}

abbrev one_open : Ftable
one_open = update (λ f. unused) 0 writer

fileclose-last_example :
    (t' : Ftable) × ((x : ℕ) → x ≢ 0 → t' x ≡ one_open x)
    × ((t' 0).ref ≡ (one_open 0).ref - 1)
    × ((((one_open 0).ref ≡ 1)
          × ((t' 0).type_ ≡ fd_none)
          × (what : Closing) × Closes (one_open 0) what
          × (fileclose one_open 0 ≡ ok (what, t')))
        ⊎ (((one_open 0).ref ≢ 1)
            × (t' 0 ≡ record (one_open 0) { ref = (one_open 0).ref - 1 })
            × (fileclose one_open 0 ≡ ok (nothing, t'))))
fileclose-last_example = fileclose-last one_open 0 (λ e. omega arith)
