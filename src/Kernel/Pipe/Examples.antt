-- ===== src/Kernel/Pipe/Examples.antt =====
-- Concrete pipes for the theorems on kernel/pipe.c.
use os_proj.Base.{ℕ, ◌≡◌, arith, ◌%◌, true, false, none, some, [], ◌∷◌, ◌++◌}
use os_proj.Kernel.Pipe.{Pipe, new_pipe, pipewrite}
use os_proj.Kernel.Pipe.Ring.{bytes_from, used, contents, Valid}
use os_proj.Kernel.Pipe.Write.{accepted, written, pipewrite-contents}
use os_proj.Kernel.Pipe.Read.{delivered, taken, read, piperead-contents}
use os_proj.Kernel.Pipe.Fifo.{lost, start, writes, reads, Run-fifo}

-- Both counters are about to wrap around, with two bytes in the pipe.
abbrev wrapping : Pipe
wrapping = record {
  buf = λ i. i % 256;
  nread = 4294967294;
  nwrite = 0;
  readopen = true;
  writeopen = true;
}

wrapping-Valid : Valid wrapping
unfolding used
wrapping-Valid = record { read_bound = omega arith; write_bound = omega arith; fits = omega arith }

pipewrite-contents_example :
    (contents (written false (some 7 ∷ none ∷ []) 0 wrapping) ≡ 254 ∷ 255 ∷ 7 ∷ [])
    × Valid (written false (some 7 ∷ none ∷ []) 0 wrapping)
unfolding contents used bytes_from accepted
pipewrite-contents_example = pipewrite-contents false (some 7 ∷ none ∷ []) 0 wrapping wrapping-Valid

piperead-contents_example :
    (delivered false (true ∷ []) wrapping ≡ 254 ∷ [])
    × (contents wrapping ≡ taken (true ∷ []) wrapping ++ contents (read false (true ∷ []) wrapping))
    × Valid (read false (true ∷ []) wrapping)
unfolding contents used bytes_from
piperead-contents_example = piperead-contents false (true ∷ []) wrapping wrapping-Valid

abbrev page : ℕ → ℕ
page i = 0

abbrev two_bytes : Pipe
two_bytes = written false (some 1 ∷ some 2 ∷ []) 0 (new_pipe page)

Run-fifo_example :
    (1 ∷ 2 ∷ []
      ≡ (delivered false (true ∷ []) two_bytes ++ [])
        ++ contents (read false (true ∷ []) two_bytes))
    × Valid (read false (true ∷ []) two_bytes)
unfolding new_pipe accepted used lost written pipewrite contents bytes_from
Run-fifo_example =
    Run-fifo (reads false (true ∷ []) (writes false (some 1 ∷ some 2 ∷ []) 0 (start page)))
