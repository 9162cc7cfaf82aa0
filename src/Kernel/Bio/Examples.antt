-- ===== src/Kernel/Bio/Examples.antt =====
-- A concrete cache for the theorem on kernel/bio.c.
use os_proj.Base.{◌≡◌, refl, arith, true, [], ◌∷◌, ◌==◌, if◌then◌else◌}
use os_proj.Kernel.Bio.{Bcache, find_buf, reverse, recycle, bget_with, bget}
use os_proj.Kernel.Bio.Cache.{Single, bget-Single}

-- Buffer 0 holds block 7 and is in use; buffer 1 is fresh.
abbrev two : Bcache
two = record {
  buf = λ b. record {
    valid = true;
    dev = if b == 0 then 1 else 0;
    blockno = if b == 0 then 7 else 0;
    refcnt = if b == 0 then 1 else 0;
  };
  order = 0 ∷ 1 ∷ [];
}

two-Single : Single two
two-Single i j mi mj real de be = ground arith

bget-Single_example :
    (((recycle 1 9 1 two).buf 1).dev ≡ 1)
    × (((recycle 1 9 1 two).buf 1).blockno ≡ 9)
    × Single (recycle 1 9 1 two)
unfolding bget bget_with find_buf reverse
bget-Single_example = bget-Single 1 9 1 two (recycle 1 9 1 two) two-Single refl
