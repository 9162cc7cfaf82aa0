-- ===== src/Kernel/Fs/Io/Read.antt =====
-- `readi` of kernel/fs.c reads the bytes of a file.
use os_proj.Base.{
  ℕ, zero, suc, ◌+◌, ◌-◌, ◌*◌, ◌/◌, ◌%◌, ◌≤◌, ◌<◌, ◌≡◌, ◌≢◌, ◌⊎◌, inl, inr, refl, ap, sym, ◌∙◌,
  arith, Bool, true, false, ltb, ◌==◌, if◌then◌else◌, dec_lt, Res, ok, min, Option, none, some,
}
use os_proj.Kernel.Fs.{Disk, bsize, Superblock}
use os_proj.Kernel.Fs.Bmap.{Inode, maxfile}
use os_proj.Kernel.Fs.Bmap.Mapping.{addr_of}
use os_proj.Kernel.Fs.Bmap.Allocation.{bmap_had}
use os_proj.Kernel.Fs.Io.{
  Memory, add32, add64, blit, UserCopy, either_copyout, read_copied, read_block, read_blocks, readi,
}
use os_proj.Kernel.Fs.Io.Bytes.{
  byte_at, Dense, blit-blit, blit-none, byte_at-block, CopyLaws, OutFails, either_copyout-cases,
}

module _ {c : UserCopy} (laws : CopyLaws c) (sb : Superblock) (user_dst : Bool) (ip : Inode)
    (d : Disk) where
  -- The bytes from `off` on are in memory, or `copyout` has failed on a piece of them.
  abbrev Reads : ℕ → ℕ → ℕ → ℕ → Memory → Res (Option ℕ × Memory × Inode × Disk) → Type 0
  Reads n len off dst mem r =
      (r ≡ ok (some n, blit mem dst (λ i. byte_at ip d (off + i)) len, ip, d))
      ⊎ ((user_dst ≡ true)
          × (mem' : Memory) × OutFails c ip d len off dst mem mem'
          × (r ≡ ok (none, mem', ip, d)))

  -- A piece within a block, and the bytes after it.
  Reads-join :
      (n tot off dst m : ℕ) (mem : Memory) (r : Res (Option ℕ × Memory × Inode × Disk))
      → m ≤ n - tot
      → m ≤ bsize - off % bsize
      → Reads n
          (n - (tot + m))
          (off + m)
          (dst + m)
          (blit mem dst (λ i. d (addr_of ip d (off / bsize)) (off % bsize + i)) m)
          r
      → Reads n (n - tot) off dst mem r
  Reads-join n tot off dst m mem r le in_block (inr (user, mem', o, e)) =
      let src = λ (i : ℕ). d (addr_of ip d (off / bsize)) (off % bsize + i) in
      let all = λ (i : ℕ). byte_at ip d (off + i) in
      let two =
        blit-blit mem dst src (λ i. byte_at ip d (off + m + i)) all m o.done
          (λ i lt. sym (byte_at-block ip d off i (omega arith)))
          (λ i _. let q : off + m + i ≡ off + (m + i) = omega arith in ap (byte_at ip d) q) in
      let place : dst + (m + o.done) ≡ dst + m + o.done = omega arith in
      let bytes : off + (m + o.done) ≡ off + m + o.done = omega arith in
      inr (
        user,
        mem',
        record {
          done = m + o.done;
          len = o.len;
          data_ = o.data_;
          some_bytes = o.some_bytes;
          inside = omega (arith, o.inside);
          piece = λ i lt. rw bytes (o.piece i lt);
          fails = rw (place, sym two) o.fails;
        },
        e,
      )
  Reads-join n tot off dst m mem r le in_block (inl e) =
      let src = λ (i : ℕ). d (addr_of ip d (off / bsize)) (off % bsize + i) in
      let all = λ (i : ℕ). byte_at ip d (off + i) in
      let two =
        blit-blit mem dst src (λ i. byte_at ip d (off + m + i)) all m (n - (tot + m))
          (λ i lt. sym (byte_at-block ip d off i (omega arith)))
          (λ i _. let q : off + m + i ≡ off + (m + i) = omega arith in ap (byte_at ip d) q) in
      let len : m + (n - (tot + m)) ≡ n - tot = omega arith in
      inl (e ∙ ap (λ x. ok (some n, x, ip, d)) (two ∙ ap (blit mem dst all) len))

  round :
      (fuel n tot off dst : ℕ) (mem : Memory)
      → tot < n
      → off < maxfile * bsize
      → addr_of ip d (off / bsize) ≢ 0
      → let m = min (n - tot) (bsize - off % bsize) in
        read_blocks c sb user_dst (suc fuel) n tot off dst mem ip d
        ≡ read_copied
            (λ mem' ip' d'.
              read_blocks c sb user_dst fuel n (tot + m) (add32 off m) (add64 dst m) mem' ip' d')
            ip
            d
            (either_copyout c user_dst mem dst
              (λ i. d (addr_of ip d (off / bsize)) (off % bsize + i))
              m)
  unfolding read_blocks read_block
  round fuel n tot off dst mem lt fits there =
      let goes : ltb tot n ≡ true = ground arith in
      let some_block : (addr_of ip d (off / bsize) == 0) ≡ false = ground arith in
      rw (goes, bmap_had sb ip (off / bsize) d (omega arith) there, some_block) refl

  fails_at_once :
      (n tot off dst m : ℕ) (mem mem' : Memory)
      → 0 < m
      → m ≤ n - tot
      → m ≤ bsize - off % bsize
      → c.copyout mem dst (λ i. d (addr_of ip d (off / bsize)) (off % bsize + i)) m ≡ (false, mem')
      → OutFails c ip d (n - tot) off dst mem mem'
  fails_at_once n tot off dst m mem mem' pos_ le in_block fails =
      let place : dst + 0 ≡ dst = omega arith in
      let start : off + 0 ≡ off = omega arith in
      record {
        done = 0;
        len = m;
        data_ = λ i. d (addr_of ip d (off / bsize)) (off % bsize + i);
        some_bytes = pos_;
        inside = omega arith;
        piece = λ i lt. rw start (sym (byte_at-block ip d off i (omega arith)));
        fails = rw (place, blit-none mem dst (λ i. byte_at ip d (off + i))) fails;
      }

  read_blocks-Reads :
      (fuel n tot off dst : ℕ) (mem : Memory)
      → n - tot ≤ fuel
      → tot ≤ n
      → off + (n - tot) ≤ maxfile * bsize
      → dst + (n - tot) < 18446744073709551616
      → ((x : ℕ) → x * bsize < off + (n - tot) → addr_of ip d x ≢ 0)
      → Reads n (n - tot) off dst mem (read_blocks c sb user_dst fuel n tot off dst mem ip d)
  unfolding read_blocks read_copied
  read_blocks-Reads zero n tot off dst mem enough le fits in_mem there =
      let e : n ≡ tot = omega arith in
      let z : n - tot ≡ 0 = omega arith in
      inl (rw (z, blit-none mem dst (λ i. byte_at ip d (off + i)), e) refl)
  read_blocks-Reads (suc fuel) n tot off dst mem enough le fits in_mem there = elim (dec_lt tot n) [
    | no stop ↦
        let e : n ≡ tot = omega arith in
        let z : n - tot ≡ 0 = omega arith in
        let b : ltb tot n ≡ false = ground arith in
        inl (rw (z, blit-none mem dst (λ i. byte_at ip d (off + i)), b, e) refl)
    | yes lt ↦
        let m = min (n - tot) (bsize - off % bsize) in
        let m_le : m ≤ n - tot = omega arith in
        let m_block : m ≤ bsize - off % bsize = omega arith in
        let m_pos : 0 < m = omega arith in
        let next : add32 off m ≡ off + m = omega arith in
        let next_dst : add64 dst m ≡ dst + m = omega arith in
        let src = λ (i : ℕ). d (addr_of ip d (off / bsize)) (off % bsize + i) in
        elim (either_copyout-cases laws user_dst mem dst src m) [
          | inl e ↦
              rw
                (
                  round fuel n tot off dst mem lt (omega arith) (there (off / bsize) (omega arith)),
                  e,
                  next,
                  next_dst,
                )
                (Reads-join n tot off dst m mem
                  (read_blocks c sb user_dst fuel n (tot + m) (off + m) (dst + m)
                    (blit mem dst src m) ip d)
                  m_le m_block
                  (read_blocks-Reads fuel n (tot + m) (off + m) (dst + m) (blit mem dst src m)
                    (omega arith) (omega arith) (omega arith) (omega arith)
                    (λ x l. there x (omega arith))))
          | inr (user, mem', fails, e) ↦
              rw
                (
                  round fuel n tot off dst mem lt (omega arith) (there (off / bsize) (omega arith)),
                  e,
                )
                (inr (
                  user,
                  mem',
                  fails_at_once n tot off dst m mem mem' m_pos m_le m_block fails,
                  refl,
                ))
        ]
  ]

  -- On a file without holes, `readi` gives the bytes from `off` on, `n` of them or as many as
  -- there are up to the size, and changes neither the inode, nor the disk, nor other memory; or
  -- `copyout` fails on a piece of those bytes, after the ones before it, and it gives -1. From
  -- beyond the size, or where `off + n` wraps, it gives 0 and changes nothing.
  pub readi-Reads :
      (dst off n : ℕ) (mem : Memory)
      → Dense ip d
      → off < 4294967296
      → n < 4294967296
      → dst + n < 18446744073709551616
      → let k = min n (ip.size - off) in
        ((off ≤ ip.size)
          × (off + n < 4294967296)
          × Reads k k off dst mem (readi c sb ip user_dst dst off n mem d))
        ⊎ (((ip.size < off) ⊎ (4294967296 ≤ off + n))
            × (readi c sb ip user_dst dst off n mem d ≡ ok (some 0, mem, ip, d)))
  unfolding readi Dense
  readi-Reads dst off n mem (small, there) lo ln in_mem = elim (dec_lt ip.size off) [
    | yes beyond ↦ let b : ltb ip.size off ≡ true = ground arith in inr (inl beyond, rw b refl)
    | no inside ↦ elim (dec_lt (off + n) 4294967296) [
      | no wraps ↦
          let b : ltb (add32 off n) off ≡ true = ground arith in
          inr (inr (omega arith), ground arith)
      | yes fits ↦
          let k = min n (ip.size - off) in
          let sum : add32 off n ≡ off + n = omega arith in
          let b : ltb ip.size off ≡ false = ground arith in
          let b' : ltb (off + n) off ≡ false = ground arith in
          let len : (if ltb ip.size (off + n) then ip.size - off else n) ≡ k = ground arith in
          let all : k - 0 ≡ k = omega arith in
          let reads =
            read_blocks-Reads k k 0 off dst mem (omega arith) (omega arith) (omega arith)
              (omega arith) (λ x l. there x (omega arith)) in
          inl (omega arith, fits, rw (sum, b, b', len) (rw all at reads))
    ]
  ]
