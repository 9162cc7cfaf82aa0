-- ===== src/Kernel/Fs/Io/Write.antt =====
-- `writei` of kernel/fs.c writes bytes into a file.
use os_proj.Base.{
  ℕ, zero, suc, ◌+◌, ◌-◌, ◌*◌, ◌/◌, ◌%◌, ◌≤◌, ◌<◌, ◌≡◌, ◌≢◌, ◌⊎◌, inl, inr, refl, ap, ◌∙◌, arith,
  Bool, true, false, ltb, ◌==◌, update, ℕ_discrete, dec_lt, Res, ok, min,
}
use os_proj.Kernel.Fs.{Disk, bsize, Superblock}
use os_proj.Kernel.Fs.Bitmap.{is_used}
use os_proj.Kernel.Fs.Bmap.{Inode, maxfile, bmap}
use os_proj.Kernel.Fs.Bmap.Laws.{File}
use os_proj.Kernel.Fs.Bmap.Allocation.{bmap-Bmapped}
use os_proj.Kernel.Fs.Io.{
  Memory, add32, add64, blit, UserCopy, either_copyin, write_copied, write_block, write_blocks,
}
use os_proj.Kernel.Fs.Io.Bytes.{blit-in, blit-out, CopyLaws, InFails, either_copyin-cases}
use os_proj.Kernel.Fs.Io.Wrote.{Wrote, Wrote-none, Wrote-full, Wrote-join, Wrote-block}

abbrev pub Full : Superblock → Disk → Type 0
Full sb d = (x : ℕ) → x < sb.size → is_used sb d x ≡ true

-- Why bytes from `src` on, `left` of them, are not written.
abbrev pub Short : UserCopy → Superblock → Bool → Memory → ℕ → ℕ → Disk → Type 0
Short c sb user_src mem src left d = ((user_src ≡ true) × InFails c mem src left) ⊎ Full sb d

-- How the loop of `writei` ends: after `t` more bytes, all unless the disk is full or `copyin`
-- fails on a piece that starts with the next byte.
pub record Writes (c : UserCopy) (sb : Superblock) (user_src : Bool) (n tot off src : ℕ)
    (mem : Memory) (ip : Inode) (d : Disk) (r : Res (ℕ × ℕ × Inode × Disk)) : Type 0 where
  pub count : ℕ
  pub inode : Inode
  pub disk : Disk
  pub returns : r ≡ ok (tot + count, off + count, inode, disk)
  pub wrote : Wrote sb ip d mem src off (n - tot) count inode disk
  pub at_most : count ≤ n - tot
  pub short : count < n - tot → Short c sb user_src mem (src + count) (n - tot - count) disk

module _ {c : UserCopy} (laws : CopyLaws c) (sb : Superblock) (user_src : Bool) (mem : Memory) where
  round_full :
      (fuel n tot off src : ℕ) (ip ip' : Inode) (d d' : Disk)
      → tot < n
      → bmap sb ip (off / bsize) d ≡ ok (0, ip', d')
      → write_blocks c sb user_src (suc fuel) n tot off src mem ip d ≡ ok (tot, off, ip', d')
  unfolding write_blocks write_block
  round_full fuel n tot off src ip ip' d d' lt e =
      let goes : ltb tot n ≡ true = ground arith in rw (goes, e) refl

  round :
      (fuel n tot off src a : ℕ) (ip ip' : Inode) (d d' : Disk)
      → tot < n
      → bmap sb ip (off / bsize) d ≡ ok (a, ip', d')
      → a ≢ 0
      → let m = min (n - tot) (bsize - off % bsize) in
        write_blocks c sb user_src (suc fuel) n tot off src mem ip d
        ≡ write_copied
            (λ ip'' d''.
              write_blocks c sb user_src fuel n (tot + m) (add32 off m) (add64 src m) mem ip'' d'')
            tot
            off
            a
            ip'
            d'
            (either_copyin c user_src mem src (d' a) (off % bsize) m)
  unfolding write_blocks write_block
  round fuel n tot off src a ip ip' d d' lt e ne =
      let goes : ltb tot n ≡ true = ground arith in
      let some_block : (a == 0) ≡ false = ground arith in rw (goes, e, some_block) refl

  stops :
      (n tot off src : ℕ) (ip ip' : Inode) (d d' : Disk) (r : Res (ℕ × ℕ × Inode × Disk))
      → r ≡ ok (tot, off, ip', d')
      → Wrote sb ip d mem src off (n - tot) 0 ip' d'
      → (0 < n - tot → Short c sb user_src mem src (n - tot) d')
      → Writes c sb user_src n tot off src mem ip d r
  stops n tot off src ip ip' d d' r e w short =
      let t : tot + 0 ≡ tot = omega arith in
      let o : off + 0 ≡ off = omega arith in
      let s : src + 0 ≡ src = omega arith in
      let l : n - tot - 0 ≡ n - tot = omega arith in
      record {
        count = 0;
        inode = ip';
        disk = d';
        returns = rw (t, o) e;
        wrote = w;
        at_most = omega arith;
        short = rw (s, l) short;
      }

  goes_on :
      (n tot off src m : ℕ) (ip ip' : Inode) (d d' : Disk) (r : Res (ℕ × ℕ × Inode × Disk))
      → m ≤ n - tot
      → off + (n - tot) ≤ maxfile * bsize
      → Wrote sb ip d mem src off m m ip' d'
      → Writes c sb user_src n (tot + m) (off + m) (src + m) mem ip' d' r
      → Writes c sb user_src n tot off src mem ip d r
  goes_on n tot off src m ip ip' d d' r le fits w v =
      let t : tot + (m + v.count) ≡ tot + m + v.count = omega arith in
      let o : off + (m + v.count) ≡ off + m + v.count = omega arith in
      let k : n - (tot + m) ≡ n - tot - m = omega arith in
      let s : src + (m + v.count) ≡ src + m + v.count = omega arith in
      let left : n - tot - (m + v.count) ≡ n - (tot + m) - v.count = omega arith in
      record {
        count = m + v.count;
        inode = v.inode;
        disk = v.disk;
        returns = rw (t, o) v.returns;
        wrote = Wrote-join le fits w (rw k at v.wrote);
        at_most = omega (arith, v.at_most);
        short = λ l. rw (s, left) (v.short (omega arith));
      }

  pub write_blocks-Writes :
      (fuel n tot off src : ℕ) (ip : Inode) (d : Disk)
      → n - tot ≤ fuel
      → tot ≤ n
      → off + (n - tot) ≤ maxfile * bsize
      → src + (n - tot) < 18446744073709551616
      → File sb ip d
      → Writes c sb user_src n tot off src mem ip d
          (write_blocks c sb user_src fuel n tot off src mem ip d)
  unfolding write_blocks write_copied
  write_blocks-Writes zero n tot off src ip d enough le fits in_mem f =
      stops n tot off src ip ip d d (ok (tot, off, ip, d)) refl (Wrote-none mem src off (n - tot) f)
        (λ l. absurd (omega arith))
  write_blocks-Writes (suc fuel) n tot off src ip d enough le fits in_mem f = elim (dec_lt tot n) [
    | no stop ↦
        let b : ltb tot n ≡ false = ground arith in
        rw b (
          stops n tot off src ip ip d d (ok (tot, off, ip, d)) refl
            (Wrote-none mem src off (n - tot) f) (λ l. absurd (omega arith)))
    | yes lt ↦ elim (bmap-Bmapped sb ip d f (off / bsize)) [
      | inr (beyond, e) ↦ absurd (omega arith)
      | inl (inside, (a, ip', d', e, b)) ↦ elim (ℕ_discrete a 0) [
        | yes z ↦
            let b' = rw z at b in
            let e' = e ∙ ap (λ x. ok (x, ip', d')) z in
            stops n tot off src ip ip' d d'
              (write_blocks c sb user_src (suc fuel) n tot off src mem ip d)
              (round_full fuel n tot off src ip ip' d d' lt e')
              (Wrote-full mem src off (n - tot) b') (λ _. inr (b.full z))
        | no ne ↦
            let m = min (n - tot) (bsize - off % bsize) in
            let m_le : m ≤ n - tot = omega arith in
            let m_block : m ≤ bsize - off % bsize = omega arith in
            let m_pos : 0 < m = omega arith in
            let next : add32 off m ≡ off + m = omega arith in
            let next_src : add64 src m ≡ src + m = omega arith in
            elim (either_copyin-cases laws user_src mem src (d' a) (off % bsize) m) [
              | inl copied ↦
                  let buf = blit (d' a) (off % bsize) (λ i. mem (src + i)) m in
                  let w =
                    Wrote-block mem src off m m m buf b ne (omega arith) m_block (omega arith)
                      (omega arith) (blit-in (d' a) (off % bsize) (λ i. mem (src + i)) m)
                      (blit-out (d' a) (off % bsize) (λ i. mem (src + i)) m) in
                  rw (round fuel n tot off src a ip ip' d d' lt e ne, copied, next, next_src)
                    (goes_on n tot off src m ip ip' d (update d' a buf)
                      (write_blocks c sb user_src fuel n (tot + m) (off + m) (src + m) mem ip'
                        (update d' a buf))
                      m_le fits w
                      (write_blocks-Writes fuel n (tot + m) (off + m) (src + m) ip'
                        (update d' a buf) (omega arith) (omega arith) (omega arith) (omega arith)
                        w.file))
              | inr (user, fails, buf, failed, outer) ↦
                  stops n tot off src ip ip' d (update d' a buf)
                    (write_blocks c sb user_src (suc fuel) n tot off src mem ip d)
                    (rw (round fuel n tot off src a ip ip' d d' lt e ne, failed) refl)
                    (Wrote-block mem src off m (n - tot) 0 buf b ne (omega arith) m_block m_le
                      (omega arith) (λ i l. absurd (omega arith)) outer)
                    (λ _. inl (
                      user,
                      record {
                        len = m;
                        buf = d' a;
                        from = off % bsize;
                        some_bytes = m_pos;
                        inside = m_le;
                        fails = fails;
                      },
                    ))
            ]
      ]
    ]
  ]
