-- ===== src/Kernel/Fs/Dir/Entries.antt =====
-- The loops over the entries of a directory in kernel/fs.c.
use os_proj.Base.{
  ℕ, zero, suc, ◌+◌, ◌-◌, ◌%◌, ◌≤◌, ◌<◌, ◌≡◌, inl, inr, refl, ap, sym, ◌∙◌, arith, Bool, true,
  false, ltb, min, List, some, Bool-cases, dec_lt, ℕ_discrete, Res, ok,
}
use os_proj.Kernel.Fs.{Disk, Superblock}
use os_proj.Kernel.Fs.Bmap.{Inode}
use os_proj.Kernel.Fs.Io.{Memory, add32, blit, UserCopy, readi}
use os_proj.Kernel.Fs.Io.Bytes.{byte_at, Dense, CopyLaws, blit-in}
use os_proj.Kernel.Fs.Io.Read.{readi-Reads}
use os_proj.Kernel.Fs.Dir.{entry_inum, is_free, is_named, name_at, scan_entry, scan_dir}

-- The entry at an offset.
abbrev pub entry_at : Inode → Disk → ℕ → Memory
entry_at dp d off = λ i. byte_at dp d (off + i)

-- A test that reads the entry and nothing else.
abbrev pub Local : (Memory → Bool) → Type 0
Local test = (m m' : Memory) → ((i : ℕ) → i < 16 → m i ≡ m' i) → test m ≡ test m'

-- A directory's bytes are all there, and make up whole entries.
pub record IsDir (dp : Inode) (d : Disk) : Type 0 where
  pub dense : Dense dp d
  pub whole : dp.size % 16 ≡ 0

-- How the loop ends from the offset `off`: at the first entry that passes, or at the size.
pub record Scanned (test : Memory → Bool) (off : ℕ) (dp : Inode) (d : Disk)
    (r : Res (Bool × ℕ × Memory × Inode × Disk)) : Type 0 where
  pub found : Bool
  pub at_off : ℕ
  pub mem : Memory
  pub returns : r ≡ ok (found, at_off, mem, dp, d)
  pub later : off ≤ at_off
  pub aligned : at_off % 16 ≡ 0
  pub before : (o : ℕ) → off ≤ o → o < at_off → o % 16 ≡ 0 → test (entry_at dp d o) ≡ false
  pub hit :
      found ≡ true
      → (at_off < dp.size)
        × (test (entry_at dp d at_off) ≡ true)
        × ((i : ℕ) → i < 16 → mem i ≡ entry_at dp d at_off i)
  pub miss : found ≡ false → at_off ≡ dp.size

module _ {c : UserCopy} (laws : CopyLaws c) (sb : Superblock) (test : Memory → Bool)
    (loc : Local test) (dp : Inode) (d : Disk) (dir : IsDir dp d) where
  -- An entry is read.
  reads :
      (off : ℕ) (mem : Memory)
      → off < dp.size
      → off % 16 ≡ 0
      → readi c sb dp false 0 off 16 mem d ≡ ok (some 16, blit mem 0 (entry_at dp d off) 16, dp, d)
  unfolding Dense
  reads off mem lt al =
      let w = dir.whole in
      let small = dir.dense.0 in
      let k : min 16 (dp.size - off) ≡ 16 = omega arith in
      elim (readi-Reads laws sb false dp d 0 off 16 mem dir.dense (omega arith) (omega arith)
        (omega arith)) [
          | inl (l, l', inl r) ↦ rw k at r
          | inl (l, l', inr (user, m, o, r)) ↦ absurd (cc)
          | inr (inl beyond, r) ↦ absurd (omega arith)
          | inr (inr wraps, r) ↦ absurd (omega arith)
        ]

  -- One entry that does not pass, and the rest.
  skipped :
      (off : ℕ) (r : Res (Bool × ℕ × Memory × Inode × Disk))
      → off % 16 ≡ 0
      → test (entry_at dp d off) ≡ false
      → Scanned test (off + 16) dp d r
      → Scanned test off dp d r
  skipped off r al fails s = record {
    found = s.found;
    at_off = s.at_off;
    mem = s.mem;
    returns = s.returns;
    later = omega (arith, s.later);
    aligned = s.aligned;
    before = λ o l l' a. elim (ℕ_discrete o off) [
      | yes e ↦ ap (λ (x : ℕ). test (entry_at dp d x)) e ∙ fails
      | no ne ↦ s.before o (omega arith) l' a
    ];
    hit = s.hit;
    miss = s.miss;
  }

  pub scan_dir-Scanned :
      (fuel off : ℕ) (mem : Memory)
      → dp.size - off < fuel
      → off ≤ dp.size
      → off % 16 ≡ 0
      → Scanned test off dp d (scan_dir c sb test fuel off mem dp d)
  unfolding scan_dir scan_entry Dense
  scan_dir-Scanned zero off mem enough le al = absurd (omega arith)
  scan_dir-Scanned (suc fuel) off mem enough le al = elim (dec_lt off dp.size) [
    | no end ↦
        let b : ltb off dp.size ≡ false = ground arith in
        let e : off ≡ dp.size = omega arith in
        rw b record {
          found = false;
          at_off = off;
          mem = mem;
          returns = refl;
          later = omega arith;
          aligned = al;
          before = λ o l l'. absurd (omega arith);
          hit = λ f. absurd cc;
          miss = λ _. e;
        }
    | yes lt ↦
        let entry = entry_at dp d off in
        let got = blit mem 0 entry 16 in
        let same : (i : ℕ) → i < 16 → got i ≡ entry i =
          λ i l. let z : 0 + i ≡ i = omega arith in rw z at (blit-in mem 0 entry 16 i l) in
        let goes : ltb off dp.size ≡ true = ground arith in
        elim (Bool-cases (test got)) [
          | inl hit ↦
              rw (goes, reads off mem lt al, hit)
                record {
                  found = true;
                  at_off = off;
                  mem = got;
                  returns = refl;
                  later = omega arith;
                  aligned = al;
                  before = λ o l l'. absurd (omega arith);
                  hit = λ _. (lt, sym (loc got entry same) ∙ hit, same);
                  miss = λ f. absurd cc;
                }
          | inr miss ↦
              let w = dir.whole in
              let small = dir.dense.0 in
              let next : add32 off 16 ≡ off + 16 = omega arith in
              let s =
                scan_dir-Scanned fuel (off + 16) got (omega arith) (omega arith) (omega arith) in
              rw (goes, reads off mem lt al, miss, next)
                (skipped off (scan_dir c sb test fuel (off + 16) got dp d) al
                  (sym (loc got entry same) ∙ miss) s)
        ]
  ]

pub name_at-Local :
    (m m' : Memory) (a k : ℕ)
    → ((i : ℕ) → a ≤ i → i < a + k → m i ≡ m' i)
    → name_at m a k ≡ name_at m' a k
unfolding name_at
name_at-Local m m' a zero same = refl
name_at-Local m m' a (suc k) same =
    rw
      (
        same a (omega arith) (omega arith),
        name_at-Local m m' (a + 1) k (λ i l l'. same i (omega arith) (omega arith)),
      )
      refl

pub entry_inum-Local :
    (m m' : Memory) → ((i : ℕ) → i < 16 → m i ≡ m' i) → entry_inum m ≡ entry_inum m'
unfolding entry_inum
entry_inum-Local m m' same = rw (same 0 (omega arith), same 1 (omega arith)) refl

pub is_free-Local : Local is_free
unfolding is_free
is_free-Local m m' same = rw (entry_inum-Local m m' same) refl

pub is_named-Local : (name : List ℕ) → Local (is_named name)
unfolding is_named
is_named-Local name m m' same =
    rw (is_free-Local m m' same, name_at-Local m m' 2 14 (λ i l l'. same i (omega arith))) refl
