-- ===== src/Kernel/Fs/Trunc/Whole.antt =====
-- `itrunc` of kernel/fs.c as a whole.
use os_proj.Base.{
  ◌%◌, ℕ, ◌+◌, ◌-◌, ◌≤◌, ◌<◌, ◌≡◌, ◌≢◌, inl, inr, refl, ap, sym, ◌∙◌, arith, true, false, ◌==◌,
  update, update_self, update_ne, ℕ_discrete, dec_lt, Res, ok, panic, ◌>>=◌,
}
use os_proj.Kernel.Fs.{Disk, Superblock}
use os_proj.Kernel.Fs.Bitmap.{bblock, is_used, bfree}
use os_proj.Kernel.Fs.Bmap.{Inode, ndirect, maxfile, get_word}
use os_proj.Kernel.Fs.Bmap.Mapping.{Owned}
use os_proj.Kernel.Fs.Bmap.Laws.{File, Outside, addr_of-direct, addr_of-none, addr_of-indirect}
use os_proj.Kernel.Fs.Io.{iblock, iupdate}
use os_proj.Kernel.Fs.Trunc.{free_one, free_blocks, trunc_indirect, trunc_end, itrunc}
use os_proj.Kernel.Fs.Trunc.Freed.{
  Among, InUse, Freed, Res-cases, panic_ok, free_blocks-Freed, free_cong, free_blocks_split,
  free_blocks_zero,
}
use os_proj.Kernel.Fs.Trunc.Laws.{
  clear, clear_in, clear_out, direct_ok, blocks_of, blocks_of-low, blocks_of-ind, blocks-InUse,
}
use os_proj.Kernel.Fs.Io.Grow.{iupdate-at}
use os_proj.Kernel.Fs.Io.OnDisk.{OnDisk, OnDisk-of}
use os_proj.Kernel.Fs.Io.{put_dinode}

from_ok : (d e : Disk) → ok d ≡ ok e → d ≡ e
from_ok d e q = ap (λ (r : Res Disk). elim r [ ok x ↦ x | panic ↦ d ]) q

-- The indirect entry.
module _ (sb : Superblock) (ip : Inode) (d : Disk) where
  abbrev Emptied : Inode → Disk → Disk → Type 0
  Emptied ip' d' d'' =
      (ip'' : Inode) × (trunc_indirect sb (ip', d') ≡ ok (ip'', d''))
      × (ip'' ≡ record ip' { addrs = ip''.addrs })
      × (ip''.addrs ndirect ≡ 0)
      × ((k : ℕ) → k < ndirect → ip''.addrs k ≡ ip'.addrs k)

  no_ind :
      (ip' : Inode) (d' d'' : Disk)
      → ip'.addrs ndirect ≡ ip.addrs ndirect
      → ip.addrs ndirect ≡ 0
      → free_blocks sb (blocks_of ip d) 257 12 d' ≡ ok d''
      → Emptied ip' d' d''
  unfolding trunc_indirect
  no_ind ip' d' d'' same z e =
      let zero_at : (j : ℕ) → 12 ≤ j → j < 269 → blocks_of ip d j ≡ 0 = λ j lo lt.
        elim (dec_lt j maxfile) [
          | yes l ↦ blocks_of-low ip d j l ∙ addr_of-none ip d j lo z
          | no g ↦ blocks_of-ind ip d j (omega arith) ∙ z
        ] in
      let all =
        free_blocks_zero sb (blocks_of ip d) 257 12 d' (λ j lo lt. zero_at j lo (omega arith)) in
      let b : (ip'.addrs ndirect == 0) ≡ true = ground arith in
      (
        ip',
        rw b (ap (λ x. ok (ip', x)) (from_ok d' d'' (sym all ∙ e))),
        refl,
        same ∙ z,
        λ k lt. refl,
      )

  last_one :
      (a : ℕ → ℕ) (i b : ℕ) (d' d'' : Disk)
      → a i ≡ b
      → b ≢ 0
      → free_blocks sb a 1 i d' ≡ ok d''
      → bfree sb b d' ≡ ok d''
  unfolding free_blocks free_one
  last_one a i b d' d'' q ne e =
      let some_block : (b == 0) ≡ false = ground arith in
      let e' : (bfree sb b d' >>= (λ x. ok x)) ≡ ok d'' = rw some_block at (rw q at e) in
      elim (Res-cases (bfree sb b d')) [
        | inl bad ↦ absurd (panic_ok d'' (rw bad at e'))
        | inr (x, good) ↦ good ∙ (rw good at e')
      ]

  some_ind :
      (ip' : Inode) (d' d'' : Disk)
      → ip'.addrs ndirect ≡ ip.addrs ndirect
      → ip.addrs ndirect ≢ 0
      → d' (ip.addrs ndirect) ≡ d (ip.addrs ndirect)
      → free_blocks sb (blocks_of ip d) 257 12 d' ≡ ok d''
      → Emptied ip' d' d''
  unfolding trunc_indirect
  some_ind ip' d' d'' same ne kept e =
      let ind = ip.addrs ndirect in
      let s = blocks_of ip d in
      let (d2, words, last) = free_blocks_split sb s 256 1 12 d' d'' e in
      let as_words : (j : ℕ) → j < 256 → get_word (d' ind) (0 + j) ≡ s (12 + j) = λ j lt.
        let n : 0 + j ≡ 12 + j - 12 = omega arith in
        ap (λ (w : ℕ → ℕ). get_word w (0 + j)) kept
        ∙ ap (get_word (d ind)) n
        ∙ sym (addr_of-indirect ip d (12 + j) (omega arith) ne)
        ∙ sym (blocks_of-low ip d (12 + j) (omega arith)) in
      let w : free_blocks sb (get_word (d' ind)) 256 0 d' ≡ ok d2 =
        free_cong sb (get_word (d' ind)) s 256 0 12 d' as_words ∙ words in
      let l : bfree sb ind d2 ≡ ok d'' =
        last_one s (12 + 256) ind d2 d'' (blocks_of-ind ip d 268 (omega arith)) ne last in
      let b : (ind == 0) ≡ false = ground arith in
      (
        record ip' { addrs = update ip'.addrs ndirect 0 },
        rw (same, b, w, l) refl,
        refl,
        update_self ip'.addrs ndirect 0,
        λ k lt. update_ne ip'.addrs ndirect 0 k (omega arith),
      )

InUse-start : (sb : Superblock) (a : ℕ → ℕ) (d : Disk) → InUse sb a 0 269 d → InUse sb a 0 12 d
InUse-start sb a d u = record {
  inside = λ j lo lt. u.inside j lo (omega arith);
  used = λ j lo lt. u.used j lo (omega arith);
  distinct = λ j j' lo lt lo' lt'. u.distinct j j' lo (omega arith) lo' (omega arith);
}

pub is_used_aside :
    (sb : Superblock) (d : Disk) (q : ℕ) (v : ℕ → ℕ) (x : ℕ)
    → q ≢ bblock x sb
    → is_used sb (update d q v) x ≡ is_used sb d x
unfolding is_used
is_used_aside sb d q v x ne = ground arith

-- The file is empty, and its blocks are free.
pub record Truncated (sb : Superblock) (ip : Inode) (d : Disk) (ip' : Inode) (d' : Disk)
    : Type 0 where
  pub fields : ip' ≡ record ip { size = 0; addrs = ip'.addrs }
  pub no_addrs : (k : ℕ) → k ≤ ndirect → ip'.addrs k ≡ 0
  pub gone : (x : ℕ) → x < sb.size → Among (blocks_of ip d) 0 269 x → is_used sb d' x ≡ false
  pub others :
      (x : ℕ) → x < sb.size → ¬ Among (blocks_of ip d) 0 269 x → is_used sb d' x ≡ is_used sb d x
  pub kept : (q : ℕ) → Owned sb d q → q ≢ iblock ip.inum sb → d' q ≡ d q
  pub saved : OnDisk (d (iblock ip.inum sb)) (d' (iblock ip.inum sb)) (ip.inum % 16) ip'

module _ (sb : Superblock) (ip : Inode) (d : Disk) (f : File sb ip d)
    (home : Outside sb ip d (iblock ip.inum sb)) where
  -- The inode's block is none of the file's and none of the map's.
  saved-Truncated :
      (ip' : Inode) (d' : Disk)
      → Freed sb (blocks_of ip d) 0 269 d d'
      → ip' ≡ record ip { addrs = ip'.addrs }
      → ((k : ℕ) → k ≤ ndirect → ip'.addrs k ≡ 0)
      → let ip'' = record ip' { size = 0 } in Truncated sb ip d ip'' (iupdate sb ip'' d')
  saved-Truncated ip' d' r only_addrs zeros =
      let ip'' = record ip' { size = 0 } in
      let q = iblock ip.inum sb in
      let v = put_dinode (d' q) (ip.inum % 16) ip'' in
      let here : ip'.inum ≡ ip.inum = ap (λ (i : Inode). i.inum) only_addrs in
      let aside : (x : ℕ) → x < sb.size → is_used sb (update d' q v) x ≡ is_used sb d' x =
        λ x lt. is_used_aside sb d' q v x (home.owned.no_map x lt) in
      rw (iupdate-at sb ip.inum ip'' d' here) record {
        fields = ap (λ (z : Inode). record z { size = 0; addrs = ip'.addrs }) only_addrs;
        no_addrs = zeros;
        gone = λ x lt m. aside x lt ∙ r.gone x m;
        others = λ x lt m. aside x lt ∙ r.others x m;
        kept = λ x o ne. update_ne d' q v x ne ∙ r.kept x o.no_map;
        saved = OnDisk-of (d q) (ip.inum % 16) ip'' (update d' q v q) (
            update_self d' q v
            ∙ ap (λ (w : ℕ → ℕ). put_dinode w (ip.inum % 16) ip'') (r.kept q home.owned.no_map));
      }

  ends :
      (d1 d3 : Disk)
      → free_blocks sb (blocks_of ip d) 12 0 d ≡ ok d1
      → Freed sb (blocks_of ip d) 0 269 d d3
      → (let ip1 = record ip { addrs = clear ip.addrs 12 0 } in Emptied sb ip d ip1 d1 d3)
      → (ip' : Inode) × (d' : Disk) × (itrunc sb ip d ≡ ok (ip', d')) × Truncated sb ip d ip' d'
  unfolding itrunc trunc_end
  ends d1 d3 first r (ip2, e, only_addrs, ind_gone, same) =
      let direct : free_blocks sb ip.addrs 12 0 d ≡ ok d1 =
        free_cong sb ip.addrs (blocks_of ip d) 12 0 0 d (λ j lt.
          sym (addr_of-direct ip d (0 + j) (omega arith))
          ∙ sym (blocks_of-low ip d (0 + j) (omega arith)))
        ∙ first in
      let t = direct_ok sb 12 0 ip d d1 direct in
      (
        record ip2 { size = 0 },
        iupdate sb (record ip2 { size = 0 }) d3,
        rw (t, e) refl,
        saved-Truncated ip2 d3 r only_addrs (λ k le. elim (dec_lt k ndirect) [
          | yes lt ↦ same k lt ∙ clear_in ip.addrs 12 0 k (omega arith) (omega arith)
          | no ge ↦ let q : k ≡ ndirect = omega arith in ap ip2.addrs q ∙ ind_gone
        ]),
      )

  -- `itrunc` of an inode whose blocks are its own does not panic: it frees exactly the inode's
  -- blocks and its indirect block, leaves the inode with no blocks and the size 0, writes it to
  -- its place on the disk, and changes no other block in use but those of the map.
  pub itrunc-Truncated :
      (ip' : Inode) × (d' : Disk) × (itrunc sb ip d ≡ ok (ip', d')) × Truncated sb ip d ip' d'
  itrunc-Truncated =
      let s = blocks_of ip d in
      let u = blocks-InUse sb ip d f in
      let (d3, e, r) = free_blocks-Freed sb s 269 0 269 d (omega arith) u in
      let (d1, first, rest) = free_blocks_split sb s 12 257 0 d d3 e in
      let (d1', first', r1) =
        free_blocks-Freed sb s 12 0 12 d (omega arith) (InUse-start sb s d u) in
      let same : d1' ≡ d1 = from_ok d1' d1 (sym first' ∙ first) in
      let ip1 = record ip { addrs = clear ip.addrs 12 0 } in
      let at_ind : ip1.addrs ndirect ≡ ip.addrs ndirect =
        clear_out ip.addrs 12 0 ndirect (inr (omega arith)) in
      elim (ℕ_discrete (ip.addrs ndirect) 0) [
        | yes z ↦ ends d1 d3 first r (no_ind sb ip d ip1 d1 d3 at_ind z rest)
        | no ne ↦
            let kept = r1.kept (ip.addrs ndirect) (f.ind_owned ne).no_map in
            ends d1 d3 first r (
              some_ind sb ip d ip1 d1 d3 at_ind ne
                (ap (λ (x : Disk). x (ip.addrs ndirect)) (sym same) ∙ kept) rest)
      ]
