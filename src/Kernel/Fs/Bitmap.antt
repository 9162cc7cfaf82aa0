-- ===== src/Kernel/Fs/Bitmap.antt =====
-- The free map of kernel/fs.c: `balloc` and `bfree`.
pub mod Bits
pub mod Search
pub mod Laws
pub mod Examples
use os_proj.Base.{
  ℕ, zero, suc, ◌+◌, ◌-◌, ◌*◌, ◌/◌, ◌%◌, ◌&&◌, Bool, true, false, not, Option, none, some, ltb,
  ◌==◌, if◌then◌else◌, update, Res, ok, panic, ◌>>=◌, ◌>>◌, panic_if,
}
use os_proj.Kernel.Fs.{Block, Disk, bsize, Superblock, bzero}

-- `BPB`.
abbrev pub bits_per_block : ℕ
bits_per_block = 8192

-- `BBLOCK`.
abbrev pub bblock : ℕ → Superblock → ℕ
bblock b sb = b / bits_per_block + sb.bmapstart

-- `(byte & (1 << k)) != 0`.
pub get_bit : ℕ → ℕ → Bool
get_bit byte zero = byte % 2 == 1
get_bit byte (suc k) = get_bit (byte / 2) k

-- `byte | (1 << k)` and `byte & ~(1 << k)`.
pub set_bit : ℕ → ℕ → ℕ
set_bit byte zero = byte / 2 * 2 + 1
set_bit byte (suc k) = set_bit (byte / 2) k * 2 + byte % 2

pub clear_bit : ℕ → ℕ → ℕ
clear_bit byte zero = byte / 2 * 2
clear_bit byte (suc k) = clear_bit (byte / 2) k * 2 + byte % 2

-- `(bp->data[bi/8] & m) != 0` for the bit of a block.
unfoldable pub is_used : Superblock → Disk → ℕ → Bool
is_used sb d b = let bi = b % bits_per_block in get_bit (d (bblock b sb) (bi / 8)) (bi % 8)

pub mark_used : Superblock → ℕ → Disk → Disk
mark_used sb b d =
    let bp = d (bblock b sb) in
    let bi = b % bits_per_block in
    update d (bblock b sb) (update bp (bi / 8) (set_bit (bp (bi / 8)) (bi % 8)))

pub mark_free : Superblock → ℕ → Disk → Disk
mark_free sb b d =
    let bp = d (bblock b sb) in
    let bi = b % bits_per_block in
    update d (bblock b sb) (update bp (bi / 8) (clear_bit (bp (bi / 8)) (bi % 8)))

-- The inner loop of `balloc` over the bits of the map block at `b`, from bit `bi` on.
pub balloc_bits : Superblock → Disk → ℕ → ℕ → ℕ → Option ℕ
balloc_bits sb d b zero bi = none
balloc_bits sb d b (suc k) bi =
    let later = balloc_bits sb d b k (bi + 1) in
    if ltb (b + bi) sb.size then if is_used sb d (b + bi) then later else some (b + bi) else none

abbrev pub or_later : Option ℕ → Option ℕ → Option ℕ
or_later none later = later
or_later (some b) later = some b

-- The outer loop, on fuel.
pub balloc_blocks : Superblock → Disk → ℕ → ℕ → Option ℕ
balloc_blocks sb d zero b = none
balloc_blocks sb d (suc fuel) b =
    let later = balloc_blocks sb d fuel (b + bits_per_block) in
    if ltb b sb.size then or_later (balloc_bits sb d b bits_per_block 0) later else none

abbrev pub take_block : Superblock → Disk → Option ℕ → ℕ × Disk
take_block sb d none = (0, d)
take_block sb d (some b) = (b, bzero b (mark_used sb b d))

-- The block number, or 0.
pub balloc : Superblock → Disk → ℕ × Disk
balloc sb d = take_block sb d (balloc_blocks sb d (sb.size / bits_per_block + 1) 0)

pub bfree : Superblock → ℕ → Disk → Res Disk
bfree sb b d = do panic_if (not (is_used sb d b)); ok (mark_free sb b d)
