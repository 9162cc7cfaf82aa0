-- ===== src/Kernel/Fs/Bitmap/Bits.antt =====
-- The bits of a byte, as the free map of kernel/fs.c reads and writes them.
use os_proj.Base.{ℕ, zero, suc, ◌+◌, ◌*◌, ◌/◌, ◌%◌, ◌≡◌, ◌≢◌, refl, arith, true, false}
use os_proj.Kernel.Fs.Bitmap.{get_bit, set_bit, clear_bit}

pub get_bit-set_bit : (byte k : ℕ) → get_bit (set_bit byte k) k ≡ true
unfolding get_bit set_bit
get_bit-set_bit byte zero = ground arith
get_bit-set_bit byte (suc k) =
    let half : (set_bit (byte / 2) k * 2 + byte % 2) / 2 ≡ set_bit (byte / 2) k = omega arith in
    rw half (get_bit-set_bit (byte / 2) k)

pub get_bit-set_bit_ne : (byte k j : ℕ) → j ≢ k → get_bit (set_bit byte k) j ≡ get_bit byte j
unfolding get_bit set_bit
get_bit-set_bit_ne byte zero zero ne = absurd (ne refl)
get_bit-set_bit_ne byte zero (suc j) ne =
    let half : (byte / 2 * 2 + 1) / 2 ≡ byte / 2 = omega arith in rw half refl
get_bit-set_bit_ne byte (suc k) zero ne = ground arith
get_bit-set_bit_ne byte (suc k) (suc j) ne =
    let half : (set_bit (byte / 2) k * 2 + byte % 2) / 2 ≡ set_bit (byte / 2) k = omega arith in
    rw half (get_bit-set_bit_ne (byte / 2) k j (omega arith))

pub get_bit-clear_bit : (byte k : ℕ) → get_bit (clear_bit byte k) k ≡ false
unfolding get_bit clear_bit
get_bit-clear_bit byte zero = ground arith
get_bit-clear_bit byte (suc k) =
    let half : (clear_bit (byte / 2) k * 2 + byte % 2) / 2 ≡ clear_bit (byte / 2) k = omega arith in
    rw half (get_bit-clear_bit (byte / 2) k)

pub get_bit-clear_bit_ne : (byte k j : ℕ) → j ≢ k → get_bit (clear_bit byte k) j ≡ get_bit byte j
unfolding get_bit clear_bit
get_bit-clear_bit_ne byte zero zero ne = absurd (ne refl)
get_bit-clear_bit_ne byte zero (suc j) ne =
    let half : byte / 2 * 2 / 2 ≡ byte / 2 = omega arith in rw half refl
get_bit-clear_bit_ne byte (suc k) zero ne = ground arith
get_bit-clear_bit_ne byte (suc k) (suc j) ne =
    let half : (clear_bit (byte / 2) k * 2 + byte % 2) / 2 ≡ clear_bit (byte / 2) k = omega arith in
    rw half (get_bit-clear_bit_ne (byte / 2) k j (omega arith))
