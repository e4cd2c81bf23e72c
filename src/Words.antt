-- ===== src/Words.antt =====
-- Machine words of 64 bits as natural numbers, with Go's operators on them, and the bits of a word
-- read one at a time.
pub mod Digits
use vmestimator.Base.{ℕ, zero, suc, ◌+◌, ◌*◌, ◌/◌, ◌%◌, ◌^◌, bit_and, Bool, ◌==◌, nat_eq}

abbrev pub word_size : ℕ
word_size = 64

-- What a `uint64` keeps of a number.
abbrev pub u64 : ℕ → ℕ
u64 n = n % 2 ^ 64

abbrev pub low_half : ℕ → ℕ
low_half h = bit_and h 0xFFFFFFFF

-- h >> 32
abbrev pub high_half : ℕ → ℕ
high_half h = h / 2 ^ 32

-- uint64(1) << bit
abbrev pub mask_of : ℕ → ℕ
mask_of bit = u64 (2 ^ bit)

-- The bit `b` of `w`, as 0 or 1.
unfoldable pub bit_at : ℕ → ℕ → ℕ
bit_at w zero = w % 2
bit_at w (suc b) = bit_at (w / 2) b
