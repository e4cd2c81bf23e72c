-- ===== src/Dedup/Bloom/Bits.antt =====
-- A slice of words of a Bloom filter (app/vmestimator/deduplicator.go), read as a set of bit
-- positions.
use vmestimator.Base.{
  ℕ, ◌*◌, ◌/◌, ◌%◌, ◌^◌, ◌<◌, bit_and, bit_or, ◌≡◌, ◌⊎◌, inl, inr, Bool, not, ◌||◌, ◌==◌, nat_eq,
  arith, List, length, get_or, set, get_or-set_self, get_or-set_ne, nat_beq_iff, Bool-cases,
}
use vmestimator.Words.{mask_of, bit_at}
use vmestimator.Words.Digits.{
  bit_and-pow, bit_at_cases, bit_at-bit_or, bit_at-pow, pow-lt-word, one-le-two-pow,
}

-- The bit at position `k` of the slice is set.
unfoldable pub bit_set : List ℕ → ℕ → Bool
bit_set bits k = bit_at (get_or bits (k / 64) 0) (k % 64) == 1

pub mask_of-pow : (b : ℕ) → b < 64 → mask_of b ≡ 2 ^ b
mask_of-pow b h = omega (arith, pow-lt-word b h)

-- The test of the source, `w & mask == 0`, asks for the bit of the word.
pub bit_and-mask_of : (w b : ℕ) → b < 64 → (bit_and w (mask_of b) == 0) ≡ not (bit_at w b == 1)
bit_and-mask_of w b h = rw (mask_of-pow b h, bit_and-pow b w) (split (bit_at_cases w b))
  where
    split : (bit_at w b ≡ 0) ⊎ (bit_at w b ≡ 1) → (bit_at w b * 2 ^ b == 0) ≡ not (bit_at w b == 1)
    split (inl e) = rw e (ground arith)
    split (inr e) = rw e (ground (arith, one-le-two-pow b))

-- Setting a bit with `w | mask` sets that bit of the word and no other.
pub bit_at-mask_of :
    (w b c : ℕ) → b < 64 → (bit_at (bit_or w (mask_of b)) c == 1) ≡ ((c == b) || (bit_at w c == 1))
bit_at-mask_of w b c h =
    rw (mask_of-pow b h, bit_at-bit_or c w (2 ^ b), bit_at-pow b c)
      (ground (arith, bit_at_cases w c))

pub bit_set-set :
    (bits : List ℕ) (k j : ℕ)
    → k / 64 < length bits
    → bit_set (set bits (k / 64) (bit_or (get_or bits (k / 64) 0) (mask_of (k % 64)))) j
      ≡ ((j == k) || bit_set bits j)
unfolding bit_set
bit_set-set bits k j h = elim (Bool-cases (j / 64 == k / 64)) [
  | inl same ↦
      rw
        (
          (nat_beq_iff (j / 64) (k / 64)).0 same,
          get_or-set_self bits (k / 64) _ 0 h,
          bit_at-mask_of (get_or bits (k / 64) 0) (k % 64) (j % 64) (omega arith),
        )
        (ground (arith, (nat_beq_iff (j / 64) (k / 64)).0 same))
  | inr other ↦ rw (get_or-set_ne bits (k / 64) (j / 64) _ 0 (ground arith)) (ground arith)
]

-- The test of the source at a position of the slice.
pub unset_test :
    (bits : List ℕ) (k : ℕ)
    → (bit_and (get_or bits (k / 64) 0) (mask_of (k % 64)) == 0) ≡ not (bit_set bits k)
unfolding bit_set
unset_test bits k = bit_and-mask_of (get_or bits (k / 64) 0) (k % 64) (omega arith)
