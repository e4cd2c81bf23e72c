-- ===== src/Words/Digits.antt =====
-- `bit_and`, `bit_or` and powers of two through the single bits of a word.
use Prim.Native.Nat.{digits, bitwise, bit_and-bitwise, bit_or-bitwise}
use native.Mathlib.Nat.{pow-suc, one-le-pow}
use vmestimator.Base.{
  ℕ, zero, suc, ◌+◌, ◌*◌, ◌/◌, ◌%◌, ◌^◌, ◌≤◌, ◌<◌, min, max, bit_and, bit_or, ◌≡◌, refl, ap, ◌∙◌,
  ◌⊎◌, ◌==◌, nat_eq, arith, if◌then◌else◌,
}
use vmestimator.Words.{bit_at}

-- The native operations stand for a recursion on binary digits with fuel; any fuel that is at least
-- the first number gives the same digits.
module _ (rest : ℕ → ℕ) (op : ℕ → ℕ → ℕ) where
  digits_enough : (f g a b : ℕ) → a ≤ f → a ≤ g → digits rest op f a b ≡ digits rest op g a b
  digits_enough f g zero b p q = both f g
    where
      both : (f g : ℕ) → digits rest op f zero b ≡ digits rest op g zero b
      both zero zero = refl
      both zero (suc g) = refl
      both (suc f) zero = refl
      both (suc f) (suc g) = refl
  digits_enough zero g (suc a) b p q = absurd (omega arith)
  digits_enough (suc f) zero (suc a) b p q = absurd (omega arith)
  digits_enough (suc f) (suc g) (suc a) b p q =
      ap (λ (t : ℕ). t * 2 + op (suc a % 2) (b % 2))
        (digits_enough f g (suc a / 2) (b / 2) (omega arith) (omega arith))

  bitwise_next :
      (a b : ℕ)
      → bitwise rest op (suc a) b ≡ bitwise rest op (suc a / 2) (b / 2) * 2 + op (suc a % 2) (b % 2)
  bitwise_next a b =
      ap (λ (t : ℕ). t * 2 + op (suc a % 2) (b % 2))
        (digits_enough a (suc a / 2) (suc a / 2) (b / 2) (omega arith) (omega arith))

pub bit_and_lowest : (a b : ℕ) → bit_and a b ≡ bit_and (a / 2) (b / 2) * 2 + min (a % 2) (b % 2)
bit_and_lowest zero b = simp bit_and-bitwise (omega arith)
bit_and_lowest (suc a) b = simp bit_and-bitwise (bitwise_next (λ y. 0) min a b)

pub bit_or_lowest : (a b : ℕ) → bit_or a b ≡ bit_or (a / 2) (b / 2) * 2 + max (a % 2) (b % 2)
bit_or_lowest zero b = simp bit_or-bitwise (omega arith)
bit_or_lowest (suc a) b = simp bit_or-bitwise (bitwise_next (λ y. y) max a b)

bit_and-zero : (n a : ℕ) → a ≤ n → bit_and a 0 ≡ 0
bit_and-zero n zero h = refl
bit_and-zero zero (suc a) h = absurd (omega arith)
bit_and-zero (suc n) (suc a) h =
    omega (arith, bit_and_lowest (suc a) 0, bit_and-zero n (suc a / 2) (omega arith))

pow-half : (b : ℕ) → 2 ^ suc b / 2 ≡ 2 ^ b
pow-half b = omega (arith, pow-suc 2 b)

-- A word and a one-bit mask: the word's bit, at its place.
pub bit_and-pow : (b w : ℕ) → bit_and w (2 ^ b) ≡ bit_at w b * 2 ^ b
unfolding bit_at
bit_and-pow zero w = omega (arith, bit_and_lowest w 1, bit_and-zero (w / 2) (w / 2) (omega arith))
bit_and-pow (suc b) w = omega (
  arith,
  bit_and_lowest w (2 ^ suc b),
  pow-suc 2 b,
  ap (λ (t : ℕ). bit_and (w / 2) t) (pow-half b),
  bit_and-pow b (w / 2),
  ap (λ (t : ℕ). bit_at (w / 2) b * t) (pow-suc 2 b),
)

pub bit_at_cases : (w b : ℕ) → (bit_at w b ≡ 0) ⊎ (bit_at w b ≡ 1)
unfolding bit_at
bit_at_cases w zero = omega arith
bit_at_cases w (suc b) = bit_at_cases (w / 2) b

pub bit_at-bit_or : (b v w : ℕ) → bit_at (bit_or v w) b ≡ max (bit_at v b) (bit_at w b)
unfolding bit_at
bit_at-bit_or zero v w = omega (arith, bit_or_lowest v w)
bit_at-bit_or (suc b) v w =
    ap (λ (t : ℕ). bit_at t b) (omega (arith, bit_or_lowest v w)) ∙ bit_at-bit_or b (v / 2) (w / 2)

pub zero-bit_at : (b : ℕ) → bit_at 0 b ≡ 0
unfolding bit_at
zero-bit_at zero = refl
zero-bit_at (suc b) = zero-bit_at b

pub bit_at-pow : (b c : ℕ) → bit_at (2 ^ b) c ≡ (if b == c then 1 else 0)
unfolding bit_at
bit_at-pow zero zero = refl
bit_at-pow zero (suc c) = ground (arith, zero-bit_at c)
bit_at-pow (suc b) zero = ground (arith, pow-suc 2 b)
bit_at-pow (suc b) (suc c) = rw (pow-half b) (ground (arith, bit_at-pow b c))

pub bit_or-lt : (k v w : ℕ) → v < 2 ^ k → w < 2 ^ k → bit_or v w < 2 ^ k
bit_or-lt zero v w p q = omega (arith, zeroes v w (omega arith) (omega arith))
  where
    zeroes : (v w : ℕ) → v ≡ 0 → w ≡ 0 → bit_or v w ≡ 0
    zeroes v w e f = rw (e, f)
bit_or-lt (suc k) v w p q = omega (
  arith,
  bit_or_lowest v w,
  pow-suc 2 k,
  bit_or-lt k (v / 2) (w / 2) (omega (arith, pow-suc 2 k)) (omega (arith, pow-suc 2 k)),
)

pub pow-lt-word : (b : ℕ) → b < 64 → 2 ^ b < 2 ^ 64
pow-lt-word b h = less 64 b h
  where
    less : (n b : ℕ) → b < n → 2 ^ b < 2 ^ n
    less zero b h = absurd (omega arith)
    less (suc n) zero h = omega (arith, pow-suc 2 n, one-le-pow n 2)
    less (suc n) (suc b) h = omega (arith, pow-suc 2 n, pow-suc 2 b, less n b (omega arith))

pub one-le-two-pow : (b : ℕ) → 1 ≤ 2 ^ b
one-le-two-pow b = one-le-pow b 2 (omega arith)
