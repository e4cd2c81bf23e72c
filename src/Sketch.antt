-- ===== src/Sketch.antt =====
-- What the program uses of the vendored HyperLogLog library: the operations on a sketch are an
-- interface, and their documented behaviour is stated as laws that a theorem takes where it needs
-- them. A sketch is a value here; `InsertHash`, `Merge` and `Reset` return the changed sketch, and
-- `Clone` is the identity.
use vmestimator.Base.{ℕ, max, ◌≤◌, ◌≡◌, Bool, Option, some}

pub record Hll (S : Type 0) : Type 0 where
  -- NewSketch; `none` is its error.
  pub new_sketch : ℕ → Bool → Option S
  pub insert_hash : S → ℕ → S
  -- a.Merge(b); `none` is its error.
  pub merge : S → S → Option S
  pub estimate : S → ℕ
  pub is_sparse : S → Bool
  pub reset : S → S

-- A sketch can be made at precisions 4 to 18, and sketches of one precision merge.
pub record HllLaws {S : Type 0} (hll : Hll S) : Type 0 where
  pub precision : S → ℕ
  pub new_sketch_lem :
      (p : ℕ) (sparse : Bool)
      → 4 ≤ p
      → p ≤ 18
      → (sk : S) × (hll.new_sketch p sparse ≡ some sk) × (precision sk ≡ p)
  pub precision-insert_hash : (sk : S) (h : ℕ) → precision (hll.insert_hash sk h) ≡ precision sk
  pub precision-reset : (sk : S) → precision (hll.reset sk) ≡ precision sk
  pub merge_lem :
      (a b : S)
      → precision a ≡ precision b
      → (c : S) × (hll.merge a b ≡ some c) × (precision c ≡ precision a)

-- A sketch stands for registers, which merging takes the greater of.
pub record HllRegisters {S : Type 0} (hll : Hll S) : Type 0 where
  pub register : S → ℕ → ℕ
  pub register-merge :
      (a b c : S) (j : ℕ)
      → hll.merge a b ≡ some c
      → register c j ≡ max (register a j) (register b j)

-- A new sketch and one that was reset hold nothing.
pub record HllBlanks {S : Type 0} (hll : Hll S) (regs : HllRegisters hll) : Type 0 where
  pub register-new_sketch :
      (p : ℕ) (sparse : Bool) (sk : S) (j : ℕ)
      → hll.new_sketch p sparse ≡ some sk
      → regs.register sk j ≡ 0
  pub register-reset : (sk : S) (j : ℕ) → regs.register (hll.reset sk) j ≡ 0
