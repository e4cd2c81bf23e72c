-- ===== src/Tests/Exact.antt =====
-- A sketch that keeps every hash it is given: an instance of the sketch interface that obeys its
-- laws.
use mathlib.Core.Path.{refl}
use native.Mathlib.Omega.{arith}
use vmestimator.Base.{
  Bool, ◌≡◌, ◌≤◌, max, inl, inr, Bool-cases, some_inj, ℕ, true, ◌&&◌, leb, ◌==◌, nat_eq, none, some,
  List, [], ◌∷◌, ◌++◌, length, if◌then◌else◌,
}
use vmestimator.Sketch.{Hll, HllLaws, HllRegisters, HllBlanks}

pub record Exact : Type 0 where
  pub precision : ℕ
  pub hashes : List ℕ

instance abbrev pub exact_hll : Hll Exact
exact_hll = record {
  new_sketch = λ p sparse.
      if leb 4 p && leb p 18 then some (record { precision = p; hashes = [] }) else none;
  insert_hash = λ sk h. record sk { hashes = h ∷ sk.hashes };
  merge = λ a b.
      if a.precision == b.precision
      then some (record a { hashes = b.hashes ++ a.hashes })
      else none;
  estimate = λ sk. length sk.hashes;
  is_sparse = λ sk. true;
  reset = λ sk. record sk { hashes = [] };
}

pub new_sketch_lem :
    (p : ℕ) (sparse : Bool)
    → 4 ≤ p
    → p ≤ 18
    → exact_hll.new_sketch p sparse ≡ some (record { precision = p; hashes = [] })
new_sketch_lem p sparse low high = ground arith

pub merge_lem :
    (a b : Exact)
    → a.precision ≡ b.precision
    → exact_hll.merge a b ≡ some (record a { hashes = b.hashes ++ a.hashes })
merge_lem a b same = ground arith

abbrev pub exact_laws : HllLaws exact_hll
exact_laws = record {
  precision = λ sk. sk.precision;
  new_sketch_lem = λ p sparse low high.
      (record { precision = p; hashes = [] }, new_sketch_lem p sparse low high, refl);
  precision-insert_hash = λ sk h. refl;
  precision-reset = λ sk. refl;
  merge_lem = λ a b same. (record a { hashes = b.hashes ++ a.hashes }, merge_lem a b same, refl);
}

abbrev pub holds : ℕ → List ℕ → ℕ
holds j [] = 0
holds j (h ∷ hs) = if h == j then 1 else holds j hs

holds_bound : (j : ℕ) (hs : List ℕ) → holds j hs ≤ 1
holds_bound j [] = omega arith
holds_bound j (h ∷ hs) = ground (arith, holds_bound j hs)

holds-append : (j : ℕ) (hs gs : List ℕ) → holds j (hs ++ gs) ≡ max (holds j gs) (holds j hs)
holds-append j [] gs = omega arith
holds-append j (h ∷ hs) gs = ground (arith, holds-append j hs gs, holds_bound j gs)

-- A register is 1 for a hash that was inserted.
pub exact_registers : HllRegisters exact_hll
exact_registers = record {
  register = λ sk j. holds j sk.hashes;
  register-merge = λ a b c j e. elim (Bool-cases (a.precision == b.precision)) [
    | inl same ↦
        let it : record a { hashes = b.hashes ++ a.hashes } ≡ c = some_inj (rw same at e) in
        rw (← it) (holds-append j b.hashes a.hashes)
    | inr other ↦ cc (rw other at e)
  ];
}

-- A new sketch and a reset one have no hash.
pub exact_blanks : HllBlanks exact_hll exact_registers
unfolding exact_registers
exact_blanks = record {
  register-new_sketch = λ p sparse sk j e. elim (Bool-cases (leb 4 p && leb p 18)) [
    | inl made ↦ rw (← some_inj (rw made at e)) refl
    | inr none_made ↦ cc (rw none_made at e)
  ];
  register-reset = λ sk j. refl;
}
