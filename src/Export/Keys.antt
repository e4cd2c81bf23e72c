-- ===== src/Export/Keys.antt =====
-- One key and one batch of an export (`estimator.toSnapshot` of app/vmestimator/estimator.go).
use vmestimator.Base.{
  ℕ, max, ◌≤◌, ◌≡◌, refl, sym, ap, ◌∙◌, arith, Bool, true, false, ◌||◌, ◌==◌, nat_eq, nat_beq_iff,
  Option, none, some, List, [], ◌∷◌, Dict, lookup, insert, has, is_some, IsUnique, insert-IsUnique,
  if◌then◌else◌, All,
}
use vmestimator.Sketch.{Hll, HllLaws, HllRegisters, HllBlanks}
use vmestimator.Snapshot.{SnapshotSketch}
use vmestimator.Snapshot.Merge.{register_at, IsUniform, IsUniform-insert, register_at-insert}
use vmestimator.Estimator.Bucket.{Bucket, GroupSketch, merge_into, merge_sketches}
use vmestimator.Export.{sketch_of, merged_pair, export_key, export_batch}
use vmestimator.Export.Pool.{SketchesPool}
use vmestimator.Export.PoolLaws.{IsClean, get_for_merge-IsBlank}

-- Whether a key is in a list.
abbrev pub among : ℕ → List ℕ → Bool
among k [] = false
among k (j ∷ js) = (j == k) || among k js

batch_step :
    (m c : Bool) (new now old one : ℕ)
    → now ≡ (if c then one else old)
    → (c ≡ true → one ≡ new)
    → (if m then new else now) ≡ (if c || m then new else old)
batch_step true true new now old one e f = refl
batch_step true false new now old one e f = refl
batch_step false true new now old one e f = e ∙ f refl
batch_step false false new now old one e f = e

module _ {S : Type 0} ⦃hll : Hll S⦄ (laws : HllLaws hll) (regs : HllRegisters hll)
    (blanks : HllBlanks hll regs) (p : ℕ) where
  -- A register of a sketch that may be missing.
  abbrev pub reg : Option S → ℕ → ℕ
  reg none j = 0
  reg (some sk) j = regs.register sk j

  abbrev pub HasPrecision : Option S → Type 0
  HasPrecision o = (sk : S) → o ≡ some sk → laws.precision sk ≡ p

  pub merge_into_lem :
      (res : S) (o : Option S)
      → laws.precision res ≡ p
      → HasPrecision o
      → (r : S) × (merge_into res o ≡ some r)
        × (laws.precision r ≡ p)
        × ((j : ℕ) → regs.register r j ≡ max (regs.register res j) (reg o j))
  unfolding merge_into
  merge_into_lem res none e f = (res, refl, e, λ j. omega arith)
  merge_into_lem res (some sk) e f =
      let (r, merged, q) = laws.merge_lem res sk (e ∙ sym (f sk refl)) in
      (r, merged, q ∙ e, λ j. regs.register-merge res sk r j merged)

  pub merge_sketches_lem :
      (cur prev : Option S) (res : S)
      → laws.precision res ≡ p
      → HasPrecision cur
      → HasPrecision prev
      → (r : S) × (merge_sketches cur prev res ≡ some r)
        × (laws.precision r ≡ p)
        × ((j : ℕ) → regs.register r j ≡ max (regs.register res j) (max (reg cur j) (reg prev j)))
  unfolding merge_sketches
  merge_sketches_lem cur prev res e f g =
      let (r, merged, q, low) = merge_into_lem res cur e f in
      let (r', merged', q', high) = merge_into_lem r prev q g in
      (r', rw merged merged', q', λ j. omega (arith, low j, high j))

  -- What a key holds, in either map.
  abbrev pub of_maps : Option (GroupSketch S) → Option (GroupSketch S) → ℕ → ℕ
  of_maps cur prev j = max (reg (sketch_of cur) j) (reg (sketch_of prev) j)

  module _ (low : 4 ≤ p) (high : p ≤ 18) where
    -- A merged pair, made on a sketch of the pool.
    abbrev Exports :
        Option (GroupSketch S)
        → Option (GroupSketch S)
        → Option (SnapshotSketch S × SketchesPool S)
        → Type 0
    Exports cur prev r =
        (ssk : SnapshotSketch S) × (pool' : SketchesPool S) × (r ≡ some (ssk, pool'))
        × IsClean laws regs blanks p pool'
        × (laws.precision ssk.sketch ≡ p)
        × ((j : ℕ) → regs.register ssk.sketch j ≡ of_maps cur prev j)

    merged_pair_lem :
        (g : GroupSketch S) (cur prev : Option (GroupSketch S)) (pool : SketchesPool S)
        → IsClean laws regs blanks p pool
        → HasPrecision (sketch_of cur)
        → HasPrecision (sketch_of prev)
        → Exports cur prev (merged_pair g (sketch_of cur) (sketch_of prev) pool)
    merged_pair_lem g cur prev pool v e f =
        let (sk, pool', got, blank, v') =
          get_for_merge-IsBlank laws regs blanks p low high pool g.sketch v in
        let (r, merged, q, more) =
          merge_sketches_lem (sketch_of cur) (sketch_of prev) sk blank.precise e f in
        (
          record { values = g.values; sketch = r },
          pool',
          rw (got, merged),
          v',
          q,
          λ j. omega (arith, more j, blank.empty j),
        )

    export_key_lem :
        (cur prev : Option (GroupSketch S)) (pool : SketchesPool S)
        → IsClean laws regs blanks p pool
        → HasPrecision (sketch_of cur)
        → HasPrecision (sketch_of prev)
        → (is_some cur || is_some prev) ≡ true
        → Exports cur prev (export_key cur prev pool)
    unfolding export_key
    export_key_lem (some g) prev pool v e f there = merged_pair_lem g (some g) prev pool v e f
    export_key_lem none (some g) pool v e f there = merged_pair_lem g none (some g) pool v e f
    export_key_lem none none pool v e f there = cc

    -- All sketches of a bucket have the precision.
    pub record IsPrecise (b : Bucket S) : Type 0 where
      pub whole : HasPrecision b.sketch
      pub whole_prev : HasPrecision b.prev_sketch
      pub cur : (key : ℕ) → HasPrecision (sketch_of (lookup key b.groups))
      pub prev : (key : ℕ) → HasPrecision (sketch_of (lookup key b.prev_groups))

    abbrev pub bucket_register : Bucket S → ℕ → ℕ → ℕ
    bucket_register b key j = of_maps (lookup key b.groups) (lookup key b.prev_groups) j

    abbrev pub Has : Bucket S → ℕ → Type 0
    Has b key = (has key b.groups || has key b.prev_groups) ≡ true

    -- A batch, into the sketches that are there.
    pub export_batch_lem :
        (batch : List ℕ) (b : Bucket S) (sketches : Dict ℕ (SnapshotSketch S))
        (pool : SketchesPool S)
        → IsPrecise b
        → All (Has b) batch
        → IsClean laws regs blanks p pool
        → IsUnique sketches
        → IsUniform laws regs p sketches
        → (sketches' : Dict ℕ (SnapshotSketch S)) × (pool' : SketchesPool S) × (export_batch batch b
              sketches pool
            ≡ some (sketches', pool'))
          × IsClean laws regs blanks p pool'
          × IsUnique sketches'
          × IsUniform laws regs p sketches'
          × ((k j : ℕ)
              → register_at laws regs sketches' k j ≡ (
                  if among k batch
                  then bucket_register b k j
                  else register_at laws regs sketches k j))
    unfolding export_batch
    export_batch_lem [] b sketches pool t h v u w = (sketches, pool, refl, v, u, w, λ k j. refl)
    export_batch_lem (key ∷ batch) b sketches pool t h v u w =
        let (ssk, pool₁, one, v₁, q, registers) =
          export_key_lem (lookup key b.groups) (lookup key b.prev_groups) pool v (t.cur key)
            (t.prev key) h.0 in
        let (sketches', pool', rest, v', u', w', more) =
          export_batch_lem batch b (insert key ssk sketches) pool₁ t h.1 v₁
            (insert-IsUnique key ssk sketches u)
            (IsUniform-insert laws regs p sketches key ssk w q) in
        (
          sketches',
          pool',
          rw one rest,
          v',
          u',
          w',
          λ k j.
              more k j
              ∙ batch_step (among k batch) (key == k) _ _ _ _
                  (register_at-insert laws regs sketches key ssk k j)
                  (λ same.
                    registers j ∙ ap (λ i. bucket_register b i j) ((nat_beq_iff key k).0 same)),
        )
