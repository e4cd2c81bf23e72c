-- ===== src/Estimator/Bucket.antt =====
-- `estimatorBucket` of app/vmestimator/estimator.go. A bucket without `group_by` keeps two sketches,
-- one with `group_by` two maps of sketches by group key. The `groupSize` that the buckets of an
-- estimator share is passed along. `none` is a panic.
use vmestimator.Base.{
  ℕ, Bool, true, false, Text, nat_eq, ◌>>=◌, Option, none, some, List, [], ◌∷◌, length, Dict,
  lookup, insert,
}
use vmestimator.Sketch.{Hll}
use vmestimator.Estimator.GroupSize.{GroupSize, allow_insert_locked, rotate_locked}

pub record GroupSketch (S : Type 0) : Type 0 where
  pub sketch : S
  pub values : List Text

pub record Bucket (S : Type 0) : Type 0 where
  pub idx : ℕ
  pub group_by : List Text
  pub interval : ℕ
  pub calculate_churn : Bool
  pub filter : Text
  pub precision : ℕ
  pub sparse : Bool
  pub labels : Dict Text Text
  pub has_label_keyword : Bool
  pub sketch : Option S
  pub prev_sketch : Option S
  pub groups : Dict ℕ (GroupSketch S)
  pub prev_groups : Dict ℕ (GroupSketch S)

-- `values == nil`; the values of a group are as many as the labels grouped by, so never empty.
abbrev pub or_copy : List Text → List Text → List Text
or_copy [] group_values = group_values
or_copy (v ∷ values) group_values = v ∷ values

module _ {S : Type 0} ⦃hll : Hll S⦄ where
  unfoldable pub new_sketch : Bucket S → Option S
  new_sketch eb = hll.new_sketch eb.precision eb.sparse

  -- A new group: its sketch, with the first fingerprint, goes into the map.
  unfoldable pub start_group : Bucket S → ℕ → ℕ → List Text → Option (Bucket S)
  unfolding new_sketch
  start_group eb fp key values = do
    sk ← new_sketch eb
    let gsk : GroupSketch S = record { sketch = hll.insert_hash sk fp; values = values }
    some (record eb { groups = insert key gsk eb.groups })

  -- A key that the current map lacks.
  unfoldable pub insert_missing :
      Bucket S → GroupSize S → ℕ → ℕ → List Text → Option (Bucket S × GroupSize S)
  unfolding start_group
  insert_missing eb gs fp key group_values = elim (lookup key eb.prev_groups) [
    | some prev ↦ start_group eb fp key (or_copy prev.values group_values) >>= λ eb'. some (eb', gs)
    | none ↦ allow_insert_locked gs eb.idx key >>= λ r. elim r.1 [
      | false ↦ some (eb, r.0)
      | true ↦ start_group eb fp key group_values >>= λ eb'. some (eb', r.0)
    ]
  ]

  unfoldable pub insert_group :
      Bucket S → GroupSize S → ℕ → ℕ → List Text → Option (Bucket S × GroupSize S)
  unfolding insert_missing
  insert_group eb gs fp key group_values = elim (lookup key eb.groups) [
    | some gsk ↦ some (
      record eb {
        groups = insert key (record gsk { sketch = hll.insert_hash gsk.sketch fp }) eb.groups;
      },
      gs,
    )
    | none ↦ insert_missing eb gs fp key group_values
  ]

  unfoldable pub insert_global : Bucket S → GroupSize S → ℕ → Option (Bucket S × GroupSize S)
  insert_global eb gs fp =
      eb.sketch >>= λ sk. some (record eb { sketch = some (hll.insert_hash sk fp) }, gs)

  -- The first argument is `eb.groupBy`.
  unfoldable pub insert_by_kind :
      List Text → Bucket S → GroupSize S → ℕ → ℕ → List Text → Option (Bucket S × GroupSize S)
  insert_by_kind [] eb gs fp key group_values = insert_global eb gs fp
  insert_by_kind (l ∷ ls) eb gs fp key group_values = insert_group eb gs fp key group_values

  unfoldable pub insert_bucket :
      Bucket S → GroupSize S → ℕ → ℕ → List Text → Option (Bucket S × GroupSize S)
  unfolding insert_by_kind
  insert_bucket eb gs fp key group_values = insert_by_kind eb.group_by eb gs fp key group_values

  unfoldable pub rotate_by_kind :
      List Text → Bucket S → GroupSize S → Option (Bucket S × GroupSize S)
  unfolding new_sketch
  rotate_by_kind [] eb gs =
      new_sketch eb >>= λ sk. some (record eb { prev_sketch = eb.sketch; sketch = some sk }, gs)
  rotate_by_kind (l ∷ ls) eb gs = rotate_locked gs eb.idx (length eb.groups) >>= λ gs'.
      some (record eb { prev_groups = eb.groups; groups = [] }, gs')

  unfoldable pub rotate_bucket : Bucket S → GroupSize S → Option (Bucket S × GroupSize S)
  unfolding rotate_by_kind
  rotate_bucket eb gs = rotate_by_kind eb.group_by eb gs

  -- `Reset` of a nil sketch reads through the nil pointer.
  unfoldable pub reset_by_kind :
      List Text → Bucket S → GroupSize S → Option (Bucket S × GroupSize S)
  reset_by_kind [] eb gs = do
    prev ← eb.prev_sketch
    cur ← eb.sketch
    some (record eb { prev_sketch = some (hll.reset prev); sketch = some (hll.reset cur) }, gs)
  reset_by_kind (l ∷ ls) eb gs =
      rotate_locked gs eb.idx 0 >>= λ gs'. some (record eb { groups = []; prev_groups = [] }, gs')

  unfoldable pub reset_bucket : Bucket S → GroupSize S → Option (Bucket S × GroupSize S)
  unfolding reset_by_kind
  reset_bucket eb gs = reset_by_kind eb.group_by eb gs

  -- `Merge` of a nil sketch changes nothing.
  unfoldable pub merge_into : S → Option S → Option S
  merge_into res none = some res
  merge_into res (some sk) = hll.merge res sk

  -- mergeSketches(cur, prev, res); an error of `Merge` panics.
  unfoldable pub merge_sketches : Option S → Option S → S → Option S
  unfolding merge_into
  merge_sketches cur prev res = merge_into res cur >>= λ r. merge_into r prev
