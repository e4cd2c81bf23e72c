-- ===== src/Estimator/GroupSize.antt =====
-- `groupSize` of app/vmestimator/estimator.go: how many groups the buckets of one estimator hold,
-- their limit, and a sketch of the group keys rejected in each bucket since its last rotation.
-- `none` is a panic: an index out of range, or a sketch that cannot be made. The counts are
-- `int64` in the program; they are natural numbers here, since the size is never below a bucket's
-- share in a valid estimator.
use vmestimator.Base.{
  ℕ, ◌+◌, ◌-◌, ◌*◌, ◌/◌, Bool, true, false, leb, ltb, ◌>>=◌, Option, none, some, List, [], ◌∷◌,
  length, get_elem?, set, if◌then◌else◌,
}
use vmestimator.Sketch.{Hll}

pub record GroupSize (S : Type 0) : Type 0 where
  pub limit : ℕ
  pub size : ℕ
  pub bucket_sizes : List ℕ
  -- `none` is a nil sketch.
  pub reject_sketches : List (Option S)

module _ {S : Type 0} ⦃hll : Hll S⦄ where
  -- Precision 10, sparse.
  unfoldable pub new_group_reject_sketch : Option S
  new_group_reject_sketch = hll.new_sketch 10 true

  -- The reject sketch of a bucket, made if it is missing.
  unfoldable pub reject_sketch : Option S → Option S
  unfolding new_group_reject_sketch
  reject_sketch none = new_group_reject_sketch
  reject_sketch (some sk) = some sk

  unfoldable pub reject : GroupSize S → ℕ → ℕ → Option (GroupSize S)
  unfolding reject_sketch
  reject gs bucket_idx key = do
    slot ← get_elem? gs.reject_sketches bucket_idx
    sk ← reject_sketch slot
    some (record gs {
      reject_sketches = set gs.reject_sketches bucket_idx (some (hll.insert_hash sk key));
    })

  unfoldable pub allow_insert_locked : GroupSize S → ℕ → ℕ → Option (GroupSize S × Bool)
  unfolding reject
  allow_insert_locked gs bucket_idx key =
      if leb gs.limit gs.size
      then (reject gs bucket_idx key >>= λ gs'. some (gs', false))
      else (get_elem? gs.bucket_sizes bucket_idx >>= λ n. some (
        record gs { bucket_sizes = set gs.bucket_sizes bucket_idx (n + 1); size = gs.size + 1 },
        true,
      ))

  unfoldable pub rotate_locked : GroupSize S → ℕ → ℕ → Option (GroupSize S)
  rotate_locked gs bucket_idx size = do
    n ← get_elem? gs.bucket_sizes bucket_idx
    slot ← get_elem? gs.reject_sketches bucket_idx
    let rejects = set gs.reject_sketches bucket_idx none
    some (
        if ltb size n
        then record gs {
          bucket_sizes = set gs.bucket_sizes bucket_idx (n - (n - size));
          size = gs.size - (n - size);
          reject_sketches = rejects;
        }
        else record gs { reject_sketches = rejects })

  -- The sum of the estimates of the reject sketches that exist.
  unfoldable pub rejected : List (Option S) → ℕ
  rejected [] = 0
  rejected (none ∷ sks) = rejected sks
  rejected (some sk ∷ sks) = hll.estimate sk + rejected sks

  unfoldable pub total_rejected : GroupSize S → ℕ
  unfolding rejected
  total_rejected gs = rejected gs.reject_sketches

  -- `int64(float64(limit) * 0.8)` is taken exactly, as four fifths rounded down.
  unfoldable pub total_size : GroupSize S → ℕ
  unfolding rejected
  total_size gs =
      if leb (gs.limit * 4 / 5) gs.size then gs.size + rejected gs.reject_sketches else gs.size

  unfoldable pub avg_bucket_size : GroupSize S → ℕ
  avg_bucket_size gs = gs.size / length gs.bucket_sizes
