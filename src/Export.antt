-- ===== src/Export.antt =====
-- `estimator.toSnapshot` of app/vmestimator/estimator.go, which hands the state of an estimator to a
-- callback, in batches. The callback is a function on the caller's state `C` that also says whether
-- it failed. `none` is a panic. The whole export is one step here: in the program the lock of a
-- bucket is released between two batches.
pub mod Pool
pub mod PoolLaws
pub mod Keys
pub mod KeyLists
pub mod Runs
pub mod Groups
pub mod Whole
use vmestimator.Base.{
  ℕ, zero, suc, min, Bool, true, false, not, nat_eq, Text, Option, none, some, ◌>>=◌, List, [], ◌∷◌,
  ◌++◌, length, get_elem?, take, drop, Dict, lookup, insert, has, keys, if◌then◌else◌,
}
use vmestimator.Sketch.{Hll}
use vmestimator.Snapshot.{Snapshot, SnapshotSketch, new_snapshot}
use vmestimator.Estimator.GroupSize.{total_rejected, avg_bucket_size}
use vmestimator.Estimator.Bucket.{Bucket, GroupSketch, new_sketch, merge_sketches}
use vmestimator.Estimator.State.{Estimator}
use Pool.{SketchesPool, new_sketches_pool, get_for_merge, put}

abbrev pub batch_size : ℕ
batch_size = 1000

abbrev pub without {ℓ} : {V : Type ℓ} → Dict ℕ V → List ℕ → List ℕ
without m [] = []
without m (k ∷ ks) = if has k m then without m ks else k ∷ without m ks

-- The keys of both maps, each once.
unfoldable pub bucket_keys : {S : Type 0} → Bucket S → List ℕ
bucket_keys eb = keys eb.groups ++ without eb.groups (keys eb.prev_groups)

-- The slices keys[i:min(i+1000, len)], for at most `rounds` of them.
unfoldable pub batches : ℕ → List ℕ → List (List ℕ)
batches zero ks = []
batches (suc rounds) [] = []
batches (suc rounds) (k ∷ ks) = take batch_size (k ∷ ks) ∷ batches rounds (drop batch_size (k ∷ ks))

module _ {S : Type 0} where
  -- The fields that all snapshots of one export share.
  unfoldable pub header : Estimator S → Bucket S → Snapshot S
  header e eb0 = record {
    id = e.id;
    interval = eb0.interval;
    calculate_churn = eb0.calculate_churn;
    labels = eb0.labels;
    filter = eb0.filter;
    group_by = eb0.group_by;
    group_limit = e.group_size.limit;
    group_reject_size = 0;
    min_cardinality = e.min_cardinality;
    sketches = [];
  }

  abbrev pub sketch_of : Option (GroupSketch S) → Option S
  sketch_of none = none
  sketch_of (some g) = some g.sketch

module _ {S : Type 0} ⦃hll : Hll S⦄ where
  abbrev pub merged_pair :
      GroupSketch S
      → Option S
      → Option S
      → SketchesPool S
      → Option (SnapshotSketch S × SketchesPool S)
  merged_pair g cur prev pool = get_for_merge pool g.sketch >>= λ r.
      (merge_sketches cur prev r.0 >>= λ sk. some (record { values = g.values; sketch = sk }, r.1))

  -- What one key of a batch becomes, from what the current and the previous map hold there. A key is
  -- in one of the two, so the last clause is not reached.
  unfoldable pub export_key :
      Option (GroupSketch S)
      → Option (GroupSketch S)
      → SketchesPool S
      → Option (SnapshotSketch S × SketchesPool S)
  export_key (some g) prev pool = merged_pair g (some g.sketch) (sketch_of prev) pool
  export_key none (some g) pool = merged_pair g none (some g.sketch) pool
  export_key none none pool = none

  unfoldable pub export_batch :
      List ℕ
      → Bucket S
      → Dict ℕ (SnapshotSketch S)
      → SketchesPool S
      → Option (Dict ℕ (SnapshotSketch S) × SketchesPool S)
  unfolding export_key
  export_batch [] eb sketches pool = some (sketches, pool)
  export_batch (key ∷ batch) eb sketches pool =
      export_key (lookup key eb.groups) (lookup key eb.prev_groups) pool >>= λ r.
      export_batch batch eb (insert key r.0 sketches) r.1

  -- After the callback: every sketch goes back to the pool.
  unfoldable pub put_all : Dict ℕ (SnapshotSketch S) → SketchesPool S → SketchesPool S
  put_all [] pool = pool
  put_all ((key, ssk) ∷ rest) pool = put_all rest (put pool ssk.sketch)

  module _ {C : Type 0} (cb : C → Snapshot S → C × Bool) where
    -- The caller's state, and the pool; no pool where the callback failed, which ends the export.
    abbrev pub Exported : Type 0
    Exported = C × Option (SketchesPool S)

    abbrev pub go_on : Exported → (C → SketchesPool S → Option Exported) → Option Exported
    go_on (c, none) next = some (c, none)
    go_on (c, some pool) next = next c pool

    abbrev pub called : C × Bool → SketchesPool S → Exported
    called (c, true) pool = (c, none)
    called (c, false) pool = (c, some pool)

    unfoldable pub export_batches :
        List (List ℕ) → Bucket S → Snapshot S → SketchesPool S → C → Option Exported
    unfolding export_batch put_all
    export_batches [] eb head pool c = some (c, some pool)
    export_batches (batch ∷ rest) eb head pool c = do
      (sketches, pool') ← export_batch batch eb [] pool
      go_on (called (cb c (record head { sketches = sketches })) (put_all sketches pool'))
          λ c' pool''. export_batches rest eb head pool'' c'

    unfoldable pub export_buckets :
        List (Bucket S) → Snapshot S → SketchesPool S → C → Option Exported
    unfolding export_batches bucket_keys batches
    export_buckets [] head pool c = some (c, some pool)
    export_buckets (eb ∷ ebs) head pool c = do
      let ks = bucket_keys eb
      r ← export_batches (batches (length ks) ks) eb head pool c
      go_on r λ c' pool'. export_buckets ebs head pool' c'

    abbrev pub end_with : Snapshot S → Exported → C × Bool
    end_with last (c, none) = (c, true)
    end_with last (c, some pool) = cb c last

    -- The last snapshot has no groups, and the number of rejected ones.
    unfoldable pub export_groups : Estimator S → Bucket S → C → Option (C × Bool)
    unfolding export_buckets header
    export_groups e eb0 c = do
      pool ← new_sketches_pool eb0.precision (min batch_size (avg_bucket_size e.group_size))
      r ← export_buckets e.buckets (header e eb0) pool c
      let last : Snapshot S = record (header e eb0) {
        group_reject_size = total_rejected e.group_size;
      }
      some (end_with last r)

    unfoldable pub merge_buckets : List (Bucket S) → S → Option S
    merge_buckets [] res = some res
    merge_buckets (eb ∷ ebs) res =
        merge_sketches eb.sketch eb.prev_sketch res >>= λ res'. merge_buckets ebs res'

    unfoldable pub export_global : Estimator S → Bucket S → C → Option (C × Bool)
    unfolding merge_buckets header
    export_global e eb0 c = do
      sk ← new_sketch eb0
      res ← merge_buckets e.buckets sk
      some (
          cb c (record (header e eb0) {
            group_by = [];
            group_limit = 0;
            sketches = (0, record { values = []; sketch = res }) ∷ [];
          }))

    abbrev pub by_kind : List Text → Estimator S → Bucket S → C → Option (C × Bool)
    by_kind [] e eb0 c = export_global e eb0 c
    by_kind (l ∷ ls) e eb0 c = export_groups e eb0 c

    unfoldable pub to_snapshot : Estimator S → C → Option (C × Bool)
    to_snapshot e c = get_elem? e.buckets 0 >>= λ eb0. by_kind e.group_by e eb0 c
