-- ===== src/Snapshot.antt =====
-- Snapshots of estimators (app/vmestimator/snapshot.go): what `snapshots.add` and `snapshot.merge`
-- make of the snapshots that several nodes send. Counts and limits are natural numbers; a duration
-- is nanoseconds. `none` is a panic.
pub mod Merge
pub mod Order
pub mod Adds
use vmestimator.Base.{
  ℕ, ◌+◌, ℤ, pos, negsuc, is_negative, max_ℤ, Bool, true, false, not, ◌&&◌, ◌||◌, Text, ◌==◌,
  nat_eq, list_eq, Option, none, some, ◌>>=◌, List, [], ◌∷◌, Dict, lookup, insert, if◌then◌else◌,
}
use vmestimator.Sketch.{Hll}
use vmestimator.Config.{estimator_id}

pub record SnapshotSketch (S : Type 0) : Type 0 where
  pub values : List Text
  pub sketch : S

pub record Snapshot (S : Type 0) : Type 0 where
  pub id : Text
  pub interval : ℕ
  pub calculate_churn : Bool
  pub labels : Dict Text Text
  pub filter : Text
  pub group_by : List Text
  pub group_limit : ℕ
  pub group_reject_size : ℕ
  pub min_cardinality : ℤ
  pub sketches : Dict ℕ (SnapshotSketch S)

-- The map of `snapshots`, by id.
abbrev pub Snapshots : Type 0 → Type 0
Snapshots S = Dict Text (Snapshot S)

-- `newSnapshot`, which is also what `reset` leaves.
unfoldable pub new_snapshot : {S : Type 0} → Snapshot S
new_snapshot = record {
  id = [];
  interval = 0;
  calculate_churn = false;
  labels = [];
  filter = [];
  group_by = [];
  group_limit = 0;
  group_reject_size = 0;
  min_cardinality = pos 0;
  sketches = [];
}

-- A negative threshold, which switches the filter off, wins; else the larger one does.
unfoldable pub merge_min_cardinality : ℤ → ℤ → ℤ
merge_min_cardinality a b = if is_negative a || is_negative b then negsuc 0 else max_ℤ a b

unfoldable pub merge_labels : Dict Text Text → Dict Text Text → Dict Text Text
merge_labels labels [] = labels
merge_labels labels ((k, v) ∷ others) = merge_labels (insert k v labels) others

module _ {S : Type 0} ⦃hll : Hll S⦄ where
  abbrev pub or_unmerged : SnapshotSketch S → Option S → SnapshotSketch S
  or_unmerged x none = x
  or_unmerged x (some sk) = record x { sketch = sk }

  -- `_ = existing.Merge(other)`: on an error the sketch stays as it was.
  unfoldable pub merge_sketch : SnapshotSketch S → SnapshotSketch S → SnapshotSketch S
  merge_sketch x other = or_unmerged x (hll.merge x.sketch other.sketch)

  -- What the sketch at a key becomes; a key without one gets a copy of the other.
  unfoldable pub absorb : Option (SnapshotSketch S) → SnapshotSketch S → SnapshotSketch S
  unfolding merge_sketch
  absorb none other = other
  absorb (some x) other = merge_sketch x other

  -- The body of the loop over the other sketches.
  unfoldable pub merge_entry :
      Dict ℕ (SnapshotSketch S) → ℕ → SnapshotSketch S → Dict ℕ (SnapshotSketch S)
  unfolding absorb
  merge_entry sketches key other = insert key (absorb (lookup key sketches) other) sketches

  unfoldable pub merge_entries :
      Dict ℕ (SnapshotSketch S) → Dict ℕ (SnapshotSketch S) → Dict ℕ (SnapshotSketch S)
  unfolding merge_entry
  merge_entries sketches [] = sketches
  merge_entries sketches ((key, other) ∷ others) =
      merge_entries (merge_entry sketches key other) others

  abbrev pub merged : Snapshot S → Snapshot S → Snapshot S
  merged s other = record {
    id = other.id;
    interval = other.interval;
    calculate_churn = s.calculate_churn || other.calculate_churn;
    labels = merge_labels s.labels other.labels;
    filter = other.filter;
    group_by = other.group_by;
    group_limit = other.group_limit;
    group_reject_size = s.group_reject_size + other.group_reject_size;
    min_cardinality = merge_min_cardinality s.min_cardinality other.min_cardinality;
    sketches = merge_entries s.sketches other.sketches;
  }

  unfoldable pub merge : Snapshot S → Snapshot S → Option (Snapshot S)
  unfolding merge_entries merge_min_cardinality merge_labels
  merge s other = if not (s.id == []) && not (s.id == other.id) then none else some (merged s other)

  abbrev pub or_new : Option (Snapshot S) → Snapshot S
  or_new none = new_snapshot
  or_new (some s) = s

  -- The snapshot of that id so far, or a new one.
  unfoldable pub current : Snapshots S → Text → Snapshot S
  current ss id = or_new (lookup id ss)

  unfoldable pub put : Snapshots S → Snapshot S → Option (Snapshots S)
  unfolding merge current
  put ss s = merge (current ss s.id) s >>= λ m. some (insert m.id m ss)

  module _ (sort : List Text → List Text) (duration_string : ℕ → Text) where
    -- Snapshots of older versions have no id.
    unfoldable pub with_id : Snapshot S → Snapshot S
    with_id s =
        if s.id == []
        then record s {
          id = estimator_id sort duration_string s.labels s.group_by s.interval s.filter;
        }
        else s

    unfoldable pub add : Snapshots S → Snapshot S → Option (Snapshots S)
    unfolding with_id put
    add ss s = put ss (with_id s)

    -- The snapshots that the nodes send, in the order in which `add` gets the lock.
    unfoldable pub add_all : Snapshots S → List (Snapshot S) → Option (Snapshots S)
    unfolding add
    add_all ss [] = some ss
    add_all ss (s ∷ rest) = add ss s >>= λ ss'. add_all ss' rest
