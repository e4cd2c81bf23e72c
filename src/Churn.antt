-- ===== src/Churn.antt =====
-- The churn of the groups between two rounds (app/vmestimator/churn.go), and the entries that a
-- reload drops (`invalidateCardinalityCache` of cardinality_metrics.go). Times and durations are
-- nanoseconds. `none` is a panic. A ratio is taken exactly, as a fraction, where the program
-- divides floating-point numbers. The text of the metrics is in Metrics.
pub mod Window
use vmestimator.Base.{
  ℕ, ◌+◌, ◌-◌, ◌*◌, ◌%◌, ◌^◌, Bool, true, false, not, Text, ltb, leb, ◌==◌, nat_eq, list_eq,
  pair_eq, Option, none, some, List, [], ◌∷◌, Dict, lookup, insert, has, if◌then◌else◌,
}
use vmestimator.Sketch.{Hll}
use vmestimator.Snapshot.{Snapshot, SnapshotSketch}

-- The id of the snapshot and the key of the group.
abbrev pub ChurnKey : Type 0
ChurnKey = Text × ℕ

pub record ChurnSketch (S : Type 0) : Type 0 where
  pub added_at : ℕ
  -- `none` is nil.
  pub sketch : Option S

-- `prev` and `curr` are nil only inside `update`.
pub record ChurnEntry (S : Type 0) : Type 0 where
  pub interval : ℕ
  pub filter : Text
  pub labels : Dict Text Text
  pub group_by : List Text
  pub values : List Text
  pub prev : ChurnSketch S
  pub curr : ChurnSketch S

abbrev pub ChurnSnapshots : Type 0 → Type 0
ChurnSnapshots S = Dict ChurnKey (ChurnEntry S)

pub record Ratio : Type 0 where
  pub numerator : ℕ
  pub denominator : ℕ

abbrev pub no_churn : Ratio
no_churn = record { numerator = 0; denominator = 1 }

-- t.Before(now.Add(-age))
abbrev pub is_older : ℕ → ℕ → ℕ → Bool
is_older t age now = ltb (t + age) now

-- float64(2*unionEst) - float64(prev) - float64(cur), over unionEst, held in [0, 1].
abbrev pub ratio_of : ℕ → ℕ → ℕ → Ratio
ratio_of union prev curr =
    let twice = 2 * union % 2 ^ 64 in
    if union == 0
    then no_churn
    else if leb twice (prev + curr)
    then no_churn
    else if ltb union (twice - (prev + curr))
    then record { numerator = 1; denominator = 1 }
    else record { numerator = twice - (prev + curr); denominator = union }

module _ {S : Type 0} where
  -- The body of the loop of `update`: the entry of a key, from the one before if there is one.
  unfoldable pub next_entry :
      Option (ChurnEntry S) → Snapshot S → SnapshotSketch S → ℕ → ChurnEntry S
  next_entry none s ssk now = record {
    interval = s.interval;
    filter = s.filter;
    labels = s.labels;
    group_by = s.group_by;
    values = ssk.values;
    prev = record { added_at = now; sketch = none };
    curr = record { added_at = now; sketch = some ssk.sketch };
  }
  next_entry (some e) s ssk now =
      if is_older e.prev.added_at s.interval now
      then record e {
        prev = record { added_at = now; sketch = e.curr.sketch };
        curr = record { added_at = now; sketch = some ssk.sketch };
      }
      else record e { curr = record { added_at = now; sketch = some ssk.sketch } }

  unfoldable pub update_from :
      Dict ℕ (SnapshotSketch S) → ChurnSnapshots S → Snapshot S → ℕ → ChurnSnapshots S
  unfolding next_entry
  update_from [] entries s now = entries
  update_from ((key, ssk) ∷ rest) entries s now =
      let k : ChurnKey = (s.id, key) in
      update_from rest (insert k (next_entry (lookup k entries) s ssk now) entries) s now

  unfoldable pub update : ChurnSnapshots S → Snapshot S → ℕ → Option (ChurnSnapshots S)
  unfolding update_from
  update entries s now =
      if not s.calculate_churn
      then none
      else if s.interval == 0
      then none
      else some (update_from s.sketches entries s now)

  unfoldable pub cleanup : ℕ → ChurnSnapshots S → ChurnSnapshots S
  cleanup now [] = []
  cleanup now ((k, e) ∷ entries) =
      let rest = cleanup now entries in
      if is_older e.curr.added_at (e.interval * 2) now then rest else (k, e) ∷ rest

  -- The loop of `invalidateCardinalityCache`; `removed` is the map of removed estimators by id.
  unfoldable pub invalidate : {E : Type 0} → Dict Text E → ChurnSnapshots S → ChurnSnapshots S
  invalidate removed [] = []
  invalidate removed ((k, e) ∷ entries) =
      let rest = invalidate removed entries in if has k.0 removed then rest else (k, e) ∷ rest

  module _ ⦃hll : Hll S⦄ where
    abbrev pub of_union : S → S → Option S → Ratio
    of_union psk csk none = no_churn
    of_union psk csk (some union) =
        ratio_of (hll.estimate union) (hll.estimate psk) (hll.estimate csk)

    abbrev pub of_sketches : Option S → Option S → Ratio
    of_sketches none c = no_churn
    of_sketches (some psk) none = no_churn
    of_sketches (some psk) (some csk) = of_union psk csk (hll.merge csk psk)

    -- The current sketch is never nil here.
    unfoldable pub churn_ratio : ChurnEntry S → Ratio
    churn_ratio e = of_sketches e.prev.sketch e.curr.sketch
