-- ===== src/Scrape.antt =====
-- A scrape of the cardinality metrics (`writeCardinalityMetrics` of
-- app/vmestimator/cardinality_metrics.go) and its cache. What the storage nodes answer is an argument:
-- the snapshots in the order in which they were added, and whether all nodes answered. The calls of
-- the clock are arguments, in nanoseconds; the counters of the program itself are left out. `none` is a
-- panic.
pub mod Cache
use vmestimator.Base.{
  ℕ, ◌-◌, Bool, true, false, not, ◌||◌, Text, leb, ◌==◌, nat_eq, Option, none, some, ◌>>=◌, List,
  [], ◌∷◌, ◌++◌, Dict, get_elem?, if◌then◌else◌,
}
use vmestimator.Sketch.{Hll}
use vmestimator.Snapshot.{Snapshot, Snapshots, add_all}
use vmestimator.Churn.{ChurnSnapshots, Ratio, update, cleanup}
use vmestimator.Estimator.Bucket.{Bucket}
use vmestimator.Estimator.State.{Estimator}
use vmestimator.Export.{to_snapshot}
use vmestimator.Metrics.{write_estimator_metrics, write_all_metrics, write_churn_metrics}

-- What `cardinalityCacheMu` guards; `none` is the zero time.
pub record Cached (S : Type 0) : Type 0 where
  pub churn : ChurnSnapshots S
  pub cached_at : Option ℕ
  pub text : Text

-- What the fetches of all storage nodes gave.
pub record Fetched (S : Type 0) : Type 0 where
  pub arrived : List (Snapshot S)
  pub all_answered : Bool

-- The zero time is longer ago than any duration.
unfoldable pub is_expired : Option ℕ → ℕ → ℕ → Bool
is_expired none ttl since_now = true
is_expired (some at) ttl since_now = leb ttl (since_now - at) || (ttl == 0)

module _ {S : Type 0} where
  abbrev pub snapshots_of : Snapshots S → List (Snapshot S)
  snapshots_of [] = []
  snapshots_of ((id, s) ∷ ss) = s ∷ snapshots_of ss

  -- The callback of the export for churn.
  abbrev pub update_with :
      ℕ → Option (ChurnSnapshots S) → Snapshot S → Option (ChurnSnapshots S) × Bool
  update_with now c s = (c >>= λ churn. update churn s now, false)

  -- The snapshots of the nodes that take part in churn.
  unfoldable pub update_fetched :
      ℕ → List (Snapshot S) → ChurnSnapshots S → Option (ChurnSnapshots S)
  update_fetched now [] churn = some churn
  update_fetched now (s ∷ ss) churn =
      if s.calculate_churn
      then (update churn s now >>= λ churn'. update_fetched now ss churn')
      else update_fetched now ss churn

  -- Churn is updated only when all nodes have answered.
  abbrev pub churn_of_all : Bool → ℕ → Snapshots S → ChurnSnapshots S → Option (ChurnSnapshots S)
  churn_of_all true now ss churn = update_fetched now (snapshots_of ss) churn
  churn_of_all false now ss churn = some churn

module _ (quote : Text → Text) (print_number : ℕ → Text) (print_ratio : Ratio → Text)
    (duration_string : ℕ → Text) (sort : List Text → List Text) (flag : ℕ) {S : Type 0}
    ⦃hll : Hll S⦄ where
  unfoldable pub write_estimators : List (Estimator S) → Option Text
  write_estimators [] = some []
  write_estimators (e ∷ es) = do
    t ← write_estimator_metrics quote print_number print_ratio duration_string sort flag e
    rest ← write_estimators es
    some (t ++ rest)

  unfoldable pub update_own : ℕ → List (Estimator S) → ChurnSnapshots S → Option (ChurnSnapshots S)
  update_own now [] churn = some churn
  update_own now (e ∷ es) churn = do
    eb0 ← get_elem? e.buckets 0
    let exported = to_snapshot (update_with now) e (some churn)
    let others = update_own now es churn
    let after = exported >>= λ r. r.0 >>= λ churn'. update_own now es churn'
    if eb0.calculate_churn then after else others

  -- The part for the storage nodes: its text, and the churn after it.
  unfoldable pub write_fetched :
      ℕ → Option (Fetched S) → ChurnSnapshots S → Option (Text × ChurnSnapshots S)
  unfolding update_fetched
  write_fetched now none churn = some ([], churn)
  write_fetched now (some f) churn = do
    ss ← add_all sort duration_string [] f.arrived
    churn' ← churn_of_all f.all_answered now ss churn
    t ← write_all_metrics quote print_number print_ratio duration_string sort flag (snapshots_of ss)
    some (t, churn')

  -- The metrics anew, at `now`; they are ready at `done_at`.
  unfoldable pub refresh :
      List (Estimator S) → Option (Fetched S) → ℕ → ℕ → Cached S → Option (Cached S)
  unfolding write_estimators update_own write_fetched
  refresh es fetched now done_at c = do
    own ← write_estimators es
    churn ← update_own now es c.churn
    (merged, churn') ← write_fetched now fetched churn
    let kept = cleanup now churn'
    last ← write_churn_metrics quote print_number print_ratio duration_string sort kept
    some (record { churn = kept; cached_at = some done_at; text = own ++ merged ++ last })

  -- A scrape: the state after it, whose text is what it writes.
  unfoldable pub write_cardinality_metrics :
      ℕ → ℕ → ℕ → ℕ → List (Estimator S) → Option (Fetched S) → Cached S → Option (Cached S)
  unfolding refresh is_expired
  write_cardinality_metrics ttl since_now now done_at es fetched c =
      if is_expired c.cached_at ttl since_now then refresh es fetched now done_at c else some c
