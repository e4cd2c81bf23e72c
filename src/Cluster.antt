-- ===== src/Cluster.antt =====
-- A cluster: the nodes serve the snapshots of their estimators (`/clusternative/snapshot` of
-- app/vmestimator/main.go), and another one adds all that it gets (`fetchAndMergeSnapshots` of
-- app/vmestimator/cardinality_metrics.go). What encodes, sends and decodes a snapshot (gob, HTTP) is
-- a parameter; reading the answers is in Cluster/Fetch. `none` is a panic.
pub mod Union
pub mod Fetch
pub mod Fetched
use vmestimator.Base.{Bool, false, Option, none, some, ◌>>=◌, List, [], ◌∷◌, ◌++◌}
use vmestimator.Sketch.{Hll}
use vmestimator.Snapshot.{Snapshot}
use vmestimator.Estimator.State.{Estimator}
use vmestimator.Export.{to_snapshot}

module _ {S : Type 0} ⦃hll : Hll S⦄ where
  -- The loop of the handler; an error of the callback is logged, and the next estimator follows.
  unfoldable pub serve_snapshots :
      {C : Type 0} (cb : C → Snapshot S → C × Bool) → List (Estimator S) → C → Option C
  serve_snapshots cb [] c = some c
  serve_snapshots cb (e ∷ es) c = to_snapshot cb e c >>= λ r. serve_snapshots cb es r.0

-- Writing to a stream of messages.
abbrev pub send : {S M : Type 0} (encode : Snapshot S → M) → List M → Snapshot S → List M × Bool
send encode sent s = (sent ++ encode s ∷ [], false)
