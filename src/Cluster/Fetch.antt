-- ===== src/Cluster/Fetch.antt =====
-- Reading the snapshots of the other nodes (`decodeSnapshots` of app/vmestimator/snapshot.go and
-- `fetchAndMergeSnapshots` of app/vmestimator/cardinality_metrics.go). The decoder, which writes a
-- message over the snapshot that it is given, is a parameter; `none` is its error. A response is its
-- status and the messages of its body; `none` is a request that failed.
use vmestimator.Base.{
  ℕ, pos, Bool, true, false, ◌&&◌, ◌==◌, nat_eq, Option, none, some, List, [], ◌∷◌, if◌then◌else◌,
}
use vmestimator.Snapshot.{Snapshot, new_snapshot}

unfoldable pub reset : {S : Type 0} → Snapshot S → Snapshot S
reset s = record s {
  id = [];
  group_limit = 0;
  group_reject_size = 0;
  interval = 0;
  calculate_churn = false;
  filter = [];
  group_by = [];
  min_cardinality = pos 0;
  labels = [];
  sketches = [];
}

module _ {S M C : Type 0} (decode : M → Snapshot S → Option (Snapshot S))
    (cb : C → Snapshot S → C) where
  -- The loop, with the snapshot that it reuses; the result says whether the stream was read to its
  -- end.
  unfoldable pub decode_from : Snapshot S → List M → C → C × Bool
  unfolding reset
  decode_from s [] c = (c, true)
  decode_from s (m ∷ ms) c = elim (decode m (reset s)) [
    | none ↦ (c, false)
    | some s' ↦ decode_from s' ms (cb c s')
  ]

  unfoldable pub decode_snapshots : List M → C → C × Bool
  unfolding decode_from
  decode_snapshots ms c = decode_from new_snapshot ms c

  unfoldable pub fetch_and_merge_snapshots : Option (ℕ × List M) → C → C × Bool
  unfolding decode_snapshots
  fetch_and_merge_snapshots none c = (c, false)
  fetch_and_merge_snapshots (some (status, ms)) c =
      if status == 200 then decode_snapshots ms c else (c, false)

  -- The requests to all nodes, one whole after the other.
  unfoldable pub fetch_nodes : List (Option (ℕ × List M)) → C → C × Bool
  unfolding fetch_and_merge_snapshots
  fetch_nodes [] c = (c, true)
  fetch_nodes (r ∷ rs) c =
      let (c', is_read) = fetch_and_merge_snapshots r c in
      let (c'', all_read) = fetch_nodes rs c' in (c'', is_read && all_read)
