-- ===== src/Metrics.antt =====
-- The text of the exposed metrics (app/vmestimator/snapshot.go, churn.go, and `estimator.writeMetrics`
-- of estimator.go). The text goes into a `bytes.Buffer`, the only writer that the program passes, whose
-- `Write` does not fail. `strconv` and the printing of a duration are parameters; the buffers of the
-- pool are left out. `none` is a panic.
pub mod Names
pub mod Lines
use vmestimator.Base.{
  ℕ, zero, suc, ◌+◌, ℤ, pos, negsuc, Bool, true, false, Text, codes, ltb, ◌==◌, nat_eq, list_eq,
  Option, none, some, ◌>>=◌, List, [], ◌∷◌, ◌++◌, length, Dict, lookup, keys, if◌then◌else◌,
  get_elem?,
}
use vmestimator.Sketch.{Hll}
use vmestimator.Config.{join_comma, or_empty}
use vmestimator.Snapshot.{new_snapshot, Snapshot, SnapshotSketch, Snapshots}
use vmestimator.Churn.{ChurnKey, ChurnEntry, ChurnSnapshots, Ratio, churn_ratio}
use vmestimator.Estimator.GroupSize.{total_size}
use vmestimator.Estimator.State.{Estimator}
use vmestimator.Export.{to_snapshot}

-- The name of the label that shows the value of a key.
unfoldable pub by_name : Text → Text
by_name k =
    if k == codes "__name__"
    then codes "by__name__"
    else if k == codes "__label__"
    then codes "by__label__"
    else codes "by_" ++ k

-- The estimates below it are left out; the flag holds when the stream sets nothing.
unfoldable pub threshold : ℕ → ℤ → ℕ
threshold flag (pos zero) = flag
threshold flag (pos (suc n)) = suc n
threshold flag (negsuc n) = 0

module _ (quote : Text → Text) (print_number : ℕ → Text) (print_ratio : Ratio → Text)
    (duration_string : ℕ → Text) (sort : List Text → List Text) where
  unfoldable pub group_by_keys_label : Text → List Text → Text
  group_by_keys_label name ks = name ++ codes "=" ++ quote (join_comma ks)

  unfoldable pub static_labels : Dict Text Text → List Text → Text
  static_labels labels [] = []
  static_labels labels (k ∷ ks) =
      codes "," ++ k ++ codes "=" ++ quote (or_empty (lookup k labels)) ++ static_labels labels ks

  unfoldable pub metric_prefix : Text → Dict Text Text → ℕ → Text → Text
  unfolding static_labels
  metric_prefix name labels interval filter =
      name
      ++ codes "{interval="
      ++ quote (duration_string interval)
      ++ codes ",filter="
      ++ quote filter
      ++ static_labels labels (sort (keys labels))

  abbrev pub line : Text → ℕ → Text
  line metric n = metric ++ print_number n ++ 10 ∷ []

  unfoldable pub global_metric : Text → Text
  global_metric prefix = prefix ++ codes ",group_by_keys=\"__global__\"} "

  unfoldable pub group_size_metric : Text → List Text → Text
  unfolding group_by_keys_label
  group_size_metric prefix ks =
      prefix
      ++ codes ",group_by_keys=\"__group__\","
      ++ group_by_keys_label (codes "group_by_values") ks
      ++ codes "} "

  -- Its `buf = buf[:0]` drops what the buffer held, which is nothing at its only call.
  unfoldable pub group_limit_metric : List Text → ℕ → Text → Text
  unfolding group_by_keys_label
  group_limit_metric ks interval filter =
      codes "vmestimator_estimator_group_limit{interval="
      ++ quote (duration_string interval)
      ++ codes ",filter="
      ++ quote filter
      ++ codes ",group_by_keys=\"__group__\","
      ++ group_by_keys_label (codes "group_by_values") ks
      ++ codes "} "

  -- The loop over the values, which reads a key at each index: a value without a key panics.
  unfoldable pub value_labels : List Text → List Text → Option Text
  unfolding by_name
  value_labels ks [] = some []
  value_labels [] (v ∷ vs) = none
  value_labels (k ∷ ks) (v ∷ vs) =
      value_labels ks vs >>= λ rest. some (codes "," ++ by_name k ++ codes "=" ++ quote v ++ rest)

  unfoldable pub group_metric : Text → Text → List Text → List Text → Option Text
  unfolding value_labels
  group_metric prefix keys_label ks vs = value_labels ks vs >>= λ labels. some (
      prefix
      ++ codes ","
      ++ keys_label
      ++ codes ",group_by_values="
      ++ quote (join_comma vs)
      ++ labels
      ++ codes "} ")

  module _ {S : Type 0} ⦃hll : Hll S⦄ where
    abbrev pub prefix_of : Snapshot S → Text
    prefix_of s = metric_prefix (codes "cardinality_estimate") s.labels s.interval s.filter

    abbrev pub group_line : Snapshot S → SnapshotSketch S → Option Text
    group_line s ssk =
        group_metric (prefix_of s) (group_by_keys_label (codes "group_by_keys") s.group_by)
          s.group_by ssk.values
        >>= λ metric. some (line metric (hll.estimate ssk.sketch))

    -- The loop over the groups: the text, and how many estimates it leaves out.
    unfoldable pub group_lines : Snapshot S → ℕ → Dict ℕ (SnapshotSketch S) → Option (Text × ℕ)
    unfolding group_metric group_by_keys_label metric_prefix
    group_lines s least [] = some ([], 0)
    group_lines s least ((key, ssk) ∷ rest) =
        let after = group_lines s least rest in
        if ltb (hll.estimate ssk.sketch) least
        then (after >>= λ r. some (r.0, r.1 + 1))
        else (group_line s ssk >>= λ t. after >>= λ r. some (t ++ r.0, r.1))

    abbrev pub estimates_by_kind : List Text → ℕ → Snapshot S → Option (Text × ℕ)
    estimates_by_kind [] flag s = lookup 0 s.sketches >>= λ ssk.
        some (line (global_metric (prefix_of s)) (hll.estimate ssk.sketch), 0)
    estimates_by_kind (k ∷ ks) flag s = group_lines s (threshold flag s.min_cardinality) s.sketches

    unfoldable pub write_cardinality_estimates : ℕ → Snapshot S → Option (Text × ℕ)
    unfolding group_lines global_metric threshold
    write_cardinality_estimates flag s = estimates_by_kind s.group_by flag s

    unfoldable pub write_group_size_and_limit : Snapshot S → ℕ → Text
    unfolding group_size_metric group_limit_metric
    write_group_size_and_limit s size =
        line (group_size_metric (prefix_of s) s.group_by) size
        ++ line (group_limit_metric s.group_by s.interval s.filter) s.group_limit

    -- It panics on a snapshot without `group_by`, which no caller passes.
    unfoldable pub write_dropped_metric : Snapshot S → ℕ → Option Text
    unfolding group_by_keys_label
    write_dropped_metric s dropped =
        if s.group_by == []
        then none
        else some (
            line
              (codes "vmestimator_cardinality_estimates_dropped{interval="
                ++ quote (duration_string s.interval)
                ++ codes ",filter="
                ++ quote s.filter
                ++ codes ","
                ++ group_by_keys_label (codes "group_by_keys") s.group_by
                ++ codes "} ")
              dropped)

    abbrev pub dropped_part : Snapshot S → ℕ → Option Text
    dropped_part s zero = some []
    dropped_part s (suc n) = write_dropped_metric s (suc n)

    -- What follows the estimates when there is a `group_by`.
    abbrev pub group_part : List Text → Snapshot S → ℕ → ℕ → Option Text
    group_part [] s dropped size = some []
    group_part (k ∷ ks) s dropped size =
        dropped_part s dropped >>= λ t. some (t ++ write_group_size_and_limit s size)

    unfoldable pub write_metrics : ℕ → Snapshot S → Option Text
    unfolding write_cardinality_estimates write_dropped_metric write_group_size_and_limit
    write_metrics flag s = write_cardinality_estimates flag s >>= λ r.
        group_part s.group_by s r.1 (length s.sketches + s.group_reject_size) >>= λ t.
        some (r.0 ++ t)

    unfoldable pub write_all_metrics : ℕ → List (Snapshot S) → Option Text
    unfolding write_metrics
    write_all_metrics flag [] = some []
    write_all_metrics flag (s ∷ ss) =
        write_metrics flag s >>= λ t. write_all_metrics flag ss >>= λ rest. some (t ++ rest)

    -- The callback of `estimator.writeMetrics`: the text and the number left out, so far.
    abbrev pub collect_estimates : ℕ → Option (Text × ℕ) → Snapshot S → Option (Text × ℕ) × Bool
    collect_estimates flag c s = (
      c >>= λ sofar.
          write_cardinality_estimates flag s >>= λ r. some (sofar.0 ++ r.0, sofar.1 + r.1),
      false,
    )

    unfoldable pub write_estimator_metrics : ℕ → Estimator S → Option Text
    unfolding write_cardinality_estimates write_dropped_metric write_group_size_and_limit
    write_estimator_metrics flag e = do
      (c, failed) ← to_snapshot (collect_estimates flag) e (some ([], 0))
      (out, dropped) ← c
      eb0 ← get_elem? e.buckets 0
      let s : Snapshot S = record new_snapshot {
        group_by = eb0.group_by;
        interval = eb0.interval;
        filter = eb0.filter;
        labels = eb0.labels;
        group_limit = e.group_size.limit;
        min_cardinality = e.min_cardinality;
      }
      t ← group_part e.group_by s dropped (total_size e.group_size)
      some (out ++ t)

    abbrev pub churn_metric : List Text → Text → ChurnEntry S → Option Text
    churn_metric [] prefix e = some (global_metric prefix)
    churn_metric (k ∷ ks) prefix e =
        group_metric prefix (group_by_keys_label (codes "group_by_keys") e.group_by) e.group_by
          e.values

    abbrev pub churn_prefix : ChurnEntry S → Text
    churn_prefix e = metric_prefix (codes "cardinality_churn_ratio") e.labels e.interval e.filter

    unfoldable pub write_churn_metrics : ChurnSnapshots S → Option Text
    unfolding global_metric group_metric metric_prefix group_by_keys_label
    write_churn_metrics [] = some []
    write_churn_metrics ((key, e) ∷ rest) = do
      metric ← churn_metric e.group_by (churn_prefix e) e
      after ← write_churn_metrics rest
      some (metric ++ print_ratio (churn_ratio e) ++ 10 ∷ after)
