-- ===== src/Tests/Samples.antt =====
-- Concrete configurations, estimators and batches.
use vmestimator.Base.{
  zero, suc, lookup, ◌*◌, ◌∙◌, sym, ℕ, ◌≡◌, refl, arith, pos, true, false, Text, codes, none, some,
  List, [], ◌∷◌, length, get_elem?, some_inj,
}
use mathlib.Core.Path.{subst}
use vmestimator.Series.{TimeSerie}
use vmestimator.Config.{EstimatorConfig, minute}
use vmestimator.Config.Prepare.{IsNormal}
use vmestimator.Estimator.Bucket.{Bucket}
use vmestimator.Estimator.State.{Estimator, build}
use vmestimator.Estimator.Tracked.{tracked, absent}
use vmestimator.Estimator.Invariant.{IsCounted}
use vmestimator.Estimator.Bounds.{IsSound}
use vmestimator.Estimator.New.{IsBuilt, build-IsBuilt}
use vmestimator.Tests.Exact.{Exact, exact_hll, exact_laws}

abbrev pub by_job : List Text
by_job = codes "job" ∷ []

-- One bucket and room for one group.
abbrev pub grouped_config : EstimatorConfig
grouped_config = record {
  filter = [];
  group_by = by_job;
  group_limit = pos 1;
  labels = [];
  interval = 5 * minute;
  calculate_churn = false;
  buckets = pos 1;
  hll_precision = 14;
  hll_sparse = some true;
  min_cardinality = pos 0;
}

abbrev pub global_config : EstimatorConfig
global_config = record grouped_config { group_by = [] }

pub grouped_config-IsNormal : IsNormal grouped_config
grouped_config-IsNormal = record {
  precise = (omega arith, omega arith);
  limited = omega arith;
  bucketed = omega arith;
  timed = omega arith;
  sparse = refl;
  keyword_last = tt;
}

pub global_config-IsNormal : IsNormal global_config
global_config-IsNormal = record {
  precise = (omega arith, omega arith);
  limited = omega arith;
  bucketed = omega arith;
  timed = omega arith;
  sparse = refl;
  keyword_last = tt;
}

-- A bucket that holds the one group allowed.
abbrev pub grouped_bucket : Bucket Exact
grouped_bucket = record {
  idx = 0;
  group_by = by_job;
  interval = 5 * minute;
  calculate_churn = false;
  filter = [];
  precision = 14;
  sparse = true;
  labels = [];
  has_label_keyword = false;
  sketch = none;
  prev_sketch = none;
  groups =
      (2, record { sketch = record { precision = 14; hashes = 4 ∷ [] }; values = codes "a" ∷ [] })
      ∷ [];
  prev_groups = [];
}

abbrev pub grouped_estimator : Estimator Exact
grouped_estimator = record {
  id = [];
  cfg = grouped_config;
  group_by = by_job;
  group_size = record { limit = 1; size = 1; bucket_sizes = 1 ∷ []; reject_sketches = none ∷ [] };
  compiled_filter = [];
  has_label_keyword = false;
  min_cardinality = pos 0;
  buckets = grouped_bucket ∷ [];
  insert_total = 1;
}

pub grouped_bucket-IsCounted : IsCounted grouped_estimator.group_size 0 grouped_bucket
unfolding tracked absent lookup
grouped_bucket-IsCounted = record {
  at = refl;
  share = refl;
  slot = omega arith;
  unique = (refl, tt);
  unique_prev = tt;
  precise = (omega arith, omega arith);
  sketched = λ e. cc;
}

by_index :
    (i : ℕ) (b : Bucket Exact)
    → get_elem? grouped_estimator.buckets i ≡ some b
    → IsCounted grouped_estimator.group_size i b × (b.group_by ≡ by_job)
by_index zero b e =
    subst (λ (c : Bucket Exact). IsCounted grouped_estimator.group_size 0 c × (c.group_by ≡ by_job))
      (some_inj e) (grouped_bucket-IsCounted, refl)
by_index (suc i) b e = cc

pub grouped_estimator-IsSound : IsSound grouped_estimator
grouped_estimator-IsSound = record {
  some_bucket = omega arith;
  balanced = record { total = refl; bounded = omega arith };
  each = λ i b e. (by_index i b e).0;
  kind = λ i b e. (by_index i b e).1;
  shares = refl;
}

-- Two series of one job each; the second job finds no room.
abbrev pub job_series : Text → ℕ → TimeSerie
job_series job h = record {
  fingerprint = h;
  labels = record { name = codes "job"; value = job; fingerprint = h } ∷ [];
}

abbrev pub batch : List TimeSerie
batch = job_series (codes "a") 11 ∷ job_series (codes "bc") 22 ∷ []

abbrev pub text_hash : Text → ℕ
text_hash t = length t

-- An estimator without `group_by`, as it is made.
abbrev pub global_estimator : Estimator Exact
global_estimator = record {
  id = [];
  cfg = global_config;
  group_by = [];
  group_size = record { limit = 1; size = 0; bucket_sizes = 0 ∷ []; reject_sketches = none ∷ [] };
  compiled_filter = [];
  has_label_keyword = false;
  min_cardinality = pos 0;
  buckets =
      record {
        idx = 0;
        group_by = [];
        interval = 5 * minute;
        calculate_churn = false;
        filter = [];
        precision = 14;
        sparse = true;
        labels = [];
        has_label_keyword = false;
        sketch = some (record { precision = 14; hashes = [] });
        prev_sketch = none;
        groups = [];
        prev_groups = [];
      }
      ∷ [];
  insert_total = 0;
}

global_estimator-build : build [] global_config [] ≡ some global_estimator
unfolding build
global_estimator-build = refl

pub global_estimator-IsBuilt :
    IsBuilt exact_laws global_config global_config-IsNormal global_estimator
global_estimator-IsBuilt =
    let (e, made, built, filter) =
      build-IsBuilt exact_laws global_config global_config-IsNormal [] [] in
    subst (IsBuilt exact_laws global_config global_config-IsNormal)
      (some_inj (sym made ∙ global_estimator-build)) built
