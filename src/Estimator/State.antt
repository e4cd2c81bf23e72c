-- ===== src/Estimator/State.antt =====
-- `estimator` of app/vmestimator/estimator.go: its construction, the rotation of one bucket and the
-- reset. Metrics registration and the rotation goroutine are left out; a turn of that goroutine is
-- `rotate_at`.
use vmestimator.Base.{
  ℕ, zero, suc, ◌+◌, ◌-◌, ◌/◌, ◌%◌, ℤ, pos_part, Bool, true, false, Text, codes, ◌==◌, list_eq,
  nat_eq, ltb, ◌||◌, Option, none, some, ◌>>=◌, List, [], ◌∷◌, length, get_elem?, set, replicate,
  if◌then◌else◌,
}
use vmestimator.Sketch.{Hll}
use vmestimator.Filter
use vmestimator.Filter.{CompiledFilter, Parsed, compile_filters}
use vmestimator.Config.{EstimatorConfig, apply_defaults, estimator_id, label_keyword}
use vmestimator.Estimator.GroupSize.{GroupSize}
use vmestimator.Estimator.Bucket.{Bucket, rotate_bucket, reset_bucket, insert_bucket}

pub record Estimator (S : Type 0) : Type 0 where
  pub id : Text
  pub cfg : EstimatorConfig
  pub group_by : List Text
  pub group_size : GroupSize S
  pub compiled_filter : CompiledFilter
  pub has_label_keyword : Bool
  pub min_cardinality : ℤ
  pub buckets : List (Bucket S)
  pub insert_total : ℕ

pub data CreateError : Type 0 where
  too_many_keys reserved_key : CreateError
  bad_filter : Filter.CompileError → CreateError

pub data Created (S : Type 0) : Type 0 where
  created : Estimator S → Created S
  refused : CreateError → Created S
  panics : Created S

unfoldable pub has_reserved_key : List Text → Bool
has_reserved_key [] = false
has_reserved_key (k ∷ ks) =
    (k == codes "__global__") || ((k == codes "__group__") || has_reserved_key ks)

-- `__label__` before the last place.
unfoldable pub misplaced_keyword : List Text → Bool
misplaced_keyword [] = false
misplaced_keyword (k ∷ []) = false
misplaced_keyword (k ∷ j ∷ ks) = (k == label_keyword) || misplaced_keyword (j ∷ ks)

unfoldable pub last_is_keyword : List Text → Bool
last_is_keyword [] = false
last_is_keyword (k ∷ []) = k == label_keyword
last_is_keyword (k ∷ j ∷ ks) = last_is_keyword (j ∷ ks)

-- *cfg.HLLSparse, which `applyDefaults` has set.
abbrev pub is_sparse : EstimatorConfig → Bool
is_sparse cfg = elim cfg.hll_sparse [ none ↦ true | some b ↦ b ]

abbrev pub or_panic : {S : Type 0} → Option (Estimator S) → Created S
or_panic none = panics
or_panic (some e) = created e

module _ {S : Type 0} ⦃hll : Hll S⦄ where
  -- `none`: a sketch that cannot be made panics.
  unfoldable pub first_sketch : EstimatorConfig → List Text → Option (Option S)
  first_sketch cfg [] = hll.new_sketch cfg.hll_precision (is_sparse cfg) >>= λ sk. some (some sk)
  first_sketch cfg (l ∷ ls) = some none

  -- The buckets from index `i` on, `left` of them.
  unfoldable pub new_buckets : EstimatorConfig → ℕ → ℕ → Option (List (Bucket S))
  unfolding first_sketch last_is_keyword
  new_buckets cfg zero i = some []
  new_buckets cfg (suc left) i = do
    sk ← first_sketch cfg cfg.group_by
    rest ← new_buckets cfg left (i + 1)
    let b : Bucket S = record {
      idx = i;
      group_by = cfg.group_by;
      interval = cfg.interval;
      calculate_churn = cfg.calculate_churn;
      filter = cfg.filter;
      precision = cfg.hll_precision;
      sparse = is_sparse cfg;
      labels = cfg.labels;
      has_label_keyword = last_is_keyword cfg.group_by;
      sketch = sk;
      prev_sketch = none;
      groups = [];
      prev_groups = [];
    }
    some (b ∷ rest)

  unfoldable pub build : Text → EstimatorConfig → CompiledFilter → Option (Estimator S)
  unfolding new_buckets
  build id cfg cf = new_buckets cfg (pos_part cfg.buckets) 0 >>= λ buckets. some (record {
    id = id;
    cfg = cfg;
    group_by = cfg.group_by;
    group_size = record {
      limit = pos_part cfg.group_limit;
      size = 0;
      bucket_sizes = replicate (pos_part cfg.buckets) 0;
      reject_sketches = replicate (pos_part cfg.buckets) none;
    };
    compiled_filter = cf;
    has_label_keyword = last_is_keyword cfg.group_by;
    min_cardinality = cfg.min_cardinality;
    buckets = buckets;
    insert_total = 0;
  })

  module _ (sort : List Text → List Text) (duration_string : ℕ → Text) (parse : Text → Parsed)
      (compile_regexp : Text → Option (Text → Bool)) where
    -- Everything after the defaults are filled in.
    unfoldable pub create : EstimatorConfig → Created S
    unfolding build
    create cfg =
        let id =
          estimator_id sort duration_string cfg.labels cfg.group_by cfg.interval cfg.filter in
        if ltb 5 (length cfg.group_by)
        then refused too_many_keys
        else if has_reserved_key cfg.group_by
        then refused reserved_key
        else elim (compile_filters compile_regexp parse cfg.filter) [
          | Filter.err e ↦ refused (bad_filter e)
          | Filter.ok cf ↦
              if misplaced_keyword cfg.group_by then panics else or_panic (build id cfg cf)
        ]

    unfoldable pub new_estimator : ℕ → EstimatorConfig → Created S
    unfolding create
    new_estimator available_cpus ec = create (apply_defaults available_cpus ec)

  -- The bucket at index `i`, changed by an operation that may also change the shared state.
  unfoldable pub with_bucket :
      Estimator S
      → ℕ
      → (Bucket S → GroupSize S → Option (Bucket S × GroupSize S))
      → Option (Estimator S)
  with_bucket e i op = do
    b ← get_elem? e.buckets i
    (b', gs') ← op b e.group_size
    some (record e { buckets = set e.buckets i b'; group_size = gs' })

  unfoldable pub insert_at : Estimator S → ℕ → ℕ → ℕ → List Text → Option (Estimator S)
  unfolding with_bucket
  insert_at e i fp key values = with_bucket e i λ b gs. insert_bucket b gs fp key values

  -- One tick of `runRotation`: the bucket's turn, and the next index.
  unfoldable pub rotate_at : Estimator S → ℕ → Option (Estimator S × ℕ)
  unfolding with_bucket
  rotate_at e i = with_bucket e i rotate_bucket >>= λ e'. some (e', (i + 1) % length e.buckets)

  -- The loop of `reset` over the buckets from index `i` on.
  unfoldable pub reset_from : ℕ → ℕ → Estimator S → Option (Estimator S)
  unfolding with_bucket
  reset_from zero i e = some e
  reset_from (suc left) i e = with_bucket e i reset_bucket >>= λ e'. reset_from left (i + 1) e'

  unfoldable pub reset : Estimator S → Option (Estimator S)
  unfolding reset_from
  reset e = reset_from (length e.buckets) 0 e

-- What `runRotation` sleeps until the next tick: nanoseconds, for the period of one bucket.
-- The period of the grid of ticks: a division by the number of buckets.
unfoldable pub bucket_period : ℕ → ℕ → Option ℕ
bucket_period interval zero = none
bucket_period interval (suc n) = some (interval / 2 / suc n)

-- How long the goroutine waits at `now`: a remainder by the period, which panics for 0.
unfoldable pub wait_ns : ℕ → ℕ → Option ℕ
wait_ns zero now = none
wait_ns (suc p) now = let wait = suc p - now % suc p in some (if wait == suc p then 0 else wait)
