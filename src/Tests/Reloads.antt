-- ===== src/Tests/Reloads.antt =====
-- The theorems on loading a configuration at concrete inputs.
use vmestimator.Base.{
  codes, length, zero, suc, ℤ, negsuc, sym, ap, ◌∙◌, ◌==◌, ==_sound, ==_refl, nat_eq, list_eq,
  pair_eq, ℕ, ◌≡◌, refl, Bool, true, false, pos, Text, Option, none, some, List, [], ◌∷◌, lookup,
}
use vmestimator.Filter.{compile_filters, Parsed, parse_error}
use vmestimator.Config.{prepare, EstimatorConfig, id_of, estimator_id, apply_defaults}
use vmestimator.Churn.{invalidate}
use vmestimator.Estimator.State.{Estimator, new_estimator, has_reserved_key, misplaced_keyword}
use vmestimator.Reload.{Loaded, System, unchanged, swapped, load_config}
use vmestimator.Reload.Streams.{IsLoaded, load_config-IsLoaded}
use vmestimator.Reload.Watch.{
  Watcher, Read, got, Rests, reload_round, reload_round_twice, read_config,
}
use vmestimator.Reload.Again.{load_config_twice}
use vmestimator.Tests.Exact.{Exact, exact_hll, exact_laws}
use vmestimator.Tests.Samples.{
  grouped_config, grouped_config-IsNormal, grouped_estimator, grouped_bucket,
}

abbrev pub keep_order : List Text → List Text
keep_order ks = ks

abbrev pub no_text : ℕ → Text
no_text d = []

abbrev pub no_selector : Text → Parsed
no_selector t = parse_error

abbrev pub no_regexp : Text → Option (Text → Bool)
no_regexp t = none

-- A configuration as a tuple of comparable parts, and back.
abbrev pub int_code : ℤ → ℕ × ℕ
int_code (pos n) = (0, n)
int_code (negsuc n) = (1, n)

abbrev pub int_of : ℕ × ℕ → ℤ
int_of (zero, n) = pos n
int_of (suc k, n) = negsuc n

abbrev pub bool_code : Bool → ℕ
bool_code false = 0
bool_code true = 1

abbrev pub bool_of : ℕ → Bool
bool_of zero = false
bool_of (suc k) = true

abbrev pub flag_code : Option Bool → ℕ
flag_code none = 0
flag_code (some b) = suc (bool_code b)

abbrev pub flag_of : ℕ → Option Bool
flag_of zero = none
flag_of (suc k) = some (bool_of k)

int_of-int_code : (z : ℤ) → int_of (int_code z) ≡ z
int_of-int_code (pos n) = refl
int_of-int_code (negsuc n) = refl

bool_of-bool_code : (b : Bool) → bool_of (bool_code b) ≡ b
bool_of-bool_code false = refl
bool_of-bool_code true = refl

flag_of-flag_code : (f : Option Bool) → flag_of (flag_code f) ≡ f
flag_of-flag_code none = refl
flag_of-flag_code (some b) = ap some (bool_of-bool_code b)

abbrev pub Code : Type 0
Code =
    (Text × List Text)
    × ((List (Text × Text) × (ℕ × ℕ)) × (((ℕ × ℕ) × (ℕ × ℕ)) × ((ℕ × ℕ) × (ℕ × ℕ))))

abbrev pub config_code : EstimatorConfig → Code
config_code c = (
  (c.filter, c.group_by),
  (
    (c.labels, (c.interval, c.hll_precision)),
    (
      (int_code c.group_limit, int_code c.buckets),
      (int_code c.min_cardinality, (bool_code c.calculate_churn, flag_code c.hll_sparse)),
    ),
  ),
)

abbrev pub config_of : Code → EstimatorConfig
config_of
      (
        (filter, group_by),
        ((labels, (interval, precision)), ((limit, buckets), (least, (churn, sparse)))),
      ) =
    record {
      filter = filter;
      group_by = group_by;
      group_limit = int_of limit;
      labels = labels;
      interval = interval;
      calculate_churn = bool_of churn;
      buckets = int_of buckets;
      hll_precision = precision;
      hll_sparse = flag_of sparse;
      min_cardinality = int_of least;
    }

config_of-config_code : (c : EstimatorConfig) → config_of (config_code c) ≡ c
config_of-config_code c =
    rw (int_of-int_code, int_of-int_code, int_of-int_code, bool_of-bool_code, flag_of-flag_code)
      refl

abbrev pub deep_equal : EstimatorConfig → EstimatorConfig → Bool
deep_equal a b = config_code a == config_code b

pub deep_equal_sound : (a b : EstimatorConfig) → deep_equal a b ≡ true → a ≡ b
deep_equal_sound a b e =
    sym (config_of-config_code a)
    ∙ ap config_of (==_sound (config_code a) (config_code b) e)
    ∙ config_of-config_code b

-- No estimator is active, and none is made yet.
abbrev idle : System Exact
idle = record {
  estimators = [];
  dedup = none;
  fingerprint_labels = false;
  churn = [];
  cached_at = none;
}

abbrev pub streams : List EstimatorConfig
streams = grouped_config ∷ []

abbrev fresh_estimator : Estimator Exact
fresh_estimator = record grouped_estimator {
  id = id_of keep_order no_text 8 grouped_config;
  group_size = record { limit = 1; size = 0; bucket_sizes = 0 ∷ []; reject_sketches = none ∷ [] };
  buckets = record grouped_bucket { groups = [] } ∷ [];
  insert_total = 0;
}

abbrev busy : System Exact
busy = record idle { estimators = fresh_estimator ∷ [] }

first_load :
    load_config keep_order no_text no_selector no_regexp 8 deep_equal idle streams ≡ swapped busy
unfolding load_config new_estimator lookup apply_defaults has_reserved_key compile_filters
    misplaced_keyword id_of estimator_id invalidate
first_load = refl

load_config-IsLoaded_example :
    IsLoaded exact_laws keep_order no_text no_selector no_regexp 8 deep_equal deep_equal_sound idle
      streams
      (load_config keep_order no_text no_selector no_regexp 8 deep_equal idle streams)
load_config-IsLoaded_example =
    load_config-IsLoaded exact_laws keep_order no_text no_selector no_regexp 8 deep_equal
      deep_equal_sound idle streams (grouped_config-IsNormal, tt) tt

load_config_twice_example :
    load_config keep_order no_text no_selector no_regexp 8 deep_equal busy streams ≡ unchanged
load_config_twice_example =
    load_config_twice keep_order no_text no_selector no_regexp 8 deep_equal
      (λ c. ==_refl (config_code c)) exact_laws deep_equal_sound idle busy streams
      (grouped_config-IsNormal, tt) (tt, tt) tt first_load

abbrev load : System Exact → List EstimatorConfig → Loaded Exact
load = load_config keep_order no_text no_selector no_regexp 8 deep_equal

abbrev watching : Watcher Exact
watching = record { system = idle; hash = 1; is_success = true; reloads = 0; reload_errors = 0 }

abbrev file : Read
file = got (record { streams = streams; hash = 2 })

abbrev reloaded : Watcher Exact
reloaded = record watching { system = busy; hash = 2; reloads = 1 }

first_round : reload_round load file watching ≡ some reloaded
unfolding reload_round load_config new_estimator lookup apply_defaults has_reserved_key
    compile_filters misplaced_keyword id_of estimator_id invalidate
first_round = refl

reload_round_twice_example : Rests load file reloaded
reload_round_twice_example = reload_round_twice load file watching reloaded first_round

-- A file is read, decoded, prepared and hashed.
read_it :
    read_config keep_order no_text 8 length
      (λ path. some (codes "ab"))
      (λ content. some streams)
      false
      (codes "f")
    ≡ got (record { streams = streams; hash = 2 })
unfolding read_config prepare lookup
read_it = refl
