-- ===== src/Tests/Streams.antt =====
-- The theorems on configurations, filters and estimators at concrete inputs.
use mathlib.Core.Logic.{◌↔◌}
use vmestimator.Base.{
  ℕ, ◌≡◌, ◌≢◌, refl, ◌≤◌, Bool, true, false, Text, codes, Option, none, some, List, [], ◌∷◌, length,
  map, All, keys, lookup, nat_eq, list_eq,
}
use vmestimator.Series.{Label}
use vmestimator.Filter.{CompiledFilter, Parsed, selector, compile_filters, match, ok}
use vmestimator.Filter.Laws.{compile_filters-Selects, Selects}
use vmestimator.Config
use vmestimator.Config.{EstimatorConfig, apply_defaults, prepare, id_of}
use vmestimator.Config.Prepare.{IsNormal, IsFreeLabel, AllDistinct, prepare-IsNormal}
use vmestimator.Estimator.State.{Estimator, new_estimator, reset}
use vmestimator.Estimator.InsertMany.{insert_many, collect, find_label}
use vmestimator.Estimator.GroupKey.{collect-collides}
use vmestimator.Estimator.Placement.{Placed, insert_bucket-Placed}
use vmestimator.Estimator.Bucket.{Bucket, insert_bucket}
use vmestimator.Estimator.GroupSize.{GroupSize}
use vmestimator.Estimator.Idle.{turns, IsIdle, turns-IsIdle}
use vmestimator.Estimator.Bounds.{IsSound}
use vmestimator.Estimator.Batches.{insert_many-IsSound}
use vmestimator.Estimator.New.{Makes, new_estimator-Makes}
use vmestimator.Estimator.Resets.{reset-IsIdle, reset-none_of_new}
use vmestimator.Tests.Exact.{Exact, exact_hll, exact_laws}
use vmestimator.Tests.Samples.{
  grouped_config, global_config, grouped_config-IsNormal, global_config-IsNormal, grouped_estimator,
  grouped_estimator-IsSound, by_job, grouped_bucket, grouped_bucket-IsCounted, batch, text_hash,
  global_estimator, global_estimator-IsBuilt,
}

abbrev keep_order : List Text → List Text
keep_order ks = ks

abbrev no_text : ℕ → Text
no_text d = []

-- Every filter text is read as {job!="a"}.
abbrev not_a : Text → Parsed
not_a t = selector (
    (record { label = codes "job"; value = codes "a"; is_negative = true; is_regexp = false } ∷ [])
    ∷ [])

abbrev no_regexp : Text → Option (Text → Bool)
no_regexp t = none

insert_many-IsSound_example :
    (e' : Estimator Exact) × (insert_many text_hash 5 batch grouped_estimator ≡ some e')
    × IsSound e'
    × (e'.group_size.size ≤ 1)
insert_many-IsSound_example =
    insert_many-IsSound exact_laws text_hash 5 batch grouped_estimator grouped_estimator-IsSound

new_estimator-Makes_example :
    Makes exact_laws grouped_config grouped_config-IsNormal keep_order no_text not_a no_regexp
      (new_estimator {S = Exact} keep_order no_text not_a no_regexp 8 grouped_config)
new_estimator-Makes_example =
    new_estimator-Makes exact_laws grouped_config grouped_config-IsNormal keep_order no_text not_a
      no_regexp 8

reset-IsIdle_example :
    (e' : Estimator Exact) × (reset grouped_estimator ≡ some e')
    × IsSound e'
    × IsIdle exact_laws e'
    × (length e'.buckets ≡ 1)
    × (e'.group_size.limit ≡ 1)
reset-IsIdle_example = reset-IsIdle exact_laws grouped_estimator grouped_estimator-IsSound (λ e. cc)

reset-none_of_new_example : reset global_estimator ≡ none
reset-none_of_new_example =
    reset-none_of_new exact_laws global_config global_config-IsNormal global_estimator
      global_estimator-IsBuilt refl

abbrev only : Text → List Label
only name = record { name = name; value = codes "x"; fingerprint = 0 } ∷ []

abbrev not_a_filter : CompiledFilter
not_a_filter =
    record {
      label = codes "job";
      value = codes "a";
      is_negative = true;
      is_regexp = false;
      re = none;
    }
    ∷ []

compiles : compile_filters no_regexp not_a (codes "x") ≡ ok not_a_filter
unfolding compile_filters
compiles = refl

compile_filters-Selects_example :
    (match not_a_filter (only (codes "job")) ≡ true)
    ↔ Selects no_regexp not_a (codes "x") (only (codes "job"))
compile_filters-Selects_example =
    compile_filters-Selects no_regexp not_a (codes "x") not_a_filter (only (codes "job")) compiles

accepted : prepare keep_order no_text 8 (grouped_config ∷ []) ≡ Config.ok (grouped_config ∷ [])
unfolding prepare lookup
accepted = refl

prepare-IsNormal_example :
    (length (grouped_config ∷ []) ≡ 1)
    × All IsNormal (grouped_config ∷ [])
    × All (λ (ec : EstimatorConfig). All IsFreeLabel (keys ec.labels)) (grouped_config ∷ [])
    × AllDistinct (map (id_of keep_order no_text 8) (grouped_config ∷ []))
prepare-IsNormal_example =
    prepare-IsNormal keep_order no_text 8 (grouped_config ∷ []) (grouped_config ∷ []) accepted

abbrev two_keys : List Text
two_keys = codes "a" ∷ codes "b" ∷ []

first_in_first : find_label (codes "a") (only (codes "a")) ≡ some (codes "x")
unfolding find_label
first_in_first = refl

second_in_first : find_label (codes "b") (only (codes "a")) ≡ none
unfolding find_label
second_in_first = refl

first_in_second : find_label (codes "a") (only (codes "b")) ≡ none
unfolding find_label
first_in_second = refl

second_in_second : find_label (codes "b") (only (codes "b")) ≡ some (codes "x")
unfolding find_label
second_in_second = refl

-- {a="x"} and {b="x"}, grouped by a and b.
collect-collides_example :
    ((collect two_keys (only (codes "a"))).bytes ≡ (collect two_keys (only (codes "b"))).bytes)
    × ((collect two_keys (only (codes "a"))).values ≢ (collect two_keys (only (codes "b"))).values)
collect-collides_example =
    collect-collides (codes "a") (codes "b") (codes "x") (only (codes "a")) (only (codes "b"))
      (λ e. cc) first_in_first second_in_first first_in_second second_in_second

insert_bucket-Placed_example :
    (b' : Bucket Exact) × (gs' : GroupSize Exact) × (insert_bucket grouped_bucket
        grouped_estimator.group_size 33 9 by_job
      ≡ some (b', gs'))
    × Placed exact_laws grouped_bucket grouped_estimator.group_size 33 9 by_job b' gs'
insert_bucket-Placed_example =
    insert_bucket-Placed exact_laws grouped_bucket grouped_estimator.group_size 0
      grouped_estimator-IsSound.balanced grouped_bucket-IsCounted 33 9 by_job (λ e. cc)

turns-IsIdle_example :
    (e' : Estimator Exact) × (turns 2 0 grouped_estimator ≡ some (e', 0))
    × IsSound e'
    × IsIdle exact_laws e'
turns-IsIdle_example =
    turns-IsIdle exact_laws grouped_estimator grouped_estimator-IsSound (λ none_by. cc)
