-- ===== src/Reload.antt =====
-- Loading a configuration (`loadConfig` of app/vmestimator/config.go) and the state that it changes:
-- the active estimators, the deduplicator, the switch for label fingerprints, the churn entries and
-- the time of the cached metrics. `reflect.DeepEqual` on configurations is a parameter. Stopping
-- the goroutines of removed estimators is left out.
pub mod Matched
pub mod Streams
pub mod Refused
pub mod Again
pub mod Watch
pub mod Prepared
use vmestimator.Base.{
  ℕ, Bool, true, false, ◌||◌, ◌&&◌, Text, nat_eq, list_eq, Option, none, some, List, [], ◌∷◌, Dict,
  lookup, insert, delete, if◌then◌else◌,
}
use vmestimator.Sketch.{Hll}
use vmestimator.Filter.{Parsed}
use vmestimator.Config.{EstimatorConfig, id_of}
use vmestimator.Dedup
use vmestimator.Dedup.{Deduplicator}
use vmestimator.Churn.{ChurnSnapshots, invalidate}
use vmestimator.Estimator.State.{
  Estimator, CreateError, Created, created, refused, panics, new_estimator,
}

pub record System (S : Type 0) : Type 0 where
  pub estimators : List (Estimator S)
  pub dedup : Option Deduplicator
  pub fingerprint_labels : Bool
  pub churn : ChurnSnapshots S
  -- `none` is the zero time.
  pub cached_at : Option ℕ

-- What the loop over the streams leaves.
pub record Plan (S : Type 0) : Type 0 where
  pub es : List (Estimator S)
  pub made : List (Estimator S)
  pub removed : Dict Text (Estimator S)

pub data Planned (S : Type 0) : Type 0 where
  planned : Plan S → Planned S
  failed : CreateError → Planned S
  crashed : Planned S

-- What `loadConfig` returns; on an error the system stays as it was.
pub data Loaded (S : Type 0) : Type 0 where
  unchanged : Loaded S
  rejected : CreateError → Loaded S
  panicked : Loaded S
  swapped : System S → Loaded S

-- The map `removed` before the loop.
unfoldable pub index :
    {S : Type 0} → List (Estimator S) → Dict Text (Estimator S) → Dict Text (Estimator S)
index [] m = m
index (e ∷ es) m = index es (insert e.id e m)

unfoldable pub reset_dedup :
    {S : Type 0} → List (Estimator S) → Option Deduplicator → Option Deduplicator
reset_dedup made none = none
reset_dedup [] (some d) = some d
reset_dedup (e ∷ made) (some d) = some (Dedup.reset d)

unfoldable pub needs_fingerprints : {S : Type 0} → List (Estimator S) → Bool
needs_fingerprints [] = false
needs_fingerprints (e ∷ made) = e.has_label_keyword || needs_fingerprints made

module _ {S : Type 0} where
  -- A stream kept or created, before the plan for the streams behind it.
  abbrev pub with_kept : Estimator S → Planned S → Planned S
  with_kept e (planned p) = planned (record p { es = e ∷ p.es })
  with_kept e (failed why) = failed why
  with_kept e crashed = crashed

  abbrev pub with_made : Estimator S → Planned S → Planned S
  with_made e (planned p) = planned (record p { es = e ∷ p.es; made = e ∷ p.made })
  with_made e (failed why) = failed why
  with_made e crashed = crashed

  abbrev pub made_or : Created S → (Estimator S → Planned S) → Planned S
  made_or (created e) next = next e
  made_or (refused why) next = failed why
  made_or panics next = crashed

  abbrev pub kept_or :
      Option (Estimator S)
      → (Estimator S → Bool)
      → (Estimator S → Planned S)
      → Planned S
      → Planned S
  kept_or none same keep make = make
  kept_or (some e) same keep make = if same e then keep e else make

  -- The swap, with the plan of the loop.
  unfoldable pub swap : System S → Plan S → Loaded S
  unfolding reset_dedup needs_fingerprints
  swap sys p = swapped (record {
    estimators = p.es;
    dedup = reset_dedup p.made sys.dedup;
    fingerprint_labels = needs_fingerprints p.made || sys.fingerprint_labels;
    churn = invalidate p.removed sys.churn;
    cached_at = none;
  })

  abbrev pub apply_lists :
      List (Estimator S) → Dict Text (Estimator S) → System S → Plan S → Loaded S
  apply_lists [] [] sys p = unchanged
  apply_lists (e ∷ made) removed sys p = swap sys p
  apply_lists [] (r ∷ removed) sys p = swap sys p

  unfoldable pub apply_plan : System S → Planned S → Loaded S
  unfolding swap
  apply_plan sys (planned p) = apply_lists p.made p.removed sys p
  apply_plan sys (failed why) = rejected why
  apply_plan sys crashed = panicked

module _ {S : Type 0} ⦃hll : Hll S⦄ (sort : List Text → List Text) (duration_string : ℕ → Text)
    (parse : Text → Parsed) (compile_regexp : Text → Option (Text → Bool)) (available_cpus : ℕ)
    (deep_equal : EstimatorConfig → EstimatorConfig → Bool) where
  abbrev pub make : EstimatorConfig → Created S
  make ec = new_estimator sort duration_string parse compile_regexp available_cpus ec

  -- The loop over the streams.
  unfoldable pub plan_streams : List EstimatorConfig → Dict Text (Estimator S) → Planned S
  plan_streams [] removed = planned (record { es = []; made = []; removed = removed })
  plan_streams (ec ∷ ecs) removed =
      let id = id_of sort duration_string available_cpus ec in
      let made_here = made_or (make ec) λ e. with_made e (plan_streams ecs removed) in
      kept_or (lookup id removed) (λ e. deep_equal e.cfg ec)
        (λ e. with_kept e (plan_streams ecs (delete id removed))) made_here

  unfoldable pub load_config : System S → List EstimatorConfig → Loaded S
  unfolding plan_streams index apply_plan
  load_config sys streams = apply_plan sys (plan_streams streams (index sys.estimators []))
