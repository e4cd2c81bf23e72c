-- ===== src/Reload/Again.antt =====
-- A second load of a configuration (`loadConfig` of app/vmestimator/config.go).
use mathlib.Core.Path.{subst}
use vmestimator.Base.{
  All-map, ℕ, ◌≡◌, refl, inl, inr, Bool, true, false, Text, ◌==◌, nat_eq, list_eq, Option, none,
  some, List, [], ◌∷◌, map, Dict, lookup, insert, delete, All, Bool-cases, lookup-delete,
  lookup-insert, ==_sound, ==_refl,
}
use vmestimator.Sketch.{Hll, HllLaws}
use vmestimator.Filter.{Parsed}
use vmestimator.Config.{EstimatorConfig, id_of}
use vmestimator.Config.Prepare.{IsNormal, AllDistinct}
use vmestimator.Estimator.Bounds.{IsSound}
use vmestimator.Estimator.State.{Estimator}
use vmestimator.Reload.{
  System, planned, unchanged, swapped, index, plan_streams, apply_plan, load_config,
}
use vmestimator.Reload.Streams.{IsLoaded, load_config-IsLoaded}
use vmestimator.Reload.Matched.{Matches, done, pair}

-- The comparison of ids goes both ways.
==_comm : (a b : Text) → (a == b) ≡ false → (b == a) ≡ false
==_comm a b h = elim (Bool-cases (b == a)) [
  | inl same ↦ cc (rw (==_sound b a same, ==_refl a) at h)
  | inr other ↦ other
]

away_comm :
    (k : Text) (ids : List Text) → All (λ i. (k == i) ≡ false) ids → All (λ i. (i == k) ≡ false) ids
away_comm k ids away = All-map (λ i other. ==_comm k i other) ids away

module _ {S : Type 0} where
  -- Each estimator stands in the map at its id.
  abbrev Finds : Dict Text (Estimator S) → List (Estimator S) → Type 0
  Finds m es = All (λ (e : Estimator S). lookup e.id m ≡ some e) es

  -- The map has no id but those.
  abbrev Covers : List Text → Dict Text (Estimator S) → Type 0
  Covers ids m = (k : Text) → All (λ i. (i == k) ≡ false) ids → lookup k m ≡ none

  Covers-nil : (m : Dict Text (Estimator S)) → Covers [] m → m ≡ []
  unfolding lookup
  Covers-nil [] h = refl
  Covers-nil ((k, e) ∷ m) h = let it = h k tt in cc (rw (==_refl k) at it)

  Covers-delete :
      (id : Text) (ids : List Text) (m : Dict Text (Estimator S))
      → Covers (id ∷ ids) m
      → Covers ids (delete id m)
  Covers-delete id ids m h k away = elim (Bool-cases (id == k)) [
    | inl same ↦ rw (lookup-delete id k m, same) refl
    | inr other ↦ rw (lookup-delete id k m, other) (h k (other, away))
  ]

  Finds-delete :
      (id : Text) (m : Dict Text (Estimator S)) (es : List (Estimator S))
      → All (λ i. (id == i) ≡ false) (map (λ (e : Estimator S). e.id) es)
      → Finds m es
      → Finds (delete id m) es
  Finds-delete id m [] away h = tt
  Finds-delete id m (e ∷ es) away h =
      (rw (lookup-delete id e.id m, away.0) h.0, Finds-delete id m es away.1 h.1)

  lookup-index :
      (es : List (Estimator S)) (m : Dict Text (Estimator S)) (k : Text)
      → All (λ i. (i == k) ≡ false) (map (λ (e : Estimator S). e.id) es)
      → lookup k (index es m) ≡ lookup k m
  unfolding index
  lookup-index [] m k away = refl
  lookup-index (e ∷ es) m k away =
      rw (lookup-index es (insert e.id e m) k away.1, lookup-insert e.id k e m, away.0) refl

  Finds-index :
      (es : List (Estimator S)) (m : Dict Text (Estimator S))
      → AllDistinct (map (λ (e : Estimator S). e.id) es)
      → Finds (index es m) es
  unfolding index
  Finds-index [] m d = tt
  Finds-index (e ∷ es) m d = (
    rw
        (
          lookup-index es (insert e.id e m) e.id (away_comm e.id _ d.0),
          lookup-insert e.id e.id e m,
          ==_refl e.id,
        )
        refl,
    Finds-index es (insert e.id e m) d.1,
  )

  Covers-index :
      (es : List (Estimator S)) → Covers (map (λ (e : Estimator S). e.id) es) (index es [])
  unfolding lookup
  Covers-index es k away = lookup-index es [] k away

module _ {S : Type 0} ⦃hll : Hll S⦄ (sort : List Text → List Text) (duration_string : ℕ → Text)
    (parse : Text → Parsed) (compile_regexp : Text → Option (Text → Bool)) (cpus : ℕ)
    (deep_equal : EstimatorConfig → EstimatorConfig → Bool)
    (same : (c : EstimatorConfig) → deep_equal c c ≡ true) where
  Matches-ids :
      (es : List (Estimator S)) (ecs : List EstimatorConfig)
      → Matches sort duration_string cpus es ecs
      → map (λ (e : Estimator S). e.id) es ≡ map (id_of sort duration_string cpus) ecs
  Matches-ids [] [] done = refl
  Matches-ids [] (ec ∷ ecs) h = elim h [ ]
  Matches-ids (e ∷ es) [] h = elim h [ ]
  Matches-ids (e ∷ es) (ec ∷ ecs) (pair own more) = rw (own.own.id, Matches-ids es ecs more) refl

  -- With every stream in the map, the loop keeps them all.
  plan_streams-kept :
      (es : List (Estimator S)) (ecs : List EstimatorConfig) (m : Dict Text (Estimator S))
      → Matches sort duration_string cpus es ecs
      → AllDistinct (map (λ (e : Estimator S). e.id) es)
      → Finds m es
      → Covers (map (λ (e : Estimator S). e.id) es) m
      → plan_streams sort duration_string parse compile_regexp cpus deep_equal ecs m
        ≡ planned (record { es = es; made = []; removed = [] })
  unfolding plan_streams
  plan_streams-kept [] [] m done d f c = rw (Covers-nil m c) refl
  plan_streams-kept [] (ec ∷ ecs) m h d f c = elim h [ ]
  plan_streams-kept (e ∷ es) [] m h d f c = elim h [ ]
  plan_streams-kept (e ∷ es) (ec ∷ ecs) m (pair own more) d f c =
      let rest =
        plan_streams-kept es ecs (delete e.id m) more d.1 (Finds-delete e.id m es d.0 f.1)
          (Covers-delete e.id _ m c) in
      rw (← own.own.id, f.0, own.own.cfg, same, rest) refl

  -- When every stream has its active estimator, `loadConfig` reports no change.
  load_config_again :
      (sys : System S) (streams : List EstimatorConfig)
      → Matches sort duration_string cpus sys.estimators streams
      → AllDistinct (map (id_of sort duration_string cpus) streams)
      → load_config sort duration_string parse compile_regexp cpus deep_equal sys streams
        ≡ unchanged
  unfolding load_config apply_plan
  load_config_again sys streams h distinct =
      let d = rw (← Matches-ids sys.estimators streams h) at distinct in
      rw
        (plan_streams-kept sys.estimators streams (index sys.estimators []) h d
          (Finds-index sys.estimators [] d) (Covers-index sys.estimators))
        refl

  -- Once `loadConfig` has stored the estimators of a configuration that `prepare` accepted, with
  -- the streams of distinct ids, loading the same configuration again reports no change: no
  -- estimator is created or removed, so none loses its state. The active estimators were sound,
  -- and `reflect.DeepEqual` holds of equal configurations only, and of each with itself.
  pub load_config_twice :
      (laws : HllLaws hll)
      → (sound : (a b : EstimatorConfig) → deep_equal a b ≡ true → a ≡ b)
      → (sys sys' : System S) (streams : List EstimatorConfig) → All IsNormal streams
      → AllDistinct (map (id_of sort duration_string cpus) streams)
      → All IsSound sys.estimators
      → load_config sort duration_string parse compile_regexp cpus deep_equal sys streams
        ≡ swapped sys'
      → load_config sort duration_string parse compile_regexp cpus deep_equal sys' streams
        ≡ unchanged
  load_config_twice laws sound sys sys' streams n distinct ok first =
      load_config_again sys' streams
        ((subst
          (IsLoaded laws sort duration_string parse compile_regexp cpus deep_equal sound sys
            streams)
          first
          (load_config-IsLoaded laws sort duration_string parse compile_regexp cpus deep_equal sound
            sys streams n ok)).0)
        distinct
