-- ===== src/Reload/Streams.antt =====
-- `loadConfig` (app/vmestimator/config.go) as a whole.
use vmestimator.Base.{
  ℕ, ◌≡◌, refl, inl, inr, ◌⊎◌, Bool, true, Text, nat_eq, list_eq, Option, none, some, List, [], ◌∷◌,
  Dict, lookup, delete, All, Bool-cases, Option-cases,
}
use vmestimator.Sketch.{Hll, HllLaws}
use vmestimator.Filter.{Parsed}
use vmestimator.Config.{EstimatorConfig, id_of}
use vmestimator.Config.Prepare.{IsNormal}
use vmestimator.Estimator.Bounds.{IsSound}
use vmestimator.Estimator.State.{Estimator, Created, created, refused, panics}
use vmestimator.Dedup
use vmestimator.Dedup.{Deduplicator}
use vmestimator.Reload.{
  reset_dedup, System, Planned, planned, failed, crashed, Loaded, unchanged, rejected, panicked,
  swapped, index, with_kept, with_made, made_or, make, plan_streams, apply_plan, apply_lists, swap,
  load_config,
}
use vmestimator.Reload.Matched.{
  IsFor, Matches, done, pair, IsKeyed, IsKeyed-delete, IsKeyed-index, IsCreated,
  new_estimator-IsCreated,
}

-- A reload resets the deduplicator or leaves it as it was.
abbrev pub Renewed : Option Deduplicator → Option Deduplicator → Type 0
Renewed none new = new ≡ none
Renewed (some d) new = (new ≡ some d) ⊎ (new ≡ some (Dedup.reset d))

reset_dedup-Renewed :
    {S : Type 0} (made : List (Estimator S)) (old : Option Deduplicator)
    → Renewed old (reset_dedup made old)
unfolding reset_dedup
reset_dedup-Renewed made none = refl
reset_dedup-Renewed [] (some d) = inl refl
reset_dedup-Renewed (e ∷ made) (some d) = inr refl

module _ {S : Type 0} ⦃hll : Hll S⦄ (laws : HllLaws hll) (sort : List Text → List Text)
    (duration_string : ℕ → Text) (parse : Text → Parsed)
    (compile_regexp : Text → Option (Text → Bool)) (cpus : ℕ)
    (deep_equal : EstimatorConfig → EstimatorConfig → Bool)
    (deep_equal_sound : (a b : EstimatorConfig) → deep_equal a b ≡ true → a ≡ b) where
  abbrev id : EstimatorConfig → Text
  id ec = id_of sort duration_string cpus ec

  abbrev pub IsPlan : List EstimatorConfig → Planned S → Type 0
  IsPlan ecs (planned p) = Matches sort duration_string cpus p.es ecs
  IsPlan ecs (failed why) = Unit {0}
  IsPlan ecs crashed = ⊥

  with_kept-IsPlan :
      (e : Estimator S) (ec : EstimatorConfig) (ecs : List EstimatorConfig) (rest : Planned S)
      → IsFor sort duration_string cpus e ec
      → IsPlan ecs rest
      → IsPlan (ec ∷ ecs) (with_kept e rest)
  with_kept-IsPlan e ec ecs (planned p) own h = pair own h
  with_kept-IsPlan e ec ecs (failed why) own h = tt
  with_kept-IsPlan e ec ecs crashed own h = elim h [ ]

  made_or-IsPlan :
      (r : Created S) (ec : EstimatorConfig) (ecs : List EstimatorConfig) (rest : Planned S)
      → IsCreated sort duration_string cpus parse compile_regexp ec r
      → IsPlan ecs rest
      → IsPlan (ec ∷ ecs) (made_or r λ e. with_made e rest)
  made_or-IsPlan (created e) ec ecs (planned p) own h = pair own h
  made_or-IsPlan (created e) ec ecs (failed why) own h = tt
  made_or-IsPlan (refused why) ec ecs rest own h = tt
  made_or-IsPlan (created e) ec ecs crashed own h = elim h [ ]
  made_or-IsPlan panics ec ecs rest own h = elim own [ ]

  pub plan_streams-IsPlan :
      (ecs : List EstimatorConfig) (m : Dict Text (Estimator S))
      → All IsNormal ecs
      → IsKeyed sort duration_string cpus m
      → IsPlan ecs (plan_streams sort duration_string parse compile_regexp cpus deep_equal ecs m)
  unfolding plan_streams
  plan_streams-IsPlan [] m n h = done
  plan_streams-IsPlan (ec ∷ ecs) m n h =
      let fresh =
        made_or-IsPlan (make sort duration_string parse compile_regexp cpus deep_equal ec) ec ecs _
          (new_estimator-IsCreated sort duration_string cpus parse compile_regexp ec laws n.0)
          (plan_streams-IsPlan ecs m n.1 h) in
      elim (Option-cases (lookup (id ec) m)) [
        | inl missing ↦ rw missing fresh
        | inr (e, found) ↦ elim (Bool-cases (deep_equal e.cfg ec)) [
          | inl same ↦
              let it = h (id ec) e found in
              rw (found, same)
                (with_kept-IsPlan e ec ecs _
                  (record {
                    own = record { id = it.0; cfg = deep_equal_sound e.cfg ec same };
                    sound = it.1;
                  })
                  (plan_streams-IsPlan ecs (delete (id ec) m) n.1
                    (IsKeyed-delete sort duration_string cpus (id ec) m h)))
          | inr changed ↦ rw (found, changed) fresh
        ]
      ]

  abbrev pub IsLoaded : System S → List EstimatorConfig → Loaded S → Type 0
  IsLoaded sys streams unchanged = Unit {0}
  IsLoaded sys streams (rejected why) = Unit {0}
  IsLoaded sys streams panicked = ⊥
  IsLoaded sys streams (swapped sys') =
      Matches sort duration_string cpus sys'.estimators streams × Renewed sys.dedup sys'.dedup

  apply_plan-IsLoaded :
      (sys : System S) (streams : List EstimatorConfig) (pl : Planned S)
      → IsPlan streams pl
      → IsLoaded sys streams (apply_plan sys pl)
  unfolding apply_plan swap
  apply_plan-IsLoaded sys streams (planned p) h = by_lists p.made p.removed
    where
      by_lists :
          (made : List (Estimator S)) (removed : Dict Text (Estimator S))
          → IsLoaded sys streams (apply_lists made removed sys p)
      by_lists [] [] = tt
      by_lists (e ∷ made) removed = (h, reset_dedup-Renewed p.made sys.dedup)
      by_lists [] (r ∷ removed) = (h, reset_dedup-Renewed p.made sys.dedup)
  apply_plan-IsLoaded sys streams (failed why) h = tt
  apply_plan-IsLoaded sys streams crashed h = h

  -- On streams that `prepare` accepted and sound active estimators, `loadConfig` does not panic:
  -- it reports no change, refuses, or stores one sound estimator for each stream, in their order,
  -- with the stream's id and configuration; the deduplicator, if any, is then reset or left as it
  -- was.
  pub load_config-IsLoaded :
      (sys : System S) (streams : List EstimatorConfig)
      → All IsNormal streams
      → All IsSound sys.estimators
      → IsLoaded sys streams
          (load_config sort duration_string parse compile_regexp cpus deep_equal sys streams)
  unfolding load_config lookup
  load_config-IsLoaded sys streams n ok = apply_plan-IsLoaded sys streams _ (
      plan_streams-IsPlan streams (index sys.estimators []) n
        (IsKeyed-index sort duration_string cpus sys.estimators [] ok (λ k e found. cc)))
