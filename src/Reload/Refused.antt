-- ===== src/Reload/Refused.antt =====
-- Why `loadConfig` (app/vmestimator/config.go) rejects a configuration.
use mathlib.Core.Path.{subst}
use vmestimator.Base.{
  ℕ, zero, suc, ◌≡◌, refl, inl, inr, Bool, Text, Option, some, List, [], ◌∷◌, get_elem?, Dict,
  lookup, delete, All, Bool-cases, Option-cases, nat_eq, list_eq,
}
use vmestimator.Sketch.{Hll, HllLaws}
use vmestimator.Filter.{Parsed}
use vmestimator.Config.{EstimatorConfig, id_of}
use vmestimator.Config.Prepare.{IsNormal}
use vmestimator.Estimator.Refusals.{Refuses}
use vmestimator.Estimator.New.{Makes, new_estimator-Makes}
use vmestimator.Estimator.State.{Estimator, CreateError, Created, created, refused, panics}
use vmestimator.Reload.{
  System, Loaded, rejected, load_config, plan_streams, apply_plan, apply_lists, swap, make, Planned,
  planned, failed, crashed, with_made, with_kept, made_or, index,
}

failed_inj : {S : Type 0} {a b : CreateError} → ◌≡◌ {A = Planned S} (failed a) (failed b) → a ≡ b
failed_inj e = cc

rejected_inj :
    {S : Type 0} {a b : CreateError} → ◌≡◌ {A = Loaded S} (rejected a) (rejected b) → a ≡ b
rejected_inj e = cc

module _ {S : Type 0} ⦃hll : Hll S⦄ (laws : HllLaws hll) (sort : List Text → List Text)
    (duration_string : ℕ → Text) (parse : Text → Parsed)
    (compile_regexp : Text → Option (Text → Bool)) (cpus : ℕ)
    (deep_equal : EstimatorConfig → EstimatorConfig → Bool) where
  -- One of the streams is refused, and why.
  abbrev pub IsRefused : List EstimatorConfig → CreateError → Type 0
  IsRefused streams why =
      (i : ℕ) × (ec : EstimatorConfig) × (get_elem? streams i ≡ some ec)
      × Refuses parse compile_regexp ec why

  abbrev plan : List EstimatorConfig → Dict Text (Estimator S) → Planned S
  plan = plan_streams sort duration_string parse compile_regexp cpus deep_equal

  -- From the streams behind to all of them.
  abbrev FailsBy : Planned S → List EstimatorConfig → Type 0
  FailsBy p streams = (why : CreateError) → p ≡ failed why → IsRefused streams why

  FailsBy-made :
      (e : Estimator S) (p : Planned S) (ec : EstimatorConfig) (ecs : List EstimatorConfig)
      → FailsBy p ecs
      → FailsBy (with_made e p) (ec ∷ ecs)
  FailsBy-made e (planned p) ec ecs h why same = cc
  FailsBy-made e (failed it) ec ecs h why same =
      let (i, x, at, bad) = h why same in (suc i, x, at, bad)
  FailsBy-made e crashed ec ecs h why same = cc

  FailsBy-kept :
      (e : Estimator S) (p : Planned S) (ec : EstimatorConfig) (ecs : List EstimatorConfig)
      → FailsBy p ecs
      → FailsBy (with_kept e p) (ec ∷ ecs)
  FailsBy-kept e (planned p) ec ecs h why same = cc
  FailsBy-kept e (failed it) ec ecs h why same =
      let (i, x, at, bad) = h why same in (suc i, x, at, bad)
  FailsBy-kept e crashed ec ecs h why same = cc

  FailsBy-made_or :
      (c : Created S) (p : Planned S) (ec : EstimatorConfig) (ecs : List EstimatorConfig)
      (n : IsNormal ec)
      → Makes laws ec n sort duration_string parse compile_regexp c
      → FailsBy p ecs
      → FailsBy (made_or c (λ e. with_made e p)) (ec ∷ ecs)
  FailsBy-made_or (created e) p ec ecs n m h = FailsBy-made e p ec ecs h
  FailsBy-made_or (refused it) p ec ecs n m h =
      λ why same. (zero, ec, refl, subst (Refuses parse compile_regexp ec) (failed_inj same) m)
  FailsBy-made_or panics p ec ecs n m h = absurd m

  plan-FailsBy :
      (streams : List EstimatorConfig) (m : Dict Text (Estimator S))
      → All IsNormal streams
      → FailsBy (plan streams m) streams
  unfolding plan_streams
  plan-FailsBy [] m ok = λ why e. cc
  plan-FailsBy (ec ∷ ecs) m ok =
      let id = id_of sort duration_string cpus ec in
      let here =
        FailsBy-made_or (make sort duration_string parse compile_regexp cpus deep_equal ec)
          (plan ecs m) ec ecs ok.0
          (new_estimator-Makes laws ec ok.0 sort duration_string parse compile_regexp cpus)
          (plan-FailsBy ecs m ok.1) in
      elim (Option-cases (lookup id m)) [
        | inl absent ↦ rw absent here
        | inr (e, there) ↦ elim (Bool-cases (deep_equal e.cfg ec)) [
          | inl same ↦
              rw (there, same)
                (FailsBy-kept e (plan ecs (delete id m)) ec ecs
                  (plan-FailsBy ecs (delete id m) ok.1))
          | inr other ↦ rw (there, other) here
        ]
      ]

  apply_plan-rejected :
      (sys : System S) (streams : List EstimatorConfig) (p : Planned S) (why : CreateError)
      → FailsBy p streams
      → apply_plan sys p ≡ rejected why
      → IsRefused streams why
  unfolding apply_plan swap
  apply_plan-rejected sys streams (planned p) why h e = by_lists p.made p.removed e
    where
      by_lists :
          (made : List (Estimator S)) (removed : Dict Text (Estimator S))
          → apply_lists made removed sys p ≡ rejected why
          → IsRefused streams why
      by_lists [] [] x = cc
      by_lists (e ∷ made) removed x = cc
      by_lists [] (r ∷ removed) x = cc
  apply_plan-rejected sys streams (failed it) why h e =
      subst (IsRefused streams) (rejected_inj e) (h it refl)
  apply_plan-rejected sys streams crashed why h e = cc

  -- A rejected configuration has a stream that is refused for that reason.
  pub load_config-IsRefused :
      (sys : System S) (streams : List EstimatorConfig) (why : CreateError)
      → All IsNormal streams
      → load_config sort duration_string parse compile_regexp cpus deep_equal sys streams
        ≡ rejected why
      → IsRefused streams why
  unfolding load_config
  load_config-IsRefused sys streams why n e =
      apply_plan-rejected sys streams _ why (plan-FailsBy streams (index sys.estimators []) n) e
