-- ===== src/Reload/Matched.antt =====
-- The plan of `loadConfig` (app/vmestimator/config.go): which estimator stands for which stream.
use mathlib.Core.Path.{subst}
use vmestimator.Base.{
  ℕ, suc, ◌≡◌, refl, sym, ap, inl, inr, Bool, true, false, Text, ◌==◌, nat_eq, list_eq, ltb, length,
  Option, none, some, ◌>>=◌, List, [], ◌∷◌, Dict, lookup, insert, delete, All, if◌then◌else◌,
  Bool-cases, some_inj, lookup-delete, lookup-insert, ==_sound,
}
use vmestimator.Sketch.{Hll, HllLaws}
use vmestimator.Filter
use vmestimator.Filter.{Parsed, CompiledFilter, compile_filters}
use vmestimator.Config.{EstimatorConfig, id_of, estimator_id}
use vmestimator.Config.Prepare.{IsNormal}
use vmestimator.Estimator.Bucket.{Bucket}
use vmestimator.Estimator.State.{
  Estimator, Created, created, refused, panics, new_estimator, create, build, or_panic,
  too_many_keys, reserved_key, bad_filter, has_reserved_key, misplaced_keyword,
}
use vmestimator.Estimator.Bounds.{IsSound}
use vmestimator.Estimator.New.{apply_defaults-IsNormal, new_estimator-Makes, Makes}
use vmestimator.Reload.{index}

module _ {S : Type 0} ⦃hll : Hll S⦄ (sort : List Text → List Text) (duration_string : ℕ → Text)
    (cpus : ℕ) where
  -- The estimator is the stream's: its id, made from its configuration.
  pub record IsOf (e : Estimator S) (ec : EstimatorConfig) : Type 0 where
    pub id : e.id ≡ id_of sort duration_string cpus ec
    pub cfg : e.cfg ≡ ec

  -- It is sound, too.
  pub record IsFor (e : Estimator S) (ec : EstimatorConfig) : Type 0 where
    pub own : IsOf e ec
    pub sound : IsSound e

  -- One estimator for each stream, in their order.
  pub data Matches : List (Estimator S) → List EstimatorConfig → Type 0 where
    done : Matches [] []
    pair :
        {e : Estimator S} {ec : EstimatorConfig} {es : List (Estimator S)}
        {ecs : List EstimatorConfig}
        → IsFor e ec
        → Matches es ecs
        → Matches (e ∷ es) (ec ∷ ecs)

  pub Matches-IsSound :
      (es : List (Estimator S)) (ecs : List EstimatorConfig)
      → Matches es ecs
      → All IsSound es × (length es ≡ length ecs)
  Matches-IsSound [] [] done = (tt, refl)
  Matches-IsSound [] (ec ∷ ecs) h = elim h [ ]
  Matches-IsSound (e ∷ es) [] h = elim h [ ]
  Matches-IsSound (e ∷ es) (ec ∷ ecs) (pair own more) =
      let rest = Matches-IsSound es ecs more in ((own.sound, rest.0), ap suc rest.1)

  -- Every entry is sound and stands at the id of its estimator.
  abbrev pub IsKeyed : Dict Text (Estimator S) → Type 0
  IsKeyed m = (k : Text) (e : Estimator S) → lookup k m ≡ some e → (e.id ≡ k) × IsSound e

  pub IsKeyed-delete : (id : Text) (m : Dict Text (Estimator S)) → IsKeyed m → IsKeyed (delete id m)
  IsKeyed-delete id m h k e found = elim (Bool-cases (id == k)) [
    | inl same ↦ cc (rw (lookup-delete id k m, same) at found)
    | inr other ↦ h k e (rw (lookup-delete id k m, other) at found)
  ]

  IsKeyed-insert :
      (e : Estimator S) (m : Dict Text (Estimator S))
      → IsSound e
      → IsKeyed m
      → IsKeyed (insert e.id e m)
  IsKeyed-insert e m ok h k x found = elim (Bool-cases (e.id == k)) [
    | inl same ↦
        let it : e ≡ x = some_inj (rw (lookup-insert e.id k e m, same) at found) in
        subst (λ (y : Estimator S). (y.id ≡ k) × IsSound y) it (==_sound e.id k same, ok)
    | inr other ↦ h k x (rw (lookup-insert e.id k e m, other) at found)
  ]

  pub IsKeyed-index :
      (es : List (Estimator S)) (m : Dict Text (Estimator S))
      → All IsSound es
      → IsKeyed m
      → IsKeyed (index es m)
  unfolding index
  IsKeyed-index [] m ok h = h
  IsKeyed-index (e ∷ es) m ok h =
      IsKeyed-index es (insert e.id e m) ok.1 (IsKeyed-insert e m ok.0 h)

  module _ (parse : Text → Parsed) (compile_regexp : Text → Option (Text → Bool))
      (cfg : EstimatorConfig) where
    -- Whatever is created is the configuration's.
    abbrev Creates : Created S → Type 0
    Creates r = (e : Estimator S) → r ≡ created e → IsOf e cfg

    created_inj : {a b : Estimator S} → created a ≡ created b → a ≡ b
    created_inj p = cc

    built-Creates :
        (m : Option (List (Bucket S))) (f : List (Bucket S) → Estimator S)
        → ((bs : List (Bucket S)) → IsOf (f bs) cfg)
        → Creates (or_panic (m >>= λ bs. some (f bs)))
    built-Creates none f h e r = cc
    built-Creates (some bs) f h e r = subst (λ x. IsOf x cfg) (created_inj r) (h bs)

    if-Creates : (b : Bool) (x y : Created S) → Creates x → Creates y → Creates (if b then x else y)
    if-Creates true x y h g = h
    if-Creates false x y h g = g

    filtered-Creates :
        (r : Filter.Compiled)
        → Creates (elim r [
          | Filter.err e ↦ refused (bad_filter e)
          | Filter.ok cf ↦
              if misplaced_keyword cfg.group_by
              then panics
              else or_panic (
                  build
                    (estimator_id sort duration_string cfg.labels cfg.group_by cfg.interval
                      cfg.filter)
                    cfg
                    cf)
        ])
    unfolding build id_of
    filtered-Creates (Filter.err why) = λ e r. cc
    filtered-Creates (Filter.ok cf) =
        if-Creates (misplaced_keyword cfg.group_by) panics _ (λ e r. cc)
          (built-Creates _ _ (λ bs. record { id = refl; cfg = refl }))

    create-Creates : Creates (create sort duration_string parse compile_regexp cfg)
    unfolding create
    create-Creates =
        if-Creates (ltb 5 (length cfg.group_by)) (refused too_many_keys) _ (λ e r. cc)
          (if-Creates (has_reserved_key cfg.group_by) (refused reserved_key) _ (λ e r. cc)
            (filtered-Creates (compile_filters compile_regexp parse cfg.filter)))

    pub new_estimator-Creates :
        IsNormal cfg → Creates (new_estimator sort duration_string parse compile_regexp cpus cfg)
    unfolding new_estimator
    new_estimator-Creates n =
        subst Creates
          (sym (
            ap (λ (c : EstimatorConfig). create {S = S} sort duration_string parse compile_regexp c)
              (apply_defaults-IsNormal cpus cfg n)))
          create-Creates

    -- A sound estimator of the configuration, or a refusal.
    abbrev pub IsCreated : Created S → Type 0
    IsCreated (created e) = IsFor e cfg
    IsCreated (refused why) = Unit {0}
    IsCreated panics = ⊥

    Makes-IsCreated :
        (laws : HllLaws hll) (n : IsNormal cfg) (r : Created S)
        → new_estimator sort duration_string parse compile_regexp cpus cfg ≡ r
        → Makes laws cfg n sort duration_string parse compile_regexp r
        → IsCreated r
    Makes-IsCreated laws n (created x) e h = record {
      own = new_estimator-Creates n x e;
      sound = h.0.sound;
    }
    Makes-IsCreated laws n (refused why) e h = tt
    Makes-IsCreated laws n panics e h = h

    pub new_estimator-IsCreated :
        (laws : HllLaws hll)
        → IsNormal cfg
        → IsCreated (new_estimator sort duration_string parse compile_regexp cpus cfg)
    new_estimator-IsCreated laws n =
        Makes-IsCreated laws n _ refl
          (new_estimator-Makes laws cfg n sort duration_string parse compile_regexp cpus)
