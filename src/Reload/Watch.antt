-- ===== src/Reload/Watch.antt =====
-- Reading the configuration file and the reloader (`readConfig` and `startConfigReloader` of
-- app/vmestimator/config.go). The file system and the decoding of YAML are parameters, and so are the
-- decoder's results; one round of the reloader's loop is a step. `none` is a panic.
use mathlib.Core.Path.{subst}
use vmestimator.Base.{
  ℕ, ◌+◌, ◌≡◌, refl, ap, ◌∙◌, inl, inr, Bool, true, false, Text, ◌==◌, ==_refl, ==_sound, nat_eq,
  list_eq, Option, none, some, List, [], if◌then◌else◌, Bool-cases, some_inj,
}
use vmestimator.Config
use vmestimator.Config.{EstimatorConfig, PrepareError, Prepared, prepare}
use vmestimator.Estimator.State.{CreateError}
use vmestimator.Reload.{System, Loaded, unchanged, rejected, panicked, swapped}

-- `Config`.
pub record Settings : Type 0 where
  pub streams : List EstimatorConfig
  pub hash : ℕ

pub data ReadError : Type 0 where
  no_path unreadable not_yaml : ReadError
  not_prepared : PrepareError → ReadError

pub data Read : Type 0 where
  got : Settings → Read
  bad : ReadError → Read

-- What the loop changes: the system, the settings that are active, and the metrics of the reloader.
pub record Watcher (S : Type 0) : Type 0 where
  pub system : System S
  pub hash : ℕ
  pub is_success : Bool
  pub reloads : ℕ
  pub reload_errors : ℕ

module _ (sort : List Text → List Text) (duration_string : ℕ → Text) (available_cpus : ℕ)
    (sum64 : Text → ℕ) (read_file : Text → Option Text)
    (unmarshal_strict : Text → Option (List EstimatorConfig)) where
  abbrev pub prepared_as : Text → Prepared (List EstimatorConfig) → Read
  prepared_as content (Config.ok streams) = got (record { streams = streams; hash = sum64 content })
  prepared_as content (Config.err why) = bad (not_prepared why)

  abbrev pub decoded : Text → Option (List EstimatorConfig) → Read
  decoded content none = bad not_yaml
  decoded content (some streams) =
      prepared_as content (prepare sort duration_string available_cpus streams)

  abbrev pub opened : Option Text → Read
  opened none = bad unreadable
  opened (some content) = decoded content (unmarshal_strict content)

  -- An empty configuration for a program that only asks other nodes.
  unfoldable pub read_config : Bool → Text → Read
  read_config has_nodes path =
      if path == []
      then (if has_nodes then got (record { streams = []; hash = 0 }) else bad no_path)
      else opened (read_file path)

module _ {S : Type 0} where
  abbrev pub failed_round : Watcher S → Watcher S
  failed_round w = record w { reload_errors = w.reload_errors + 1; is_success = false }

  abbrev pub after_load : Watcher S → ℕ → Loaded S → Option (Watcher S)
  after_load w hash unchanged = some (record w { hash = hash; is_success = true })
  after_load w hash (rejected why) = some (failed_round w)
  after_load w hash panicked = none
  after_load w hash (swapped sys) =
      some (record w { system = sys; hash = hash; is_success = true; reloads = w.reloads + 1 })

  module _ (load : System S → List EstimatorConfig → Loaded S) where
    -- A round of the loop, with what the file gave.
    unfoldable pub reload_round : Read → Watcher S → Option (Watcher S)
    reload_round (bad why) w = some (failed_round w)
    reload_round (got settings) w =
        if settings.hash == w.hash
        then some (record w { is_success = true })
        else after_load w settings.hash (load w.system settings.streams)

    -- What stays as it is when nothing is loaded.
    pub record IsQuiet (w w' : Watcher S) : Type 0 where
      pub system : w'.system ≡ w.system
      pub hash : w'.hash ≡ w.hash
      pub reloads : w'.reloads ≡ w.reloads

    -- A round that loads nothing, after `w`.
    abbrev pub Rests : Read → Watcher S → Type 0
    Rests file w = (w' : Watcher S) × (reload_round file w ≡ some w') × IsQuiet w w'

    same_hash :
        (settings : Settings) (w : Watcher S) → settings.hash ≡ w.hash → Rests (got settings) w
    unfolding reload_round
    same_hash settings w e = (
      record w { is_success = true },
      rw (e, ==_refl w.hash) refl,
      record { system = refl; hash = refl; reloads = refl },
    )

    rejected_again :
        (settings : Settings) (w : Watcher S) (why : CreateError)
        → (settings.hash == w.hash) ≡ false
        → load w.system settings.streams ≡ rejected why
        → Rests (got settings) (failed_round w)
    unfolding reload_round
    rejected_again settings w why differ gave = (
      failed_round (failed_round w),
      rw (differ, gave) refl,
      record { system = refl; hash = refl; reloads = refl },
    )

    -- After a load of a file that differs, a round on the same file.
    loaded_then :
        (settings : Settings) (w w' : Watcher S) (r : Loaded S)
        → (settings.hash == w.hash) ≡ false
        → load w.system settings.streams ≡ r
        → after_load w settings.hash r ≡ some w'
        → Rests (got settings) w'
    loaded_then settings w w' unchanged differ gave e =
        same_hash settings w' (ap (λ (x : Watcher S). x.hash) (some_inj e))
    loaded_then settings w w' (rejected why) differ gave e =
        subst (Rests (got settings)) (some_inj e) (rejected_again settings w why differ gave)
    loaded_then settings w w' panicked differ gave e = cc
    loaded_then settings w w' (swapped sys) differ gave e =
        same_hash settings w' (ap (λ (x : Watcher S). x.hash) (some_inj e))

    -- Whatever a round of the reloader has done with a file, readable or not, another round on the
    -- same file loads nothing: it does not panic, and leaves the system, the active configuration
    -- and the number of reloads as they are.
    pub reload_round_twice :
        (file : Read) (w w' : Watcher S) → reload_round file w ≡ some w' → Rests file w'
    unfolding reload_round
    reload_round_twice (bad why) w w' e =
        (failed_round w', refl, record { system = refl; hash = refl; reloads = refl })
    reload_round_twice (got settings) w w' e = elim (Bool-cases (settings.hash == w.hash)) [
      | inl same ↦ same_hash settings w' (
          ==_sound settings.hash w.hash same
          ∙ ap (λ (x : Watcher S). x.hash) (some_inj (rw same at e)))
      | inr differ ↦
          loaded_then settings w w' (load w.system settings.streams) differ refl (rw differ at e)
    ]
