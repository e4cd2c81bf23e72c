-- ===== src/Server/Startup.antt =====
-- The start of the program (`main` of app/vmestimator/main.go, up to the HTTP server): the checks of the
-- deduplicator's flags, the configuration file and the first load. Sizes and the interval are not
-- negative; the size is what `resolveDeduplicatorMaxSize` returns. The file system and the decoding of
-- YAML are parameters. `panics` is a panic, `fatal` an exit with a message.
use vmestimator.Base.{ℕ, true, false, ltb, leb, Option, none, some, List, [], if◌then◌else◌}
use vmestimator.Dedup.{Deduplicator, new_deduplicator, min_max_size, min_interval}
use vmestimator.Config.{EstimatorConfig}
use vmestimator.Estimator.State.{CreateError}
use vmestimator.Reload.{System, Loaded, unchanged, rejected, panicked, swapped}
use vmestimator.Reload.Watch.{Read, got, bad, ReadError, Watcher}

pub data StopReason : Type 0 where
  small_size short_interval : StopReason
  not_read : ReadError → StopReason
  not_loaded : CreateError → StopReason

pub data Started (S : Type 0) : Type 0 where
  running : Watcher S → Started S
  fatal : StopReason → Started S
  panics : Started S

module _ {S : Type 0} where
  -- `dedup` is nil when the interval is 0.
  abbrev pub made_dedup : Option Deduplicator → (Option Deduplicator → Started S) → Started S
  made_dedup none next = panics
  made_dedup (some d) next = next (some d)

  unfoldable pub with_dedup : ℕ → ℕ → (Option Deduplicator → Started S) → Started S
  with_dedup interval max_size next =
      if ltb 0 interval
      then (if leb max_size min_max_size
          then fatal small_size
          else if ltb interval min_interval
          then fatal short_interval
          else made_dedup (new_deduplicator max_size interval) next)
      else next none

  -- Before the first load.
  abbrev pub blank_system : Option Deduplicator → System S
  blank_system dedup = record {
    estimators = [];
    dedup = dedup;
    fingerprint_labels = false;
    churn = [];
    cached_at = none;
  }

  -- The system with which the server and the reloader start.
  abbrev pub first : ℕ → System S → Started S
  first hash sys =
      running
        (record { system = sys; hash = hash; is_success = true; reloads = 0; reload_errors = 0 })

  abbrev pub after_first : Option Deduplicator → ℕ → Loaded S → Started S
  after_first dedup hash unchanged = first hash (blank_system dedup)
  after_first dedup hash (rejected why) = fatal (not_loaded why)
  after_first dedup hash panicked = panics
  after_first dedup hash (swapped sys) = first hash sys

  module _ (load : System S → List EstimatorConfig → Loaded S) where
    abbrev pub loaded_first : Option Deduplicator → Read → Started S
    loaded_first dedup (bad why) = fatal (not_read why)
    loaded_first dedup (got settings) =
        after_first dedup settings.hash (load (blank_system dedup) settings.streams)

    unfoldable pub start_up : ℕ → ℕ → Read → Started S
    unfolding with_dedup
    start_up interval max_size file =
        with_dedup interval max_size (λ dedup. loaded_first dedup file)
