-- ===== src/Tests/Starts.antt =====
-- The start of the program and its HTTP handler at concrete inputs.
use mathlib.Core.Path.{subst}
use vmestimator.Base.{
  ◌≢◌, some_inj, true, ℕ, ◌^◌, ◌*◌, ◌≤◌, ◌<◌, ◌≡◌, refl, ap, sym, ◌∙◌, arith, Bool, false, Text,
  codes, none, some, Option, List, [], ◌∷◌, length, lookup, insert, ◌++◌,
}
use vmestimator.Config.{EstimatorConfig, prepare}
use vmestimator.Dedup.{second, rotate, Deduplicator, new_deduplicator, min_interval, min_max_size}
use vmestimator.Estimator.State.{new_estimator, has_reserved_key, misplaced_keyword}
use vmestimator.Filter.{compile_filters}
use vmestimator.Reload.{System, load_config}
use vmestimator.Reload.Watch.{Settings, Read, got, bad, read_config, Watcher}
use vmestimator.Server.{write_request}
use vmestimator.Server.Writes.{IsSafe, IsStart, Writes}
use vmestimator.Server.Life.{Reaches, here, then, dedup_turned}
use vmestimator.Server.Startup
use vmestimator.Server.Startup.{Started, start_up, blank_system}
use vmestimator.Server.Started.{IsStarted, start_up-IsStarted, start_up-Reaches}
use vmestimator.Server.Handler.{Request, serve, Served}
use vmestimator.Server.Watching.{Event, stop, signal, tick, watch}
use vmestimator.Server.Watched.{round, watch-Reaches}
use vmestimator.Tests.Exact.{Exact, exact_hll, exact_laws}
use vmestimator.Snapshot.{Snapshot}
use vmestimator.Churn.{Ratio}
use vmestimator.Tests.Samples.{text_hash}
use vmestimator.Tests.Servers.{running, running-IsSafe, from_zero}
use vmestimator.Tests.Parsers.{next_field, shrinks, no_zstd, as_it_is}
use vmestimator.Tests.Reloads.{
  keep_order, no_text, no_selector, no_regexp, deep_equal, deep_equal_sound, streams,
}

abbrev any_file : Text → Option Text
any_file path = some (codes "ab")

abbrev any_streams : Text → Option (List EstimatorConfig)
any_streams content = some streams

abbrev file : Read
file = read_config keep_order no_text 8 text_hash any_file any_streams false (codes "f")

abbrev streams_of : Read → List EstimatorConfig
streams_of (got settings) = settings.streams
streams_of (bad why) = []

file-got : file ≡ got (record { streams = streams; hash = 2 })
unfolding read_config prepare lookup
file-got = refl

few : (settings : Settings) → file ≡ got settings → length settings.streams ≤ 2 ^ 31
few settings e =
    subst (λ (s : List EstimatorConfig). length s ≤ 2 ^ 31) (ap streams_of (sym file-got ∙ e))
      (omega arith)

abbrev begun : Started Exact
begun =
    start_up (load_config keep_order no_text no_selector no_regexp 8 deep_equal) (60 * second)
      10_000 file

start_up-IsStarted_example :
    IsStarted exact_laws keep_order no_text no_selector no_regexp 8 deep_equal deep_equal_sound
      (60 * second)
      10_000
      file
      begun
    × (◌≡◌ {A = ℕ} (60 * second) min_interval → min_max_size < 10_000 → begun ≡ Startup.panics)
start_up-IsStarted_example =
    start_up-IsStarted exact_laws keep_order no_text no_selector no_regexp 8 deep_equal
      deep_equal_sound (60 * second) 10_000 (omega arith) text_hash any_file any_streams false
      (codes "f") few

abbrev watcher_of : Started Exact → Watcher Exact
watcher_of (Startup.running w) = w
watcher_of (Startup.fatal why) = record {
  system = blank_system none;
  hash = 0;
  is_success = false;
  reloads = 0;
  reload_errors = 0;
}
watcher_of Startup.panics = record {
  system = blank_system none;
  hash = 0;
  is_success = false;
  reloads = 0;
  reload_errors = 0;
}

begun-running : begun ≡ Startup.running (watcher_of begun)
unfolding start_up read_config prepare lookup load_config new_estimator new_deduplicator insert
    has_reserved_key compile_filters misplaced_keyword
begun-running = refl

abbrev begun_system : System Exact
begun_system = (watcher_of begun).system

abbrev dedup_or : Option Deduplicator → Deduplicator
dedup_or none = record {
  max_size = 0;
  interval = 0;
  bucket_max_size = 0;
  bfs = [];
  passed_total = 0;
  dropped_total = 0;
}
dedup_or (some d) = d

begun-dedup : begun_system.dedup ≡ some (dedup_or begun_system.dedup)
unfolding start_up read_config prepare lookup load_config new_estimator new_deduplicator insert
    has_reserved_key compile_filters misplaced_keyword
begun-dedup = refl

abbrev turned_system : System Exact
turned_system = record begun_system {
  dedup = some (rotate (dedup_or begun_system.dedup) (6 * second));
}

start_up-Reaches_example :
    IsSafe turned_system
    × ((starts : ℕ → ℕ) (start : ℕ) (body : Option Text)
        → IsStart start turned_system
        → Writes exact_laws text_hash starts start turned_system (
            write_request next_field text_hash starts start no_zstd as_it_is as_it_is 100 body
              turned_system))
start_up-Reaches_example =
    start_up-Reaches exact_laws keep_order no_text no_selector no_regexp 8 deep_equal
      deep_equal_sound (60 * second) 10_000 (omega arith) text_hash any_file any_streams false
      (codes "f") few next_field no_zstd as_it_is as_it_is 100 shrinks (watcher_of begun)
      turned_system begun-running
      (then (dedup_turned (6 * second) (dedup_or begun_system.dedup) begun-dedup) here)

-- A write request with one series without labels.
abbrev posted : Request Exact
posted = record {
  path = codes "/api/v1/write";
  body = some (1 ∷ 0 ∷ []);
  is_authorised = false;
  start = 1;
  starts = from_zero;
  since_now = 0;
  now = 0;
  done_at = 0;
  fetched = none;
}

abbrev keep_text : Text → Text
keep_text t = t

abbrev plain_page : Text
plain_page = codes "/metrics"

abbrev no_ratio : Ratio → Text
no_ratio r = []

abbrev send : List (Snapshot Exact) → Snapshot Exact → List (Snapshot Exact) × Bool
send sent s = (sent ++ s ∷ [], false)

abbrev served : Option (Served Exact (List (Snapshot Exact)))
served =
    serve next_field text_hash no_zstd as_it_is as_it_is 100 keep_text no_text no_ratio no_text
      keep_order 0 0 plain_page send [] posted running []

abbrev running_watcher : Watcher Exact
running_watcher = record {
  system = running;
  hash = 0;
  is_success = true;
  reloads = 0;
  reload_errors = 0;
}

a_path : codes "f" ≢ []
a_path e = cc

few_streams :
    (content : Text) (ss : List EstimatorConfig)
    → any_streams content ≡ some ss
    → length ss ≤ 2 ^ 31
few_streams content ss e =
    subst (λ (xs : List EstimatorConfig). length xs ≤ 2 ^ 31) (some_inj e) (omega arith)

-- A signal, a tick at a time without the file, and the stop.
abbrev events : List Event
events = signal any_file ∷ tick (λ path. none) ∷ stop ∷ []

abbrev one_round : (Text → Option Text) → Watcher Exact → Option (Watcher Exact)
one_round =
    round exact_laws next_field shrinks text_hash no_zstd as_it_is as_it_is 100 keep_order no_text
      no_selector no_regexp 8 deep_equal deep_equal_sound any_streams false (codes "f")

watch-Reaches_example :
    (w' : Watcher Exact) × (watch one_round 30 events running_watcher ≡ some w')
    × Reaches next_field text_hash no_zstd as_it_is as_it_is 100 keep_order no_text no_selector
        no_regexp 8 deep_equal running w'.system
watch-Reaches_example =
    watch-Reaches exact_laws next_field shrinks text_hash no_zstd as_it_is as_it_is 100 keep_order
      no_text no_selector no_regexp 8 deep_equal deep_equal_sound any_streams false (codes "f")
      a_path few_streams 30 events running_watcher running-IsSafe
