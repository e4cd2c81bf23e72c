-- ===== src/Server.antt =====
-- The HTTP handler (`main` of app/vmestimator/main.go): which path leads where, a write request from
-- its body to the estimators, and the reset of all estimators. Server/Handler puts them together with
-- the replies; headers and the sending of the signal that asks for a reload are left out.
pub mod Routes
pub mod Rounds
pub mod Writes
pub mod Life
pub mod Startup
pub mod Started
pub mod Handler
pub mod Served
pub mod Watching
pub mod Watched
use vmestimator.Base.{
  ℕ, zero, suc, ◌+◌, ◌%◌, ◌^◌, Bool, true, false, not, ◌&&◌, Text, codes, ◌==◌, nat_eq, list_eq,
  Option, none, some, ◌>>=◌, List, [], ◌∷◌, length, drop, get_elem?, set, if◌then◌else◌,
}
use vmestimator.Sketch.{Hll}
use vmestimator.Series.{TimeSerie}
use vmestimator.Config.{has_prefix}
use vmestimator.Dedup
use vmestimator.Dedup.{Deduplicator}
use vmestimator.Estimator.State.{Estimator, reset}
use vmestimator.Estimator.InsertMany.{insert_many}
use vmestimator.Parser.{Body, BodyError, handled, refused, unfinished, parse}
use vmestimator.Parser.Fields.{Field}
use vmestimator.Reload.{System}

pub data Route : Type 0 where
  metrics_page write snapshot reset_all reload not_found : Route

-- strings.CutPrefix, without its second result.
unfoldable pub cut_prefix : Text → Text → Text
unfolding has_prefix
cut_prefix prefix path = if has_prefix prefix path then drop (length prefix) path else path

abbrev pub reload_path : Text
reload_path = codes "/-/reload"

-- The metrics go to a page of their own when `-cardinalityMetrics.exposeAt` names one.
unfoldable pub exposed : Text → Text → Bool
exposed expose_at path =
    not (expose_at == codes "/metrics") && (not (expose_at == []) && (path == expose_at))

abbrev pub route_of : Text → Route
route_of path =
    if path == codes "/api/v1/write"
    then write
    else if path == codes "/clusternative/query"
    then snapshot
    else if path == codes "/clusternative/snapshot"
    then snapshot
    else if path == codes "/reset"
    then reset_all
    else if path == reload_path
    then reload
    else not_found

-- `expose_at` is the flag; then the switch on the path.
unfoldable pub route : Text → Text → Route
unfolding exposed cut_prefix
route expose_at path =
    if exposed expose_at path
    then metrics_page
    else route_of (cut_prefix (codes "/cardinality") path)

unfoldable pub is_auth_key_protected_path : Text → Bool
unfolding cut_prefix
is_auth_key_protected_path path = cut_prefix (codes "/cardinality") path == reload_path

abbrev pub passed :
    Option Deduplicator → List TimeSerie → Option (Option Deduplicator × List TimeSerie)
passed none tss = some (none, tss)
passed (some d) tss = Dedup.filter_batch d tss >>= λ r. some (some r.0, r.1)

module _ {S : Type 0} ⦃hll : Hll S⦄ where
  module _ (sum64 : Text → ℕ) (starts : ℕ → ℕ) (tss : List TimeSerie) where
    -- The loop over the estimators, `left` rounds from round `j` on; `start` is random, and so is
    -- where each estimator starts in the batch.
    unfoldable pub insert_rounds : ℕ → ℕ → ℕ → List (Estimator S) → Option (List (Estimator S))
    insert_rounds zero j start es = some es
    insert_rounds (suc left) j start es =
        let i = (start + j) % 2 ^ 32 % (length es % 2 ^ 32) in
        get_elem? es i >>= λ e.
        insert_many sum64 (starts j) tss e >>= λ e'. insert_rounds left (j + 1) start (set es i e')

  -- The callback of a write request, on the series that the request has.
  abbrev pub store : (ℕ → ℕ) → ℕ → (Text → ℕ) → System S → List TimeSerie → Option (System S)
  store starts start sum64 sys [] = some sys
  store starts start sum64 sys (ts ∷ tss) =
      insert_rounds sum64 starts (ts ∷ tss) (length sys.estimators % 2 ^ 32) 0 start sys.estimators
      >>= λ es. some (record sys { estimators = es })

  unfoldable pub on_series :
      (ℕ → ℕ) → ℕ → (Text → ℕ) → System S → List TimeSerie → Option (System S)
  unfolding insert_rounds
  on_series starts start sum64 sys tss =
      passed sys.dedup tss >>= λ r. store starts start sum64 (record sys { dedup = r.0 }) r.1

  -- The handler of `/reset`.
  unfoldable pub reset_estimators : List (Estimator S) → Option (List (Estimator S))
  reset_estimators [] = some []
  reset_estimators (e ∷ es) = reset e >>= λ e'. reset_estimators es >>= λ es'. some (e' ∷ es')

  unfoldable pub reset_system : System S → Option (System S)
  unfolding reset_estimators
  reset_system sys = reset_estimators sys.estimators >>= λ es.
      some (record sys { estimators = es; churn = []; cached_at = none })

  module _ (next_field : Text → Option (Field × Text)) (sum64 : Text → ℕ) (starts : ℕ → ℕ)
      (start : ℕ) (is_zstd : Text → Bool) (zstd snappy : Text → Option Text) (max_size : ℕ) where
    -- A write request with its body as it was read; `none` inside the result is a panic.
    unfoldable pub write_request : Option Text → System S → Body (Option (System S))
    unfolding on_series
    write_request body sys =
        parse next_field sum64 sys.fingerprint_labels
          (λ c tss. c >>= λ s. on_series starts start sum64 s tss) is_zstd zstd snappy max_size body
          (some sys)
