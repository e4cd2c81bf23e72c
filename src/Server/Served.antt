-- ===== src/Server/Served.antt =====
-- The HTTP handler against the steps of the server's life (app/vmestimator/main.go).
use vmestimator.Base.{false, ℕ, ◌≡◌, Bool, true, Text, Option, some, List}
use vmestimator.Sketch.{Hll}
use vmestimator.Snapshot.{Snapshot}
use vmestimator.Churn.{Ratio}
use vmestimator.Filter.{Parsed}
use vmestimator.Config.{EstimatorConfig}
use vmestimator.Scrape.{Cached, is_expired, refresh}
use vmestimator.Cluster.{serve_snapshots}
use vmestimator.Parser.{BodyError, handled, refused}
use vmestimator.Parser.Fields.{Field}
use vmestimator.Reload.{System}
use vmestimator.Server.{
  Route, metrics_page, write, snapshot, reset_all, reload, not_found, write_request, reset_system,
}
use vmestimator.Server.Writes.{Writes}
use vmestimator.Server.Life.{Step, was_reset}
use vmestimator.Server.Handler.{
  Reply, page, reload_requested, not_authorised, unknown_path, streamed, no_content, bad_body,
  Request, Served, cache_of, serve_route,
}

module _ {S : Type 0} ⦃hll : Hll S⦄ (next_field : Text → Option (Field × Text)) (sum64 : Text → ℕ)
    (is_zstd : Text → Bool) (zstd snappy : Text → Option Text) (max_size : ℕ) (quote : Text → Text)
    (print_number : ℕ → Text) (print_ratio : Ratio → Text) (duration_string : ℕ → Text)
    (sort : List Text → List Text) (flag ttl : ℕ) (expose_at : Text) {C : Type 0}
    (encode : C → Snapshot S → C × Bool) (opened : C) (parse : Text → Parsed)
    (compile_regexp : Text → Option (Text → Bool)) (cpus : ℕ)
    (deep_equal : EstimatorConfig → EstimatorConfig → Bool) where
  abbrev IsStep : System S → System S → Type 0
  IsStep sys sys' =
      Step next_field sum64 is_zstd zstd snappy max_size sort duration_string parse compile_regexp
        cpus deep_equal sys sys'

  -- What a request to a route leaves: the state, the cached text and the reply.
  pub data Answers (r : Request S) (sys : System S) (text : Text)
      : Route → Served S C → Type 0 where
    -- The cached page is young enough.
    shown_again :
        is_expired sys.cached_at ttl r.since_now ≡ false
        → Answers r sys text metrics_page (sys, text, page text)
    -- The page is made anew: only the churn, the cached text and its time change.
    shown :
        (c : Cached S)
        → is_expired sys.cached_at ttl r.since_now ≡ true
        → refresh quote print_number print_ratio duration_string sort flag sys.estimators r.fetched
            r.now r.done_at
            (cache_of sys text)
          ≡ some c
        → Answers r sys text metrics_page
            (record sys { churn = c.churn; cached_at = c.cached_at }, c.text, page c.text)
    stored :
        (sys' : System S)
        → write_request next_field sum64 r.starts r.start is_zstd zstd snappy max_size r.body sys
          ≡ handled (some sys')
        → Answers r sys text write (sys', text, no_content)
    not_stored :
        (why : BodyError)
        → write_request next_field sum64 r.starts r.start is_zstd zstd snappy max_size r.body sys
          ≡ refused why
        → Answers r sys text write (sys, text, bad_body why)
    sent :
        (c : C)
        → serve_snapshots encode sys.estimators opened ≡ some c
        → Answers r sys text snapshot (sys, text, streamed c)
    cleared :
        (sys' : System S)
        → reset_system sys ≡ some sys'
        → Answers r sys text reset_all (sys', text, Reply.was_reset)
    asked : r.is_authorised ≡ true → Answers r sys text reload (sys, text, reload_requested)
    turned_away : r.is_authorised ≡ false → Answers r sys text reload (sys, text, not_authorised)
    unknown : Answers r sys text not_found (sys, text, unknown_path)

  abbrev done : Request S → System S → Text → Route → Option (Served S C)
  done r sys text to =
      serve_route next_field sum64 is_zstd zstd snappy max_size quote print_number print_ratio
        duration_string sort flag ttl expose_at encode opened r sys text to
