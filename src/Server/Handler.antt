-- ===== src/Server/Handler.antt =====
-- The HTTP handler as a whole (`main` of app/vmestimator/main.go): a request by its path, with the
-- reply and the state after it. The encoder of the snapshots is a parameter. `none` is a panic.
use vmestimator.Base.{ℕ, Bool, Text, Option, none, some, ◌>>=◌, List, if◌then◌else◌}
use vmestimator.Sketch.{Hll}
use vmestimator.Snapshot.{Snapshot}
use vmestimator.Churn.{Ratio}
use vmestimator.Scrape.{Cached, Fetched, write_cardinality_metrics}
use vmestimator.Cluster.{serve_snapshots}
use vmestimator.Parser.{Body, BodyError, handled, refused, unfinished}
use vmestimator.Parser.Fields.{Field}
use vmestimator.Reload.{System}
use vmestimator.Server.{
  Route, metrics_page, write, snapshot, reset_all, reload, not_found, route, write_request,
  reset_system,
}

pub data Reply (C : Type 0) : Type 0 where
  page : Text → Reply C
  no_content was_reset reload_requested not_authorised unknown_path : Reply C
  bad_body : BodyError → Reply C
  streamed : C → Reply C

-- What a request may depend on besides its path: its body, whether its key is right, the random
-- numbers, the clock and the answers of the storage nodes.
pub record Request (S : Type 0) : Type 0 where
  pub path : Text
  pub body : Option Text
  pub is_authorised : Bool
  pub start : ℕ
  pub starts : ℕ → ℕ
  pub since_now : ℕ
  pub now : ℕ
  pub done_at : ℕ
  pub fetched : Option (Fetched S)

-- The system, the cached text, and the reply.
abbrev pub Served : Type 0 → Type 0 → Type 0
Served S C = System S × Text × Reply C

module _ {S : Type 0} where
  abbrev pub cache_of : System S → Text → Cached S
  cache_of sys text = record { churn = sys.churn; cached_at = sys.cached_at; text = text }

  abbrev pub page_of : {C : Type 0} → System S → Cached S → Served S C
  page_of sys c = (record sys { churn = c.churn; cached_at = c.cached_at }, c.text, page c.text)

  -- `none` when the fuel of the parser runs out, which it does not.
  abbrev pub written :
      {C : Type 0} → System S → Text → Body (Option (System S)) → Option (Served S C)
  written sys text (handled r) = r >>= λ sys'. some (sys', text, no_content)
  written sys text (refused why) = some (sys, text, bad_body why)
  written sys text unfinished = none

module _ {S : Type 0} ⦃hll : Hll S⦄ (next_field : Text → Option (Field × Text)) (sum64 : Text → ℕ)
    (is_zstd : Text → Bool) (zstd snappy : Text → Option Text) (max_size : ℕ) (quote : Text → Text)
    (print_number : ℕ → Text) (print_ratio : Ratio → Text) (duration_string : ℕ → Text)
    (sort : List Text → List Text) (flag ttl : ℕ) (expose_at : Text) {C : Type 0}
    (encode : C → Snapshot S → C × Bool) (opened : C) where
  abbrev pub serve_route : Request S → System S → Text → Route → Option (Served S C)
  serve_route r sys text metrics_page = do
    c ←
        write_cardinality_metrics quote print_number print_ratio duration_string sort flag ttl
          r.since_now r.now r.done_at sys.estimators r.fetched (cache_of sys text)
    some (page_of sys c)
  serve_route r sys text write =
      written sys text
        (write_request next_field sum64 r.starts r.start is_zstd zstd snappy max_size r.body sys)
  serve_route r sys text snapshot =
      serve_snapshots encode sys.estimators opened >>= λ c. some (sys, text, streamed c)
  serve_route r sys text reset_all = reset_system sys >>= λ sys'. some (sys', text, was_reset)
  serve_route r sys text reload =
      some (sys, text, if r.is_authorised then reload_requested else not_authorised)
  serve_route r sys text not_found = some (sys, text, unknown_path)

  unfoldable pub serve : Request S → System S → Text → Option (Served S C)
  unfolding route
  serve r sys text = serve_route r sys text (route expose_at r.path)
