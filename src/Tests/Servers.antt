-- ===== src/Tests/Servers.antt =====
-- The theorems on the server at concrete inputs.
use vmestimator.Base.{
  ℕ, ◌%◌, ◌^◌, ◌≡◌, ◌↔◌, refl, arith, true, false, codes, none, some, List, [], ◌∷◌, length,
}
use vmestimator.Estimator.State.{Estimator}
use vmestimator.Reload.{System}
use vmestimator.Server.{
  metrics_page, reload_path, reload, route, exposed, is_auth_key_protected_path, insert_rounds,
  write_request,
}
use vmestimator.Server.Rounds.{TookAll, insert_rounds-TookAll}
use vmestimator.Server.Writes.{IsSafe, Writes, write_request-Writes}
use vmestimator.Server.Life.{Step}
use vmestimator.Server.Routes.{is_auth_key_protected_path-route}
use vmestimator.Tests.Exact.{Exact, exact_hll, exact_laws}
use vmestimator.Tests.Samples.{
  grouped_estimator, grouped_estimator-IsSound, grouped_bucket, batch, text_hash,
}
use vmestimator.Tests.Parsers.{next_field, shrinks, no_zstd, as_it_is}
use vmestimator.Tests.Reloads.{keep_order, no_text, no_selector, no_regexp, deep_equal}

abbrev two : List (Estimator Exact)
two = grouped_estimator ∷ grouped_estimator ∷ []

abbrev pub from_zero : ℕ → ℕ
from_zero j = 0

insert_rounds-TookAll_example :
    (es' : List (Estimator Exact)) × (insert_rounds text_hash from_zero batch
        (length two % 2 ^ 32)
        0
        1
        two
      ≡ some es')
    × TookAll exact_laws text_hash from_zero batch two es'
insert_rounds-TookAll_example =
    insert_rounds-TookAll exact_laws text_hash from_zero batch 1 two
      (grouped_estimator-IsSound, (grouped_estimator-IsSound, tt)) (omega arith) (omega arith)

abbrev pub running : System Exact
running = record {
  estimators = two;
  dedup = none;
  fingerprint_labels = false;
  churn = [];
  cached_at = none;
}

pub running-IsSafe : IsSafe running
running-IsSafe = record {
  sound = (grouped_estimator-IsSound, (grouped_estimator-IsSound, tt));
  few = omega arith;
  dedup = tt;
}

-- One series without labels.
write_request-Writes_example : Writes exact_laws text_hash from_zero 1 running (
    write_request next_field text_hash from_zero 1 no_zstd as_it_is as_it_is 100
      (some (1 ∷ 0 ∷ []))
      running)
write_request-Writes_example =
    write_request-Writes exact_laws text_hash from_zero 1 next_field shrinks no_zstd as_it_is
      as_it_is 100 (some (1 ∷ 0 ∷ [])) running running-IsSafe (λ some_there. omega arith)

-- The group of the first estimator is now one of the last period.
abbrev rotated_estimator : Estimator Exact
rotated_estimator = record grouped_estimator {
  buckets = record grouped_bucket { groups = []; prev_groups = grouped_bucket.groups } ∷ [];
}

abbrev IsStep : System Exact → System Exact → Type 0
IsStep =
    Step next_field text_hash no_zstd as_it_is as_it_is 100 keep_order no_text no_selector no_regexp
      8 deep_equal

abbrev turned_system : System Exact
turned_system = record running { estimators = rotated_estimator ∷ grouped_estimator ∷ [] }

not_exposed : exposed (codes "/cardinality") (codes "/cardinality/-/reload") ≡ false
unfolding exposed
not_exposed = refl

is_auth_key_protected_path-route_example :
    (is_auth_key_protected_path (codes "/cardinality/-/reload") ≡ true)
    ↔ (route (codes "/cardinality") (codes "/cardinality/-/reload") ≡ reload)
is_auth_key_protected_path-route_example =
    is_auth_key_protected_path-route (codes "/cardinality") (codes "/cardinality/-/reload")
      not_exposed

-- The metrics page on the path of the reload: no key is asked for.
exposed_reload :
    (is_auth_key_protected_path reload_path ≡ true) × (route reload_path reload_path ≡ metrics_page)
unfolding is_auth_key_protected_path route
exposed_reload = (refl, refl)
