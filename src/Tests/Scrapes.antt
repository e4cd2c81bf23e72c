-- ===== src/Tests/Scrapes.antt =====
-- The theorems on the metrics and on scrapes at concrete inputs. A quoted text has a quote on each
-- side, and a number is as many strokes.
use vmestimator.Base.{
  ℕ, zero, suc, ◌≡◌, ◌≢◌, ◌==◌, ==_refl, nat_eq, list_eq, refl, arith, true, false, pos, Text,
  codes, none, some, List, [], ◌∷◌, ◌++◌, lookup, insert,
}
use vmestimator.Config.{join_comma}
use vmestimator.Churn.{Ratio, cleanup}
use vmestimator.Snapshot.{new_snapshot, Snapshot, Snapshots, SnapshotSketch, add_all}
use vmestimator.Metrics.{by_name, write_metrics, write_all_metrics, write_churn_metrics}
use vmestimator.Metrics.Names.{by_name_injective}
use vmestimator.Metrics.Lines.{Shows, write_metrics-Shows}
use vmestimator.Scrape.{Cached, refresh, write_estimators, snapshots_of}
use vmestimator.Scrape.Cache.{refresh_partial}
use vmestimator.Tests.Exact.{Exact, exact_hll}

abbrev quote : Text → Text
quote t = 34 ∷ t ++ 34 ∷ []

abbrev strokes : ℕ → Text
strokes zero = []
strokes (suc n) = 124 ∷ strokes n

abbrev no_ratio : Ratio → Text
no_ratio r = []

abbrev no_text : ℕ → Text
no_text d = []

abbrev keep_order : List Text → List Text
keep_order ks = ks

abbrev of_job : Text → List ℕ → SnapshotSketch Exact
of_job job hashes = record {
  values = job ∷ [];
  sketch = record { precision = 14; hashes = hashes };
}

-- Two groups, with one series and with two; the threshold is two.
abbrev two_jobs : Snapshot Exact
two_jobs = record {
  id = codes "jobs";
  interval = 300;
  calculate_churn = true;
  labels = [];
  filter = [];
  group_by = codes "job" ∷ [];
  group_limit = 10;
  group_reject_size = 2;
  min_cardinality = pos 2;
  sketches = (1, of_job (codes "a") (7 ∷ [])) ∷ (2, of_job (codes "b") (8 ∷ 9 ∷ [])) ∷ [];
}

write_metrics-Shows_example :
    (text : Text) × (write_metrics quote strokes no_ratio no_text keep_order 0 two_jobs ≡ some text)
    × Shows quote strokes no_ratio no_text keep_order 0 two_jobs text
write_metrics-Shows_example =
    write_metrics-Shows quote strokes no_ratio no_text keep_order 0 two_jobs (λ e. cc)
      (omega arith, (omega arith, tt))

apart : (a b : Text) → (a == b) ≡ false → a ≢ b
apart a b differ e = cc (rw (e, ==_refl b) at differ)

by_name_injective_example : codes "job" ≡ codes "job"
by_name_injective_example =
    by_name_injective (codes "job") (codes "job") (apart _ _ refl) (apart _ _ refl) (apart _ _ refl)
      (apart _ _ refl) refl

-- Two keys with one name.
one_name : by_name (codes "_name__") ≡ by_name (codes "__name__")
unfolding by_name
one_name = refl

abbrev empty_cache : Cached Exact
empty_cache = record { churn = []; cached_at = none; text = [] }

abbrev lines : Text
lines =
    codes
      "cardinality_estimate{interval=\"\",filter=\"\",group_by_keys=\"job\",group_by_values=\"b\",by_job=\"b\"} ||\n"
    ++ codes
        "vmestimator_cardinality_estimates_dropped{interval=\"\",filter=\"\",group_by_keys=\"job\"} |\n"
    ++ codes
        "cardinality_estimate{interval=\"\",filter=\"\",group_by_keys=\"__group__\",group_by_values=\"job\"} ||||\n"
    ++ codes
        "vmestimator_estimator_group_limit{interval=\"\",filter=\"\",group_by_keys=\"__group__\",group_by_values=\"job\"} ||||||||||\n"

abbrev scraped : Cached Exact
scraped = record { churn = []; cached_at = some 9; text = lines }

partial_scrape :
    refresh quote strokes no_ratio no_text keep_order 0 []
      (some (record { arrived = two_jobs ∷ []; all_answered = false }))
      8
      9
      empty_cache
    ≡ some scraped
unfolding refresh add_all lookup new_snapshot write_all_metrics insert write_churn_metrics cleanup
    join_comma
partial_scrape = refl

refresh_partial_example :
    (own merged last : Text) × (ss : Snapshots Exact) × (write_estimators quote strokes no_ratio
        no_text keep_order 0 {S = Exact} []
      ≡ some own)
    × (add_all keep_order no_text [] (two_jobs ∷ []) ≡ some ss)
    × (write_all_metrics quote strokes no_ratio no_text keep_order 0 (snapshots_of ss)
        ≡ some merged)
    × (write_churn_metrics quote strokes no_ratio no_text keep_order scraped.churn ≡ some last)
    × (scraped.text ≡ own ++ merged ++ last)
    × (refresh quote strokes no_ratio no_text keep_order 0 [] none 8 9 empty_cache
        ≡ some (record scraped { text = own ++ last }))
refresh_partial_example =
    refresh_partial quote strokes no_ratio no_text keep_order 0 [] (two_jobs ∷ []) 8 9 empty_cache
      scraped partial_scrape
