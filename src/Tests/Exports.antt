-- ===== src/Tests/Exports.antt =====
-- The theorems on the export of snapshots at concrete inputs.
use vmestimator.Base.{
  concat, map, Option, true, ◌+◌, lookup, sym, ℕ, ◌≡◌, refl, inl, inr, ap, ◌≤◌, arith, Bool, Text,
  codes, ◌==◌, nat_eq, list_eq, some, List, [], ◌∷◌, some_inj, Bool-cases,
}
use vmestimator.Snapshot.{Snapshot, Snapshots, new_snapshot}
use vmestimator.Snapshot.Order.{held, rejected}
use vmestimator.Estimator.State.{Estimator}
use vmestimator.Estimator.Bucket.{Bucket}
use vmestimator.Estimator.Bounds.{IsSound}
use vmestimator.Export.{to_snapshot}
use vmestimator.Export.Runs.{feed, Precise}
use vmestimator.Export.Groups.{IsPreciseAll, Describes}
use vmestimator.Export.Whole.{to_snapshot-Describes}
use vmestimator.Cluster.{serve_snapshots, send}
use vmestimator.Cluster.Fetch.{fetch_nodes}
use vmestimator.Cluster.Fetched.{adds, node, no_node, fetch_nodes-serve_snapshots}
use vmestimator.Cluster.Union.{IsNode, held_by_all, refused_by_all, serve_snapshots-add_all}
use vmestimator.Tests.Exact.{Exact, exact_hll, exact_laws, exact_registers, exact_blanks}
use vmestimator.Tests.Samples.{grouped_estimator, grouped_estimator-IsSound, grouped_bucket, by_job}

abbrev low : 4 ≤ 14
low = omega arith

abbrev high : 14 ≤ 18
high = omega arith

grouped_bucket-Precise : Precise exact_laws exact_registers exact_blanks 14 low high grouped_bucket
unfolding lookup
grouped_bucket-Precise = record {
  whole = λ sk e. cc;
  whole_prev = λ sk e. cc;
  cur = λ key sk e. elim (Bool-cases (2 == key)) [
    | inl here ↦ rw (← some_inj (rw here at e)) refl
    | inr other ↦ cc (rw other at e)
  ];
  prev = λ key sk e. cc;
}

abbrev named_estimator : Estimator Exact
named_estimator = record grouped_estimator { id = codes "jobs" }

named_estimator-IsSound : IsSound named_estimator
named_estimator-IsSound =
    let h = grouped_estimator-IsSound in
    record {
      some_bucket = h.some_bucket;
      balanced = h.balanced;
      each = h.each;
      kind = h.kind;
      shares = h.shares;
    }

named_estimator-IsPreciseAll :
    IsPreciseAll exact_laws exact_registers exact_blanks 14 low high named_estimator
named_estimator-IsPreciseAll = record {
  first = λ b e.
      let same : grouped_bucket ≡ b = some_inj e in
      ap (λ (b : Bucket Exact). b.precision) (sym same);
  buckets = (grouped_bucket-Precise, tt);
}

abbrev keep_order : List Text → List Text
keep_order ks = ks

abbrev no_text : ℕ → Text
no_text d = []

named_estimator-IsNode :
    IsNode exact_laws exact_registers exact_blanks 14 low high keep_order no_text named_estimator
named_estimator-IsNode = record {
  sound = named_estimator-IsSound;
  precise = named_estimator-IsPreciseAll;
  named = λ e. cc;
}

-- The callback counts the snapshots and fails at the third.
abbrev count_calls : ℕ → Snapshot Exact → ℕ × Bool
count_calls c s = (c + 1, c == 2)

to_snapshot-Describes_example :
    (sent : List (Snapshot Exact)) × ((c : ℕ)
      → to_snapshot count_calls named_estimator c ≡ some (feed count_calls c sent))
    × Describes exact_laws exact_registers exact_blanks 14 low high by_job named_estimator sent
to_snapshot-Describes_example =
    to_snapshot-Describes exact_laws exact_registers exact_blanks 14 low high count_calls
      named_estimator named_estimator-IsSound named_estimator-IsPreciseAll

-- Two nodes with estimators of the same stream; a snapshot is its own message.
abbrev cluster : List (List (Estimator Exact))
cluster = (named_estimator ∷ []) ∷ (named_estimator ∷ []) ∷ []

abbrev as_message : Snapshot Exact → Snapshot Exact
as_message s = s

abbrev decode_message : Snapshot Exact → Snapshot Exact → Option (Snapshot Exact)
decode_message m s = some m

decodes : (s : Snapshot Exact) → decode_message (as_message s) new_snapshot ≡ some s
decodes s = refl

one_node :
    (sent : List (Snapshot Exact)) × (serve_snapshots (send as_message) (named_estimator ∷ []) []
      ≡ some (map as_message sent))
one_node =
    let (sent, ss, served, added, registers, sums) =
      serve_snapshots-add_all exact_laws exact_registers exact_blanks 14 low high keep_order no_text
        as_message (named_estimator ∷ []) (named_estimator-IsNode, tt) in
    (sent, served)

abbrev answers : List (Option (ℕ × List (Snapshot Exact)))
answers = some (200, map as_message one_node.0) ∷ some (200, map as_message one_node.0) ∷ []

fetch_nodes-serve_snapshots_example :
    (ss : Snapshots Exact) × (fetch_nodes decode_message
        (adds exact_laws exact_registers exact_blanks 14 low high keep_order no_text as_message
          decode_message decodes)
        answers
        (some [])
      ≡ (some ss, true))
    × ((i : Text) (k j : ℕ)
        → held exact_laws exact_registers 14 ss i k j
          ≡ held_by_all exact_laws exact_registers exact_blanks 14 low high keep_order no_text
              (concat cluster)
              i
              k
              j)
    × ((i : Text)
        → rejected exact_laws exact_registers 14 ss i
          ≡ refused_by_all exact_laws exact_registers exact_blanks 14 low high keep_order no_text
              (concat cluster)
              i)
fetch_nodes-serve_snapshots_example =
    fetch_nodes-serve_snapshots exact_laws exact_registers exact_blanks 14 low high keep_order
      no_text as_message decode_message decodes cluster answers
      ((named_estimator-IsNode, tt), ((named_estimator-IsNode, tt), tt))
      (node one_node.1 (node one_node.1 no_node))
