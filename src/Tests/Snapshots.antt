-- ===== src/Tests/Snapshots.antt =====
-- The theorems on snapshots and churn at concrete inputs.
use mathlib.Core.List.Perm
use vmestimator.Base.{
  none, ◌+◌, ◌≢◌, ◌⊎◌, ℕ, ◌≡◌, refl, inl, inr, ◌≤◌, ◌<◌, arith, pos, true, Text, codes, ◌==◌,
  nat_eq, list_eq, pair_eq, some, List, [], ◌∷◌, Dict, lookup, IsUnique, Bool-cases, some_inj,
}
use vmestimator.Snapshot.{Snapshot, SnapshotSketch, Snapshots, add_all}
use vmestimator.Snapshot.Order.{IsSendable, held, rejected}
use vmestimator.Snapshot.Adds.{add_all-greatest, add_all-Perm, greatest, total}
use vmestimator.Churn.{ChurnEntry, ChurnSnapshots, update, cleanup, churn_ratio}
use vmestimator.Churn.Window.{Follows, if_fresh, update-Follows, cleanup-lookup, churn_ratio-bounds}
use vmestimator.Tests.Exact.{Exact, exact_hll, exact_laws, exact_registers}

abbrev keep_order : List Text → List Text
keep_order ks = ks

abbrev no_text : ℕ → Text
no_text d = []

-- A snapshot with one group that has seen one hash.
abbrev of_hash : ℕ → Snapshot Exact
of_hash h = record {
  id = codes "jobs";
  interval = 300;
  calculate_churn = true;
  labels = [];
  filter = [];
  group_by = codes "job" ∷ [];
  group_limit = 10;
  group_reject_size = 2;
  min_cardinality = pos 0;
  sketches =
      (1, record { values = codes "a" ∷ []; sketch = record { precision = 14; hashes = h ∷ [] } })
      ∷ [];
}

of_hash-IsUnique : (h : ℕ) → IsUnique (of_hash h).sketches
unfolding lookup
of_hash-IsUnique h = (refl, tt)

of_hash-IsSendable : (h : ℕ) → IsSendable exact_laws exact_registers 14 (of_hash h)
unfolding lookup
of_hash-IsSendable h = record {
  unique = of_hash-IsUnique h;
  uniform = λ key x e. elim (Bool-cases (1 == key)) [
    | inl same ↦
        let sk : SnapshotSketch Exact = record {
          values = codes "a" ∷ [];
          sketch = record { precision = 14; hashes = h ∷ [] };
        } in
        let it : sk ≡ x = some_inj (rw same at e) in rw (← it) refl
    | inr other ↦ cc (rw other at e)
  ];
}

abbrev two : List (Snapshot Exact)
two = of_hash 5 ∷ of_hash 6 ∷ []

abbrev two_swapped : List (Snapshot Exact)
two_swapped = of_hash 6 ∷ of_hash 5 ∷ []

add_all-greatest_example :
    (ss : Snapshots Exact) × (add_all keep_order no_text [] two ≡ some ss)
    × ((i : Text) (k j : ℕ)
        → held exact_laws exact_registers 14 ss i k j
          ≡ greatest exact_laws exact_registers 14 keep_order no_text two i k j)
    × ((i : Text)
        → rejected exact_laws exact_registers 14 ss i
          ≡ total exact_laws exact_registers 14 keep_order no_text two i)
add_all-greatest_example =
    add_all-greatest exact_laws exact_registers 14 keep_order no_text two
      (of_hash-IsSendable 5, (of_hash-IsSendable 6, tt))

add_all-Perm_example :
    (ss : Snapshots Exact) × (ss' : Snapshots Exact) × (add_all keep_order no_text [] two ≡ some ss)
    × (add_all keep_order no_text [] two_swapped ≡ some ss')
    × ((i : Text) (k j : ℕ)
        → held exact_laws exact_registers 14 ss i k j
          ≡ held exact_laws exact_registers 14 ss' i k j)
    × ((i : Text)
        → rejected exact_laws exact_registers 14 ss i
          ≡ rejected exact_laws exact_registers 14 ss' i)
add_all-Perm_example =
    add_all-Perm exact_laws exact_registers 14 keep_order no_text two two_swapped
      (Perm.swap (of_hash 6) (of_hash 5) []) (of_hash-IsSendable 5, (of_hash-IsSendable 6, tt))
      (of_hash-IsSendable 6, (of_hash-IsSendable 5, tt))

abbrev job_entry : ChurnEntry Exact
job_entry = record {
  interval = 300;
  filter = [];
  labels = [];
  group_by = codes "job" ∷ [];
  values = codes "a" ∷ [];
  prev = record { added_at = 1000; sketch = some (record { precision = 14; hashes = 5 ∷ [] }) };
  curr = record { added_at = 1400; sketch = some (record { precision = 14; hashes = 6 ∷ [] }) };
}

abbrev entries : ChurnSnapshots Exact
entries = ((codes "jobs", 1), job_entry) ∷ []

update-Follows_example :
    (after : ChurnSnapshots Exact) × (update entries (of_hash 7) 1500 ≡ some after)
    × ((key : ℕ) (ssk : SnapshotSketch Exact)
        → lookup key (of_hash 7).sketches ≡ some ssk
        → (x : ChurnEntry Exact) × (lookup (codes "jobs", key) after ≡ some x)
          × Follows (of_hash 7) ssk 1500 (lookup (codes "jobs", key) entries) x
          × (1500 ≤ x.prev.added_at + 300))
    × ((id : Text) (key : ℕ)
        → (codes "jobs" ≢ id) ⊎ (lookup key (of_hash 7).sketches ≡ none)
        → lookup (id, key) after ≡ lookup (id, key) entries)
update-Follows_example =
    update-Follows entries (of_hash 7) 1500 refl (omega arith) (of_hash-IsUnique 7)

entries-IsUnique : IsUnique entries
unfolding lookup
entries-IsUnique = (refl, tt)

cleanup-lookup_example :
    lookup (codes "jobs", 1) (cleanup 2001 entries)
    ≡ if_fresh 2001 (lookup (codes "jobs", 1) entries)
cleanup-lookup_example = cleanup-lookup entries 2001 (codes "jobs", 1) entries-IsUnique

abbrev removed : Dict Text ℕ
removed = (codes "jobs", 0) ∷ []

churn_ratio-bounds_example :
    ((churn_ratio job_entry).numerator ≤ (churn_ratio job_entry).denominator)
    × (0 < (churn_ratio job_entry).denominator)
churn_ratio-bounds_example = churn_ratio-bounds job_entry
