-- ===== src/Estimator/GroupKey.antt =====
-- The group key of a series in `insertMany` (app/vmestimator/estimator.go), read from the values found.
use vmestimator.Base.{◌≡◌, ◌≢◌, refl, sym, ap, ◌∙◌, Text, Option, none, some, List, [], ◌∷◌, ◌++◌}
use vmestimator.Series.{Label}
use vmestimator.Estimator.InsertMany.{Group, find_label, add_value, collect}

-- The values found, without the keys that the series lacks.
abbrev pub found_values : List (Option Text) → List Text
found_values [] = []
found_values (none ∷ vs) = found_values vs
found_values (some v ∷ vs) = v ∷ found_values vs

-- A value list as the digest sees it: each behind a zero byte.
abbrev pub written : List Text → Text
written [] = []
written (v ∷ vs) = 0 ∷ v ++ written vs

abbrev pub looked_up : List Text → List Label → List (Option Text)
looked_up [] labels = []
looked_up (k ∷ ks) labels = find_label k labels ∷ looked_up ks labels

bytes-add_value :
    (o : Option Text) (g : Group) (vs : List (Option Text))
    → g.bytes ≡ written (found_values vs)
    → (add_value o g).bytes ≡ written (found_values (o ∷ vs))
unfolding add_value
bytes-add_value none g vs e = e
bytes-add_value (some v) g vs e = ap (λ (t : Text). 0 ∷ v ++ t) e

bytes-collect :
    (ks : List Text) (labels : List Label)
    → (collect ks labels).bytes ≡ written (found_values (looked_up ks labels))
unfolding collect
bytes-collect [] labels = refl
bytes-collect (k ∷ ks) labels =
    bytes-add_value (find_label k labels) (collect ks labels) (looked_up ks labels)
      (bytes-collect ks labels)

-- The bytes of the group key are a function of the values found alone: two series with the same
-- values at different keys of `group_by` have the same key.
pub collect-bytes_same :
    (ks : List Text) (labels labels' : List Label)
    → found_values (looked_up ks labels) ≡ found_values (looked_up ks labels')
    → (collect ks labels).bytes ≡ (collect ks labels').bytes
collect-bytes_same ks labels labels' e =
    bytes-collect ks labels ∙ ap written e ∙ sym (bytes-collect ks labels')

-- Two keys, and two series of which one has a value only at the first and the other the same value
-- only at the second: they share the bytes of the group key, although the values recorded for their
-- groups differ when the value is not empty.
pub collect-collides :
    (k j v : Text) (labels labels' : List Label)
    → v ≢ []
    → find_label k labels ≡ some v
    → find_label j labels ≡ none
    → find_label k labels' ≡ none
    → find_label j labels' ≡ some v
    → ((collect (k ∷ j ∷ []) labels).bytes ≡ (collect (k ∷ j ∷ []) labels').bytes)
      × ((collect (k ∷ j ∷ []) labels).values ≢ (collect (k ∷ j ∷ []) labels').values)
unfolding collect add_value
collect-collides k j v labels labels' ne a b c d = (
  collect-bytes_same (k ∷ j ∷ []) labels labels' (rw (a, b, c, d)),
  λ same. ne (head_eq (rw (a, b, c, d) at same)),
)
  where
    head_eq : v ∷ [] ∷ [] ≡ [] ∷ v ∷ [] → v ≡ []
    head_eq e = cc
