-- ===== src/Estimator/InsertMany.antt =====
-- `insertMany` of app/vmestimator/estimator.go. The xxhash digest is the list of the bytes written
-- to it, and its `Sum64` a parameter; the random start of the round over the batch is an argument.
-- `none` is a panic.
use vmestimator.Base.{
  ℕ, zero, suc, ◌+◌, ◌%◌, ◌^◌, Bool, true, false, not, ◌||◌, Text, ◌==◌, list_eq, nat_eq, Option,
  none, some, ◌>>=◌, List, [], ◌∷◌, ◌++◌, length, get_elem?, if◌then◌else◌,
}
use vmestimator.Sketch.{Hll}
use vmestimator.Series.{Label, TimeSerie}
use vmestimator.Filter.{match}
use vmestimator.Estimator.State.{Estimator, insert_at}

-- The value of the first label of that name.
unfoldable pub find_label : Text → List Label → Option Text
find_label name [] = none
find_label name (l ∷ ls) = if l.name == name then some l.value else find_label name ls

-- What the loop over the explicit keys leaves: the bytes written to the digest, the group values,
-- and whether a key was found.
pub record Group : Type 0 where
  pub bytes : Text
  pub values : List Text
  pub found : Bool

unfoldable pub add_value : Option Text → Group → Group
add_value none g = record g { values = [] ∷ g.values }
add_value (some v) g = record { bytes = 0 ∷ v ++ g.bytes; values = v ∷ g.values; found = true }

unfoldable pub collect : List Text → List Label → Group
unfolding find_label add_value
collect [] labels = record { bytes = []; values = []; found = false }
collect (k ∷ ks) labels = add_value (find_label k labels) (collect ks labels)

-- e.groupBy[:len(e.groupBy)-1]
unfoldable pub without_last : List Text → List Text
without_last [] = []
without_last (k ∷ []) = []
without_last (k ∷ j ∷ ks) = k ∷ without_last (j ∷ ks)

abbrev pub explicit_keys : {S : Type 0} → Estimator S → List Text
explicit_keys e = if e.has_label_keyword then without_last e.group_by else e.group_by

abbrev pub is_empty {ℓ} : {A : Type ℓ} → List A → Bool
is_empty [] = true
is_empty (x ∷ xs) = false

module _ {S : Type 0} ⦃hll : Hll S⦄ (sum64 : Text → ℕ) where
  -- The loop of the `__label__` expansion: the estimator and the number of inserts.
  unfoldable pub insert_labels :
      Estimator S → List Text → Group → List Label → ℕ → Option (Estimator S × ℕ)
  insert_labels e ks g [] cnt = some (e, cnt)
  insert_labels e ks g (l ∷ ls) cnt =
      let key = sum64 (g.bytes ++ ((if is_empty ks then [] else 0 ∷ []) ++ l.name)) in
      let insert_one =
        insert_at e (key % length e.buckets) l.fingerprint key (g.values ++ l.name ∷ []) in
      let step : Option (Estimator S × ℕ) =
        if l.fingerprint == 0 then some (e, cnt) else (insert_one >>= λ e'. some (e', cnt + 1)) in
      step >>= λ r. insert_labels r.0 ks g ls r.1

  unfoldable pub insert_plain : Estimator S → Group → ℕ → ℕ → Option (Estimator S × ℕ)
  insert_plain e g fp cnt =
      let key = sum64 g.bytes in
      insert_at e (key % length e.buckets) fp key g.values >>= λ e'. some (e', cnt + 1)

  -- The body of the loop for an estimator with `group_by`, after the filter.
  unfoldable pub insert_grouped : Estimator S → TimeSerie → ℕ → Option (Estimator S × ℕ)
  unfolding collect without_last insert_labels insert_plain
  insert_grouped e ts cnt =
      let ks = explicit_keys e in
      let g = collect ks ts.labels in
      if not (is_empty ks || g.found)
      then some (e, cnt)
      else if e.has_label_keyword
      then insert_labels e ks g ts.labels cnt
      else insert_plain e g ts.fingerprint cnt

  -- The same for one without.
  unfoldable pub insert_ungrouped : Estimator S → TimeSerie → ℕ → Option (Estimator S × ℕ)
  insert_ungrouped e ts cnt =
      insert_at e (ts.fingerprint % length e.buckets) ts.fingerprint 0 [] >>= λ e'.
      some (e', cnt + 1)

  unfoldable pub insert_series : Estimator S → TimeSerie → ℕ → Option (Estimator S × ℕ)
  unfolding insert_grouped insert_ungrouped
  insert_series e ts cnt =
      if not (match e.compiled_filter ts.labels)
      then some (e, cnt)
      else if is_empty e.group_by
      then insert_ungrouped e ts cnt
      else insert_grouped e ts cnt

  -- The loop: `left` rounds from the `j`-th on.
  unfoldable pub insert_round :
      ℕ → ℕ → ℕ → List TimeSerie → Estimator S → ℕ → Option (Estimator S × ℕ)
  unfolding insert_series
  insert_round zero j start tss e cnt = some (e, cnt)
  insert_round (suc left) j start tss e cnt = do
    ts ← get_elem? tss ((start + j) % 2 ^ 32 % (length tss % 2 ^ 32))
    (e', cnt') ← insert_series e ts cnt
    insert_round left (j + 1) start tss e' cnt'

  unfoldable pub insert_many : ℕ → List TimeSerie → Estimator S → Option (Estimator S)
  unfolding insert_round
  insert_many start tss e = insert_round (length tss % 2 ^ 32) 0 start tss e 0 >>= λ (e', cnt).
      some (record e' { insert_total = e'.insert_total + cnt })
