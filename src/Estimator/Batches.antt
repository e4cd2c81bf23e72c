-- ===== src/Estimator/Batches.antt =====
-- `insertMany` (app/vmestimator/estimator.go) on a sound estimator, loop by loop.
use native.Mathlib.Nat.{mod-lt}
use vmestimator.Base.{
  ℕ, zero, suc, ◌+◌, ◌%◌, ◌^◌, ◌≤◌, ◌≡◌, refl, ◌∙◌, Bool, true, false, not, ◌||◌, Text, nat_eq,
  ◌==◌, arith, Option, some, ◌>>=◌, List, [], ◌∷◌, ◌++◌, length, if◌then◌else◌, get_elem?-lt,
}
use vmestimator.Sketch.{Hll, HllLaws}
use vmestimator.Series.{Label, TimeSerie}
use vmestimator.Filter.{match}
use vmestimator.Estimator.State.{Estimator, insert_at}
use vmestimator.Estimator.InsertMany.{
  Group, collect, explicit_keys, is_empty, insert_labels, insert_plain, insert_grouped,
  insert_ungrouped, insert_series, insert_round, insert_many,
}
use vmestimator.Estimator.Bounds.{IsSound, IsSame, insert_at-Keeps}

module _ {S : Type 0} where
  pub IsSame-refl : (e : Estimator S) → IsSame e e
  IsSame-refl e = record {
    buckets = refl;
    limit = refl;
    group_by = refl;
    filter = refl;
    keyword = refl;
  }

  pub IsSame-trans : {e f g : Estimator S} → IsSame e f → IsSame f g → IsSame e g
  IsSame-trans s t = record {
    buckets = t.buckets ∙ s.buckets;
    limit = t.limit ∙ s.limit;
    group_by = t.group_by ∙ s.group_by;
    filter = t.filter ∙ s.filter;
    keyword = t.keyword ∙ s.keyword;
  }

  -- The loop goes on with a sound estimator of the same settings.
  abbrev GoesOn : Estimator S → Option (Estimator S × ℕ) → Type 0
  GoesOn e r = (e' : Estimator S) × (n : ℕ) × (r ≡ some (e', n)) × IsSound e' × IsSame e e'

  GoesOn-then :
      (e : Estimator S) (r : Option (Estimator S × ℕ))
      (f : Estimator S × ℕ → Option (Estimator S × ℕ))
      → GoesOn e r
      → ((e' : Estimator S) (n : ℕ) → IsSound e' → GoesOn e' (f (e', n)))
      → GoesOn e (r >>= f)
  GoesOn-then e r f (e', n, runs, sound, same) next =
      let (e'', m, runs', sound', same') = next e' n sound in
      (e'', m, rw runs runs', sound', IsSame-trans same same')

module _ {S : Type 0} ⦃hll : Hll S⦄ (laws : HllLaws hll) (sum64 : Text → ℕ) where
  insert_at_counted :
      (e : Estimator S) (k fp key : ℕ) (values : List Text) (cnt : ℕ)
      → IsSound e
      → GoesOn e (insert_at e (k % length e.buckets) fp key values >>= λ e'. some (e', cnt + 1))
  insert_at_counted e k fp key values cnt v =
      let (e', runs, sound, same) =
        insert_at-Keeps laws e (k % length e.buckets) fp key values v (mod-lt k v.some_bucket) in
      (e', cnt + 1, rw runs, sound, same)

  skipped_or :
      (b : Bool) (e : Estimator S) (cnt : ℕ) (r : Option (Estimator S × ℕ))
      → IsSound e
      → GoesOn e r
      → GoesOn e (if b then some (e, cnt) else r)
  skipped_or true e cnt r v g = (e, cnt, refl, v, IsSame-refl e)
  skipped_or false e cnt r v g = g

  insert_labels-GoesOn :
      (ls : List Label) (e : Estimator S) (ks : List Text) (g : Group) (cnt : ℕ)
      → IsSound e
      → GoesOn e (insert_labels sum64 e ks g ls cnt)
  unfolding insert_labels
  insert_labels-GoesOn [] e ks g cnt v = (e, cnt, refl, v, IsSame-refl e)
  insert_labels-GoesOn (l ∷ ls) e ks g cnt v =
      GoesOn-then e _ _
        (skipped_or (l.fingerprint == 0) e cnt _ v
          (insert_at_counted e _ l.fingerprint _ (g.values ++ l.name ∷ []) cnt v))
        (λ e' n v'. insert_labels-GoesOn ls e' ks g n v')

  either :
      (b : Bool) (e : Estimator S) (r s : Option (Estimator S × ℕ))
      → GoesOn e r
      → GoesOn e s
      → GoesOn e (if b then r else s)
  either true e r s p q = p
  either false e r s p q = q

  insert_grouped-GoesOn :
      (e : Estimator S) (ts : TimeSerie) (cnt : ℕ)
      → IsSound e
      → GoesOn e (insert_grouped sum64 e ts cnt)
  unfolding insert_grouped insert_plain
  insert_grouped-GoesOn e ts cnt v =
      let ks = explicit_keys e in
      let g = collect ks ts.labels in
      skipped_or (not (is_empty ks || g.found)) e cnt _ v (
        either e.has_label_keyword e _ _ (insert_labels-GoesOn ts.labels e ks g cnt v)
          (insert_at_counted e (sum64 g.bytes) ts.fingerprint (sum64 g.bytes) g.values cnt v))

  insert_series-GoesOn :
      (e : Estimator S) (ts : TimeSerie) (cnt : ℕ)
      → IsSound e
      → GoesOn e (insert_series sum64 e ts cnt)
  unfolding insert_series insert_ungrouped
  insert_series-GoesOn e ts cnt v = skipped_or (not (match e.compiled_filter ts.labels)) e cnt _ v (
      either (is_empty e.group_by) e _ _
        (insert_at_counted e ts.fingerprint ts.fingerprint 0 [] cnt v)
        (insert_grouped-GoesOn e ts cnt v))

  insert_round-GoesOn :
      (left j start : ℕ) (tss : List TimeSerie) (e : Estimator S) (cnt : ℕ)
      → IsSound e
      → left + j ≤ length tss % 2 ^ 32
      → GoesOn e (insert_round sum64 left j start tss e cnt)
  unfolding insert_round
  insert_round-GoesOn zero j start tss e cnt v fits = (e, cnt, refl, v, IsSame-refl e)
  insert_round-GoesOn (suc left) j start tss e cnt v fits =
      let (ts, at) =
        get_elem?-lt tss ((start + j) % 2 ^ 32 % (length tss % 2 ^ 32)) (grind arith) in
      rw at (
        GoesOn-then e (insert_series sum64 e ts cnt) _ (insert_series-GoesOn e ts cnt v)
          (λ e' n v'. insert_round-GoesOn left (j + 1) start tss e' n v' (omega arith)))

  -- On a sound estimator `insertMany` never panics, whatever the batch and the random start. The
  -- estimator stays sound: each bucket's share is the number of groups it holds, the shares add up
  -- to the size, and the size is at most the group limit, which does not change.
  pub insert_many-IsSound :
      (start : ℕ) (tss : List TimeSerie) (e : Estimator S)
      → IsSound e
      → (e' : Estimator S) × (insert_many sum64 start tss e ≡ some e')
        × IsSound e'
        × (e'.group_size.size ≤ e.group_size.limit)
  unfolding insert_many
  insert_many-IsSound start tss e v =
      let (e', n, runs, sound, same) =
        insert_round-GoesOn (length tss % 2 ^ 32) 0 start tss e 0 v (omega arith) in
      (
        record e' { insert_total = e'.insert_total + n },
        rw runs,
        record {
          some_bucket = sound.some_bucket;
          balanced = sound.balanced;
          each = sound.each;
          kind = sound.kind;
          shares = sound.shares;
        },
        omega (arith, sound.balanced.bounded, same.limit),
      )
