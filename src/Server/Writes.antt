-- ===== src/Server/Writes.antt =====
-- A write request from the bytes of its body to the estimators (app/vmestimator/main.go).
use vmestimator.Base.{
  ℕ, ◌%◌, ◌^◌, ◌≤◌, ◌<◌, ◌≡◌, refl, inl, inr, ◌⊎◌, arith, Bool, Text, Option, none, some, ◌>>=◌,
  List, [], ◌∷◌, length, All,
}
use vmestimator.Sketch.{Hll, HllLaws}
use vmestimator.Series.{TimeSerie}
use vmestimator.Dedup.{Deduplicator}
use vmestimator.Dedup.Step.{IsValid}
use vmestimator.Dedup.Filter.{filter-Filtered}
use vmestimator.Dedup.InPlace.{filter_batch-filter}
use vmestimator.Estimator.State.{Estimator}
use vmestimator.Estimator.Bounds.{IsSound}
use vmestimator.Parser.{Body, BodyError, handled, refused}
use vmestimator.Parser.Fields.{Field}
use vmestimator.Parser.Total.{Shrinks, Answers, forwards, ignores, refuses, parse-Answers}
use vmestimator.Reload.{System}
use vmestimator.Server.{insert_rounds, store, passed, on_series, write_request}
use vmestimator.Server.Rounds.{TookAll, TookAll-IsSound, insert_rounds-TookAll}

abbrev pub IsValidIf : Option Deduplicator → Type 0
IsValidIf none = Unit {0}
IsValidIf (some d) = IsValid d

module _ {S : Type 0} where
  pub record IsSafe (sys : System S) : Type 0 where
    pub sound : All IsSound sys.estimators
    pub few : length sys.estimators ≤ 2 ^ 31
    pub dedup : IsValidIf sys.dedup

  -- The random start is an index, where there is any.
  abbrev pub IsStart : ℕ → System S → Type 0
  IsStart start sys = 0 < length sys.estimators → start < length sys.estimators

passed_lem :
    (d : Option Deduplicator) (tss : List TimeSerie)
    → IsValidIf d
    → (d' : Option Deduplicator) × (out : List TimeSerie) × (passed d tss ≡ some (d', out))
      × IsValidIf d'
passed_lem none tss v = (none, tss, refl, tt)
passed_lem (some d) tss v =
    let (d', out, runs, says) = filter-Filtered tss [] d v in
    (some d', out, rw (filter_batch-filter d tss, runs) refl, says.valid)

module _ {S : Type 0} ⦃hll : Hll S⦄ (laws : HllLaws hll) (sum64 : Text → ℕ) (starts : ℕ → ℕ)
    (start : ℕ) where
  -- What the callback does with a batch: the deduplicator passes on `out`, and every estimator gets
  -- it once, or none does when nothing is left.
  pub record Stores (sys : System S) (tss : List TimeSerie) (sys' : System S) : Type 0 where
    pub out : List TimeSerie
    pub forwarded : passed sys.dedup tss ≡ some (sys'.dedup, out)
    pub taken :
        ((out ≡ []) × (sys'.estimators ≡ sys.estimators))
        ⊎ TookAll laws sum64 starts out sys.estimators sys'.estimators
    pub safe : IsSafe sys'

  TookAll-nil : (tss : List TimeSerie) → TookAll laws sum64 starts tss [] []
  TookAll-nil tss = record { len = refl; each = λ i e there. cc }

  rounds_lem :
      (tss : List TimeSerie) (es : List (Estimator S))
      → All IsSound es
      → (0 < length es → start < length es)
      → length es ≤ 2 ^ 31
      → (es' : List (Estimator S)) × (insert_rounds sum64 starts tss (length es % 2 ^ 32) 0 start es
          ≡ some es')
        × TookAll laws sum64 starts tss es es'
  unfolding insert_rounds
  rounds_lem tss [] ok lt few = ([], refl, TookAll-nil tss)
  rounds_lem tss (e ∷ es) ok lt few =
      insert_rounds-TookAll laws sum64 starts tss start (e ∷ es) ok (lt (omega arith)) few

  store_lem :
      (sys : System S) (d' : Option Deduplicator) (tss out : List TimeSerie)
      → IsSafe sys
      → IsStart start sys
      → passed sys.dedup tss ≡ some (d', out)
      → IsValidIf d'
      → (sys' : System S) × (store starts start sum64 (record sys { dedup = d' }) out ≡ some sys')
        × Stores sys tss sys'
  store_lem sys d' tss [] h at e v = (
    record sys { dedup = d' },
    refl,
    record {
      out = [];
      forwarded = e;
      taken = inl (refl, refl);
      safe = record { sound = h.sound; few = h.few; dedup = v };
    },
  )
  store_lem sys d' tss (ts ∷ out) h at e v =
      let (es', runs, took) = rounds_lem (ts ∷ out) sys.estimators h.sound at h.few in
      (
        record sys { dedup = d'; estimators = es' },
        rw runs refl,
        record {
          out = ts ∷ out;
          forwarded = e;
          taken = inr took;
          safe = record {
            sound = TookAll-IsSound laws sum64 starts (ts ∷ out) sys.estimators es' took;
            few = omega (arith, took.len, h.few);
            dedup = v;
          };
        },
      )

  pub on_series-Stores :
      (sys : System S) (tss : List TimeSerie)
      → IsSafe sys
      → IsStart start sys
      → (sys' : System S) × (on_series starts start sum64 sys tss ≡ some sys') × Stores sys tss sys'
  unfolding on_series
  on_series-Stores sys tss h at =
      let (d', out, e, v) = passed_lem sys.dedup tss h.dedup in
      let (sys', runs, says) = store_lem sys d' tss out h at e v in (sys', rw e runs, says)

  -- What a write request leaves.
  pub data Writes (sys : System S) : Body (Option (System S)) → Type 0 where
    stores :
        (tss : List TimeSerie) (sys' : System S)
        → Stores sys tss sys'
        → Writes sys (handled (some sys'))
    nothing : Writes sys (handled (some sys))
    rejects : (why : BodyError) → Writes sys (refused why)

  module _ (next_field : Text → Option (Field × Text)) (shrinks : Shrinks next_field)
      (is_zstd : Text → Bool) (zstd snappy : Text → Option Text) (max_size : ℕ) where
    -- Whatever bytes a client sends as a write request, or whether they cannot be read, the handler
    -- ends without a panic: it refuses them, leaves the state as it was, or gives every estimator the
    -- series that the deduplicator passed, once each, unless none is left. The estimators stay sound
    -- and the deduplicator valid. Reading a field takes at least one byte, and the random start is an
    -- index of an estimator, of at most 2^31, where there are any.
    pub write_request-Writes :
        (body : Option Text) (sys : System S)
        → IsSafe sys
        → IsStart start sys
        → Writes sys
            (write_request next_field sum64 starts start is_zstd zstd snappy max_size body sys)
    unfolding write_request
    write_request-Writes body sys h at = by_answer _ (
        parse-Answers next_field shrinks sum64 sys.fingerprint_labels _ (some sys) is_zstd zstd
          snappy max_size body)
      where
        by_answer :
            (b : Body (Option (System S)))
            → Answers next_field shrinks sum64 sys.fingerprint_labels
                (λ c tss. c >>= λ s. on_series starts start sum64 s tss)
                (some sys)
                b
            → Writes sys b
        by_answer b (forwards ts tss) =
            let (sys', runs, says) = on_series-Stores sys (ts ∷ tss) h at in
            rw runs (stores (ts ∷ tss) sys' says)
        by_answer b ignores = nothing
        by_answer b (refuses why) = rejects why
