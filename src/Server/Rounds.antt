-- ===== src/Server/Rounds.antt =====
-- The loop of a write request over the estimators (app/vmestimator/main.go), which starts at a
-- random one.
use native.Mathlib.Nat.{mod-eq_of_lt, mod-eq-sub-mod}
use vmestimator.Base.{
  ℕ, zero, suc, ◌+◌, ◌-◌, ◌%◌, ◌^◌, ◌≤◌, ◌<◌, ◌≡◌, ◌≢◌, refl, sym, ap, ◌∙◌, inl, inr, ◌⊎◌, arith,
  leb, ltb, Text, nat_eq, ◌==◌, some, List, length, get_elem?, set, All, All-get_elem?,
  All-of_get_elem?, if◌then◌else◌, Bool-cases, ==_sound, some_inj, length-set, get_elem?-set_self,
  get_elem?-set_ne, get_elem?-lt, lt-get_elem?,
}
use mathlib.Core.Path.{subst}
use vmestimator.Sketch.{Hll, HllLaws}
use vmestimator.Series.{TimeSerie}
use vmestimator.Estimator.State.{Estimator}
use vmestimator.Estimator.Bounds.{IsSound}
use vmestimator.Estimator.InsertMany.{insert_many}
use vmestimator.Estimator.Batches.{insert_many-IsSound}
use vmestimator.Server.{insert_rounds}

-- The round in which the loop comes to the index `i`.
abbrev round_of : ℕ → ℕ → ℕ → ℕ
round_of start n i = if leb start i then i - start else i + n - start

abbrev IsVisited : ℕ → ℕ → ℕ → ℕ → Type 0
IsVisited start n j i =
    (i < n) × (round_of start n i ≡ j) × ((k : ℕ) → k < n → round_of start n k ≡ j → i ≡ k)

-- Each round visits one index, and no other round does.
index_lem :
    (start n j : ℕ)
    → start < n
    → j < n
    → n ≤ 2 ^ 31
    → (i : ℕ) × ((start + j) % 2 ^ 32 % (n % 2 ^ 32) ≡ i) × IsVisited start n j i
index_lem start n j lt less small =
    let sum_small : (start + j) % 2 ^ 32 ≡ start + j = omega arith in
    let size_small : n % 2 ^ 32 ≡ n = omega arith in
    elim (Bool-cases (ltb (start + j) n)) [
      | inl low ↦
          let below : start + j < n = ground arith in
          (
            start + j,
            rw (sum_small, size_small) (mod-eq_of_lt below),
            (below, ground arith, λ k bound at. ground arith),
          )
      | inr high ↦
          let above : n ≤ start + j = ground arith in
          (
            start + j - n,
            rw (sum_small, size_small, mod-eq-sub-mod above) (mod-eq_of_lt (omega arith)),
            (omega arith, ground arith, λ k bound at. ground arith),
          )
    ]

module _ {S : Type 0} ⦃hll : Hll S⦄ (laws : HllLaws hll) (sum64 : Text → ℕ) (starts : ℕ → ℕ)
    (tss : List TimeSerie) where
  -- At the index `i` the estimator `e` has got the batch, once.
  pub record HasTaken (e e' : Estimator S) : Type 0 where
    pub at : ℕ
    pub runs : insert_many sum64 at tss e ≡ some e'
    pub sound : IsSound e'

  abbrev Took : List (Estimator S) → ℕ → Estimator S → Type 0
  Took cur i e = (e' : Estimator S) × (get_elem? cur i ≡ some e') × HasTaken e e'

  module _ (start n : ℕ) where
    -- An estimator before the round `j`.
    abbrev Stage : ℕ → List (Estimator S) → ℕ → Estimator S → Type 0
    Stage j cur i e =
        ((round_of start n i < j) × Took cur i e)
        ⊎ ((j ≤ round_of start n i) × (get_elem? cur i ≡ some e))

    took_now :
        (j i : ℕ) (cur : List (Estimator S)) (x x' e : Estimator S)
        → i < length cur
        → get_elem? cur i ≡ some x
        → HasTaken x x'
        → round_of start n i ≡ j
        → Stage j cur i e
        → Stage (j + 1) (set cur i x') i e
    took_now j i cur x x' e lt at took now (inl before) = absurd (omega (arith, before.0))
    took_now j i cur x x' e lt at took now (inr after) =
        let same : x ≡ e = some_inj (sym at ∙ after.1) in
        inl
          (omega arith, (x', get_elem?-set_self cur i x' lt, subst (λ y. HasTaken y x') same took))

    took_else :
        (j i k : ℕ) (cur : List (Estimator S)) (x' e : Estimator S)
        → i ≢ k
        → (round_of start n k ≡ j → i ≡ k)
        → Stage j cur k e
        → Stage (j + 1) (set cur i x') k e
    took_else j i k cur x' e ne only (inl (lt, (y, at, took))) =
        inl (omega arith, (y, get_elem?-set_ne cur i k x' ne ∙ at, took))
    took_else j i k cur x' e ne only (inr (le, at)) = elim (Bool-cases (round_of start n k == j)) [
      | inl now ↦ absurd (ne (only (==_sound _ _ now)))
      | inr later ↦ inr (ground arith, get_elem?-set_ne cur i k x' ne ∙ at)
    ]

    Stage-next :
        (j i k : ℕ) (cur : List (Estimator S)) (x x' e : Estimator S)
        → i < length cur
        → get_elem? cur i ≡ some x
        → HasTaken x x'
        → round_of start n i ≡ j
        → (round_of start n k ≡ j → i ≡ k)
        → Stage j cur k e
        → Stage (j + 1) (set cur i x') k e
    Stage-next j i k cur x x' e lt at took now only stage = elim (Bool-cases (i == k)) [
      | inl same ↦
          subst (λ m. Stage j cur m e → Stage (j + 1) (set cur i x') m e) (==_sound i k same)
            (took_now j i cur x x' e lt at took now) stage
      | inr other ↦ took_else j i k cur x' e (ground arith) only stage
    ]

    -- The estimators before the round `j`: those of the batch so far, and the rest as it was.
    record IsAt (es : List (Estimator S)) (j : ℕ) (cur : List (Estimator S)) : Type 0 where
      len : length cur ≡ n
      each :
          (k : ℕ) (e : Estimator S)
          → get_elem? es k ≡ some e
          → (k < n) × IsSound e × Stage j cur k e

  -- Each estimator has got the batch, once.
  pub record TookAll (es es' : List (Estimator S)) : Type 0 where
    pub len : length es' ≡ length es
    pub each :
        (i : ℕ) (e : Estimator S)
        → get_elem? es i ≡ some e
        → (e' : Estimator S) × (get_elem? es' i ≡ some e') × HasTaken e e'

  IsSound-here :
      (start n j i : ℕ) (es cur : List (Estimator S)) (x : Estimator S)
      → IsAt start n es j cur
      → length es ≡ n
      → i < n
      → round_of start n i ≡ j
      → get_elem? cur i ≡ some x
      → IsSound x
  IsSound-here start n j i es cur x h same lt now at =
      let (e, found) = get_elem?-lt es i (omega (arith, same)) in by_stage e (h.each i e found)
    where
      by_stage : (e : Estimator S) → (i < n) × IsSound e × Stage start n j cur i e → IsSound x
      by_stage e (lt', ok, inl before) = absurd (omega (arith, before.0))
      by_stage e (lt', ok, inr after) = subst IsSound (some_inj (sym after.1 ∙ at)) ok

  round_runs :
      (left j start n i : ℕ) (cur : List (Estimator S)) (x x' : Estimator S)
      → length cur ≡ n
      → (start + j) % 2 ^ 32 % (n % 2 ^ 32) ≡ i
      → get_elem? cur i ≡ some x
      → insert_many sum64 (starts j) tss x ≡ some x'
      → insert_rounds sum64 starts tss (suc left) j start cur
        ≡ insert_rounds sum64 starts tss left (j + 1) start (set cur i x')
  unfolding insert_rounds
  round_runs left j start n i cur x x' len at found runs = rw (len, at, found, runs) refl

  insert_rounds_lem :
      (left j start n : ℕ) (es cur : List (Estimator S))
      → start < n
      → n ≤ 2 ^ 31
      → length es ≡ n
      → left + j ≡ n
      → IsAt start n es j cur
      → (es' : List (Estimator S)) × (insert_rounds sum64 starts tss left j start cur ≡ some es')
        × IsAt start n es n es'
  unfolding insert_rounds
  insert_rounds_lem zero j start n es cur lt small size done h =
      (cur, refl, subst (λ m. IsAt start n es m cur) (let it : j ≡ n = omega (arith, done) in it) h)
  insert_rounds_lem (suc left) j start n es cur lt small size todo h =
      let (i, at, (below, now, only)) = index_lem start n j lt (omega arith) small in
      let (x, found) = get_elem?-lt cur i (omega (arith, h.len)) in
      let (x', runs, sound, bounded) =
        insert_many-IsSound laws sum64 (starts j) tss x
          (IsSound-here start n j i es cur x h size below now found) in
      let (es', more, final) =
        insert_rounds_lem left (j + 1) start n es (set cur i x') lt small size (omega arith)
          (record {
            len = length-set cur i x' ∙ h.len;
            each = λ k e there.
                let (lt', ok, stage) = h.each k e there in
                (
                  lt',
                  ok,
                  Stage-next start n j i k cur x x' e (omega (arith, h.len)) found
                      (record { at = starts j; runs = runs; sound = sound }) now (only k lt') stage,
                );
          }) in
      (es', round_runs left j start n i cur x x' h.len at found runs ∙ more, final)

  -- The loop over sound estimators does not panic, and every estimator gets the batch exactly once,
  -- wherever the loop starts: its result at each index is that of `insertMany` on what stood there.
  -- There are at most 2^31 estimators, so that the sum of start and round does not wrap around.
  pub insert_rounds-TookAll :
      (start : ℕ) (es : List (Estimator S))
      → All IsSound es
      → start < length es
      → length es ≤ 2 ^ 31
      → (es' : List (Estimator S)) × (insert_rounds sum64 starts tss (length es % 2 ^ 32) 0 start es
          ≡ some es')
        × TookAll es es'
  insert_rounds-TookAll start es ok lt small =
      let size : length es % 2 ^ 32 ≡ length es = omega arith in
      let (es', runs, final) =
        insert_rounds_lem (length es) 0 start (length es) es es lt small refl (omega arith)
          (record {
            len = refl;
            each = λ k e there. (
              lt-get_elem? es k there,
              All-get_elem? IsSound es k ok there,
              inr (omega arith, there),
            );
          }) in
      (
        es',
        ap (λ n. insert_rounds sum64 starts tss n 0 start es) size ∙ runs,
        record { len = final.len; each = λ k e there. taken es' k e (final.each k e there) },
      )
    where
      taken :
          (es' : List (Estimator S)) (k : ℕ) (e : Estimator S)
          → (k < length es) × IsSound e × Stage start (length es) (length es) es' k e
          → Took es' k e
      taken es' k e (lt', ok', inl (before, took)) = took
      taken es' k e (lt', ok', inr (late, there)) = absurd (ground (arith, late))

  pub TookAll-IsSound : (es es' : List (Estimator S)) → TookAll es es' → All IsSound es'
  TookAll-IsSound es es' h = All-of_get_elem? IsSound es' (λ i e' at.
      let (e, found) = get_elem?-lt es i (rw h.len at (lt-get_elem? es' i at)) in
      let (e'', there, took) = h.each i e found in
      subst IsSound (some_inj (sym there ∙ at)) took.sound)
