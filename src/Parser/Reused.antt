-- ===== src/Parser/Reused.antt =====
-- A reused unmarshaler against a new one (app/vmestimator/protoparser/write_request.go).
use vmestimator.Base.{
  ℕ, zero, suc, ◌≡◌, refl, ap, ◌∙◌, Bool, ◌==◌, nat_eq, Text, Option, none, some, List, [], ◌∷◌,
  ◌++◌, length, All, All-replicate, Bool-cases, Option-cases, inl, inr,
}
use vmestimator.Series.{Label, TimeSerie}
use vmestimator.Parser.{RequestState, unmarshal_series, read_request_field, unmarshal_protobuf}
use vmestimator.Parser.Fields.{
  Field, ParseError, bad_field, series_data, Outcome, ok, err, out_of_fuel, ◌>>=◌, read_fields,
  payload,
}
use vmestimator.Parser.Reuse.{
  Unmarshaler, blank_series, reset_time_series, reset, put_unmarshaler, extend,
  unmarshal_series_into, ReuseState, reuse_request_field, unmarshal_into,
}

-- A loop whose steps only differ by what a projection forgets.
module _ (next_field : Text → Option (Field × Text)) (why : ParseError) {A B : Type 0} (p : A → B)
    (step : A → Field → Outcome A) (step' : B → Field → Outcome B)
    (same : (a : A) (f : Field) → (step a f >>= λ a'. ok (p a')) ≡ step' (p a) f) where
  forgets_bind :
      (x : Outcome A) (y : Outcome B) (next : A → Outcome A) (next' : B → Outcome B)
      → (x >>= λ a. ok (p a)) ≡ y
      → ((a : A) → (next a >>= λ a'. ok (p a')) ≡ next' (p a))
      → (x >>= next >>= λ a. ok (p a)) ≡ (y >>= next')
  forgets_bind (ok a) y next next' e h = h a ∙ ap (λ z. z >>= next') e
  forgets_bind (err w) y next next' e h = ap (λ z. z >>= next') e
  forgets_bind out_of_fuel y next next' e h = ap (λ z. z >>= next') e

  pub read_fields_forget :
      (fuel : ℕ) (src : Text) (a : A)
      → (read_fields next_field why step fuel src a >>= λ a'. ok (p a'))
        ≡ read_fields next_field why step' fuel src (p a)
  unfolding read_fields
  read_fields_forget fuel [] a = refl
  read_fields_forget zero (c ∷ cs) a = refl
  read_fields_forget (suc fuel) (c ∷ cs) a =
      by_field (next_field (c ∷ cs)) (λ rest a'. read_fields_forget fuel rest a')
    where
      by_field :
          (r : Option (Field × Text))
          → ((rest : Text) (a' : A)
              → (read_fields next_field why step fuel rest a' >>= λ b. ok (p b))
                ≡ read_fields next_field why step' fuel rest (p a'))
          → (elim r as (λ x. Outcome A) [
            | none ↦ err why
            | some q ↦ step a q.0 >>= λ a'. read_fields next_field why step fuel q.1 a'
          ]
              >>= λ a'. ok (p a'))
            ≡ elim r as (λ x. Outcome B) [
              | none ↦ err why
              | some q ↦ step' (p a) q.0 >>= λ b. read_fields next_field why step' fuel q.1 b
            ]
      by_field none ih = refl
      by_field (some q) ih = forgets_bind (step a q.0) (step' (p a) q.0) _ _ (same a q.0) (ih q.1)

module _ (grow : ℕ → ℕ) (next_field : Text → Option (Field × Text)) (sum64 : Text → ℕ)
    (fp_labels : Bool) where
  abbrev seen : ReuseState grow next_field sum64 fp_labels → RequestState next_field sum64 fp_labels
  seen s = (s.0, s.2)

  unmarshal_series_into-unmarshal_series :
      (ts : TimeSerie) (src : Text) (labels_pool : List Label)
      → unmarshal_series_into grow next_field sum64 fp_labels ts src labels_pool
        ≡ unmarshal_series next_field sum64 fp_labels src labels_pool
  unfolding unmarshal_series_into unmarshal_series
  unmarshal_series_into-unmarshal_series ts src labels_pool = refl

  reuse-read :
      (s : ReuseState grow next_field sum64 fp_labels) (f : Field)
      → (reuse_request_field grow next_field sum64 fp_labels s f >>= λ s'. ok (seen s'))
        ≡ read_request_field next_field sum64 fp_labels (seen s) f
  unfolding reuse_request_field read_request_field
  reuse-read (tss, spare, labels_pool) f = elim (Bool-cases (f.num == 1)) [
    | inr other ↦ rw other refl
    | inl series ↦ rw series (by_payload (payload series_data f))
  ]
    where
      by_series :
          (rest : List TimeSerie) (x : Outcome (TimeSerie × List Label))
          → (x >>= (λ r. ok (tss ++ r.0 ∷ [], rest, r.1)) >>= λ s'. ok (seen s'))
            ≡ (x >>= λ r. ok (tss ++ r.0 ∷ [], r.1))
      by_series rest (ok r) = refl
      by_series rest (err why) = refl
      by_series rest out_of_fuel = refl

      by_payload :
          (x : Outcome Text)
          → (x
              >>= (λ bytes.
                  let (ts, spare') = extend grow (length tss) spare in
                  unmarshal_series_into grow next_field sum64 fp_labels ts bytes labels_pool
                  >>= λ r. ok (tss ++ r.0 ∷ [], spare', r.1))
              >>= λ s'. ok (seen s'))
            ≡ (x >>= λ bytes. unmarshal_series next_field sum64 fp_labels bytes labels_pool >>= λ r.
                ok (tss ++ r.0 ∷ [], r.1))
      by_payload (ok bytes) =
          let (ts, spare') = extend grow (length tss) spare in
          rw (unmarshal_series_into-unmarshal_series ts bytes labels_pool)
            (by_series spare' (unmarshal_series next_field sum64 fp_labels bytes labels_pool))
      by_payload (err why) = refl
      by_payload out_of_fuel = refl

  abbrev whole : ReuseState grow next_field sum64 fp_labels → Unmarshaler
  whole s = record { timeseries = s.0; spare = s.1; labels_pool = s.2 }

  abbrev loop : Unmarshaler → Text → Outcome (ReuseState grow next_field sum64 fp_labels)
  loop wru src =
      read_fields next_field bad_field (reuse_request_field grow next_field sum64 fp_labels)
        (length src) src ([], reset_time_series wru.timeseries wru.spare, [])

  seen_only :
      (x : Outcome (ReuseState grow next_field sum64 fp_labels))
      → (x >>= (λ s. ok (whole s)) >>= λ w. ok w.timeseries)
        ≡ (x >>= (λ s. ok (seen s)) >>= λ r. ok r.0)
  seen_only (ok s) = refl
  seen_only (err why) = refl
  seen_only out_of_fuel = refl

  reads_same :
      (wru : Unmarshaler) (src : Text)
      → (unmarshal_into grow next_field sum64 fp_labels wru src >>= λ w. ok w.timeseries)
        ≡ unmarshal_protobuf next_field sum64 fp_labels src
  unfolding unmarshal_into unmarshal_protobuf reset
  reads_same wru src =
      seen_only (loop wru src)
      ∙ ap (λ x. x >>= λ r. ok r.0)
          (read_fields_forget next_field bad_field seen
            (reuse_request_field grow next_field sum64 fp_labels)
            (read_request_field next_field sum64 fp_labels) reuse-read (length src) src
            ([], reset_time_series wru.timeseries wru.spare, []))

-- An element that refers to no request.
abbrev pub IsBlank : TimeSerie → Type 0
IsBlank ts = ts ≡ blank_series

-- An unmarshaler as the pool keeps it.
pub record IsClean (wru : Unmarshaler) : Type 0 where
  pub no_series : wru.timeseries ≡ []
  pub no_labels : wru.labels_pool ≡ []
  pub spare : All IsBlank wru.spare

reset_time_series-IsBlank :
    (tss spare : List TimeSerie) → All IsBlank spare → All IsBlank (reset_time_series tss spare)
unfolding reset_time_series
reset_time_series-IsBlank [] spare h = h
reset_time_series-IsBlank (ts ∷ tss) spare h = (refl, reset_time_series-IsBlank tss spare h)

extend-IsBlank :
    (grow : ℕ → ℕ) (n : ℕ) (spare : List TimeSerie)
    → All IsBlank spare
    → IsBlank ((extend grow n spare).0) × All IsBlank ((extend grow n spare).1)
unfolding extend
extend-IsBlank grow n [] h = (refl, All-replicate IsBlank (grow n) blank_series refl)
extend-IsBlank grow n (ts ∷ spare) h = h

-- The property holds of the result, if there is one.
abbrev pub OnOk : {A : Type 0} (Q : A → Type 0) → Outcome A → Type 0
OnOk Q (ok a) = Q a
OnOk Q (err why) = Unit {0}
OnOk Q out_of_fuel = Unit {0}

OnOk-bind :
    {A B : Type 0} (Q : A → Type 0) (R : B → Type 0) (x : Outcome A) (next : A → Outcome B)
    → OnOk Q x
    → ((a : A) → Q a → OnOk R (next a))
    → OnOk R (x >>= next)
OnOk-bind Q R (ok a) next q h = h a q
OnOk-bind Q R (err why) next q h = tt
OnOk-bind Q R out_of_fuel next q h = tt

OnOk-always : {A : Type 0} (x : Outcome A) → OnOk (λ a. Unit {0}) x
OnOk-always (ok a) = tt
OnOk-always (err why) = tt
OnOk-always out_of_fuel = tt

-- A property that the steps of a loop keep.
module _ (next_field : Text → Option (Field × Text)) (why : ParseError) {A : Type 0}
    (step : A → Field → Outcome A) (Q : A → Type 0)
    (keeps : (a : A) (f : Field) → Q a → OnOk Q (step a f)) where
  read_fields-OnOk :
      (fuel : ℕ) (src : Text) (a : A) → Q a → OnOk Q (read_fields next_field why step fuel src a)
  unfolding read_fields
  read_fields-OnOk fuel [] a q = q
  read_fields-OnOk zero (c ∷ cs) a q = tt
  read_fields-OnOk (suc fuel) (c ∷ cs) a q = elim (Option-cases (next_field (c ∷ cs))) [
    | inl bad ↦ rw (bad, read_fields) tt
    | inr ((f, rest), good) ↦
        rw (good, read_fields)
          (OnOk-bind Q Q (step a f) _ (keeps a f q) (λ a' q'. read_fields-OnOk fuel rest a' q'))
  ]

module _ (grow : ℕ → ℕ) (next_field : Text → Option (Field × Text)) (sum64 : Text → ℕ)
    (fp_labels : Bool) where
  abbrev IsBlankBehind : ReuseState grow next_field sum64 fp_labels → Type 0
  IsBlankBehind s = All IsBlank (s.1)

  reuse-IsBlankBehind :
      (s : ReuseState grow next_field sum64 fp_labels) (f : Field)
      → IsBlankBehind s
      → OnOk IsBlankBehind (reuse_request_field grow next_field sum64 fp_labels s f)
  unfolding reuse_request_field
  reuse-IsBlankBehind (tss, spare, labels_pool) f h = elim (Bool-cases (f.num == 1)) [
    | inr other ↦ rw other h
    | inl series ↦
        let (slot, behind) = extend-IsBlank grow (length tss) spare h in
        rw series (
          OnOk-bind (λ bytes. Unit {0}) IsBlankBehind (payload series_data f) _ (OnOk-always _)
            (λ bytes any.
              OnOk-bind (λ r. Unit {0}) IsBlankBehind
                (unmarshal_series_into grow next_field sum64 fp_labels
                  ((extend grow (length tss) spare).0) bytes labels_pool)
                _ (OnOk-always _) (λ r any'. behind)))
  ]

  put-IsClean : (wru : Unmarshaler) → All IsBlank wru.spare → IsClean (put_unmarshaler wru)
  unfolding put_unmarshaler reset
  put-IsClean wru h = record {
    no_series = refl;
    no_labels = refl;
    spare = reset_time_series-IsBlank wru.timeseries wru.spare h;
  }

  -- Whatever an earlier request has left in an unmarshaler, a request read into it gives the series
  -- that it gives in a new one, or the same error. And an unmarshaler that the pool kept clean is
  -- clean again when it is put back after a request that was read: it holds no series and no label,
  -- and the elements kept for later are blank.
  pub unmarshal_into-unmarshal_protobuf :
      (wru : Unmarshaler) (src : Text)
      → ((unmarshal_into grow next_field sum64 fp_labels wru src >>= λ w. ok w.timeseries)
          ≡ unmarshal_protobuf next_field sum64 fp_labels src)
        × (IsClean wru
            → OnOk
                (λ w. IsClean (put_unmarshaler w))
                (unmarshal_into grow next_field sum64 fp_labels wru src))
  unfolding unmarshal_into reset
  unmarshal_into-unmarshal_protobuf wru src = (
    reads_same grow next_field sum64 fp_labels wru src,
    λ clean.
        OnOk-bind IsBlankBehind (λ w. IsClean (put_unmarshaler w))
          (loop grow next_field sum64 fp_labels wru src) _
          (read_fields-OnOk next_field bad_field
            (reuse_request_field grow next_field sum64 fp_labels) IsBlankBehind reuse-IsBlankBehind
            (length src) src ([], reset_time_series wru.timeseries wru.spare, [])
            (reset_time_series-IsBlank wru.timeseries wru.spare clean.spare))
          (λ s h. put-IsClean (whole grow next_field sum64 fp_labels s) h),
  )
