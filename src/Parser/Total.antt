-- ===== src/Parser/Total.antt =====
-- The loops of the parser (app/vmestimator/protoparser/write_request.go) end: a field that was read
-- leaves less to read.
use vmestimator.Base.{
  ℕ, zero, suc, ◌≤◌, ◌<◌, ◌≡◌, inl, inr, arith, Bool, true, false, ◌==◌, nat_eq, Text, Option, none,
  some, List, [], ◌∷◌, length, Option-cases, if◌then◌else◌, ltb,
}
use vmestimator.Series.{Label, TimeSerie}
use vmestimator.Parser.Fields.{
  Field, ParseError, Outcome, ok, err, out_of_fuel, ◌>>=◌, payload, read_fields,
}
use vmestimator.Parser.{
  read_label_field, read_label, read_series_field, unmarshal_series, read_request_field,
  unmarshal_protobuf, parse_request_body, parse, unread, Body, BodyError, handled, refused,
  hand_over, unpacked,
}

-- It is a result or an error.
abbrev pub Ends {ℓ} : {A : Type ℓ} → Outcome A → Type 0
Ends (ok a) = Unit
Ends (err e) = Unit
Ends out_of_fuel = ⊥

-- NextField takes at least one byte.
abbrev pub Shrinks : (Text → Option (Field × Text)) → Type 0
Shrinks next_field =
    (src : Text) (f : Field) (rest : Text)
    → next_field src ≡ some (f, rest)
    → length rest < length src

>>=-Ends {ℓ κ} :
    {A : Type ℓ} {B : Type κ} (m : Outcome A) (f : A → Outcome B)
    → Ends m
    → ((a : A) → Ends (f a))
    → Ends (m >>= f)
>>=-Ends (ok a) f h g = g a
>>=-Ends (err e) f h g = tt
>>=-Ends out_of_fuel f h g = h

payload-Ends : (why : ParseError) (f : Field) → Ends (payload why f)
unfolding payload
payload-Ends why f = by_bytes f.bytes
  where
    by_bytes : (o : Option Text) → Ends (elim o [ none ↦ err why | some bytes ↦ ok bytes ])
    by_bytes none = tt
    by_bytes (some bytes) = tt

if-Ends {ℓ} :
    {A : Type ℓ} (b : Bool) (x y : Outcome A) → Ends x → Ends y → Ends (if b then x else y)
if-Ends true x y h g = h
if-Ends false x y h g = g

module _ (next_field : Text → Option (Field × Text)) (shrinks : Shrinks next_field) where
  read_fields-Ends :
      {A : Type 0} (why : ParseError) (step : A → Field → Outcome A)
      → ((a : A) (f : Field) → Ends (step a f))
      → (fuel : ℕ) (src : Text) (a : A) → length src ≤ fuel
      → Ends (read_fields next_field why step fuel src a)
  unfolding read_fields
  read_fields-Ends why step ends fuel [] a h = tt
  read_fields-Ends why step ends zero (c ∷ cs) a h = absurd (omega arith)
  read_fields-Ends why step ends (suc fuel) (c ∷ cs) a h =
      elim (Option-cases (next_field (c ∷ cs))) [
        | inl bad ↦ rw (bad, read_fields) tt
        | inr ((f, rest), good) ↦
            let less = shrinks (c ∷ cs) f rest good in
            rw (good, read_fields)
              (>>=-Ends (step a f) _ (ends a f)
                (λ a'. read_fields-Ends why step ends fuel rest a' (omega arith)))
      ]

  module _ (sum64 : Text → ℕ) (fp_labels : Bool) where
    read_label_field-Ends : (r : Text × Text) (f : Field) → Ends (read_label_field r f)
    unfolding read_label_field
    read_label_field-Ends (name, value) f =
        if-Ends (f.num == 1) _ _ (>>=-Ends (payload _ f) _ (payload-Ends _ f) (λ bytes. tt))
          (if-Ends (f.num == 2) _ _ (>>=-Ends (payload _ f) _ (payload-Ends _ f) (λ bytes. tt)) tt)

    read_label-Ends : (bytes : Text) → Ends (read_label next_field sum64 fp_labels bytes)
    unfolding read_label
    read_label-Ends bytes =
        >>=-Ends (read_fields next_field _ read_label_field (length bytes) bytes ([], [])) _
          (read_fields-Ends _ read_label_field read_label_field-Ends (length bytes) bytes ([], [])
            (omega arith))
          (λ r. tt)

    read_series_field-Ends :
        (st : List Label × Text) (f : Field)
        → Ends (read_series_field next_field sum64 fp_labels st f)
    unfolding read_series_field
    read_series_field-Ends (labels_pool, written) f =
        if-Ends (f.num == 1) _ _
          (>>=-Ends (payload _ f) _ (payload-Ends _ f) (λ bytes.
            >>=-Ends (read_label next_field sum64 fp_labels bytes) _ (read_label-Ends bytes)
              (λ l. tt)))
          tt

    unmarshal_series-Ends :
        (src : Text) (labels_pool : List Label)
        → Ends (unmarshal_series next_field sum64 fp_labels src labels_pool)
    unfolding unmarshal_series
    unmarshal_series-Ends src labels_pool =
        >>=-Ends
          (read_fields next_field _ (read_series_field next_field sum64 fp_labels) (length src) src
            (labels_pool, []))
          _
          (read_fields-Ends _ (read_series_field next_field sum64 fp_labels) read_series_field-Ends
            (length src) src (labels_pool, []) (omega arith))
          (λ r. tt)

    read_request_field-Ends :
        (st : List TimeSerie × List Label) (f : Field)
        → Ends (read_request_field next_field sum64 fp_labels st f)
    unfolding read_request_field
    read_request_field-Ends (tss, labels_pool) f =
        if-Ends (f.num == 1) _ _
          (>>=-Ends (payload _ f) _ (payload-Ends _ f) (λ bytes.
            >>=-Ends (unmarshal_series next_field sum64 fp_labels bytes labels_pool) _
              (unmarshal_series-Ends bytes labels_pool) (λ r. tt)))
          tt

    unmarshal_protobuf-Ends :
        (src : Text) → Ends (unmarshal_protobuf next_field sum64 fp_labels src)
    unfolding unmarshal_protobuf
    unmarshal_protobuf-Ends src =
        >>=-Ends
          (read_fields next_field _ (read_request_field next_field sum64 fp_labels) (length src) src
            ([], []))
          _
          (read_fields-Ends _ (read_request_field next_field sum64 fp_labels)
            read_request_field-Ends (length src) src ([], []) (omega arith))
          (λ r. tt)

    -- What a request does to the state of the callback: one call with all its series, which are at
    -- least one; no call where there are none; or a refusal, without a call.
    pub data Answers {C : Type 0} (callback : C → List TimeSerie → C) (c : C)
        : Body C → Type 0 where
      forwards :
          (ts : TimeSerie) (tss : List TimeSerie)
          → Answers callback c (handled (callback c (ts ∷ tss)))
      ignores : Answers callback c (handled c)
      refuses : (why : BodyError) → Answers callback c (refused why)

    module _ {C : Type 0} (callback : C → List TimeSerie → C) (c : C) where
      hand_over-Answers :
          (o : Outcome (List TimeSerie)) → Ends o → Answers callback c (hand_over callback o c)
      hand_over-Answers (ok []) h = ignores
      hand_over-Answers (ok (ts ∷ tss)) h = forwards ts tss
      hand_over-Answers (err e) h = refuses _
      hand_over-Answers out_of_fuel h = absurd h

      if-Answers :
          (b : Bool) (x y : Body C)
          → Answers callback c x
          → Answers callback c y
          → Answers callback c (if b then x else y)
      if-Answers true x y h g = h
      if-Answers false x y h g = g

      unpacked-Answers :
          (max_size : ℕ) (why : BodyError) (o : Option Text)
          → Answers callback c (unpacked next_field sum64 fp_labels callback max_size why o c)
      unpacked-Answers max_size why none = refuses why
      unpacked-Answers max_size why (some src) =
          if-Answers (ltb max_size (length src)) _ _ (refuses _)
            (hand_over-Answers _ (unmarshal_protobuf-Ends src))

      -- The parsing of a request body ends, whatever its bytes, when reading a field takes at least
      -- one byte: it calls the callback once, with at least one series, or leaves it uncalled, or
      -- refuses the body without a call.
      pub parse_request_body-Answers :
          (is_zstd : Text → Bool) (zstd snappy : Text → Option Text) (max_size : ℕ) (bytes : Text)
          → Answers callback c (
              parse_request_body next_field sum64 fp_labels callback is_zstd zstd snappy max_size
                bytes c)
      unfolding parse_request_body
      parse_request_body-Answers is_zstd zstd snappy max_size bytes =
          if-Answers (is_zstd bytes) _ _ (unpacked-Answers max_size _ (zstd bytes))
            (unpacked-Answers max_size _ (snappy bytes))

      pub parse-Answers :
          (is_zstd : Text → Bool) (zstd snappy : Text → Option Text) (max_size : ℕ)
          (body : Option Text)
          → Answers callback c
              (parse next_field sum64 fp_labels callback is_zstd zstd snappy max_size body c)
      unfolding parse
      parse-Answers is_zstd zstd snappy max_size none = refuses unread
      parse-Answers is_zstd zstd snappy max_size (some bytes) =
          parse_request_body-Answers is_zstd zstd snappy max_size bytes
