-- ===== src/Parser/RoundTrip.antt =====
-- Reading back a request that was written field by field
-- (app/vmestimator/protoparser/write_request.go).
use vmestimator.Base.{
  ltb, inl, inr, Bool-cases, ℕ, zero, suc, ◌≤◌, ◌<◌, ◌≡◌, refl, ◌∙◌, arith, Bool, false, nat_eq,
  Text, Option, some, List, [], ◌∷◌, ◌++◌, map, length, drop, if◌then◌else◌, append_assoc,
  append-nil,
}
use vmestimator.Series.{Label, TimeSerie}
use vmestimator.Parser.Fields.{
  Field, ParseError, bad_field, label_field, Outcome, ok, err, out_of_fuel, ◌>>=◌, payload,
  read_fields,
}
use vmestimator.Parser.{
  parse_request_body, hand_over, read_label_field, digest_label, read_label, read_series_field,
  unmarshal_series, read_request_field, unmarshal_protobuf,
}
use vmestimator.Parser.Total.{Shrinks}

-- A field with bytes, written by `put`, is what `next_field` reads, whatever follows.
abbrev pub Writes : (Text → Option (Field × Text)) → (ℕ → Text → Text) → Type 0
Writes next_field put =
    (num : ℕ) (bytes rest : Text)
    → next_field (put num bytes ++ rest) ≡ some (record { num = num; bytes = some bytes }, rest)

module _ (next_field : Text → Option (Field × Text)) (shrinks : Shrinks next_field)
    (put : ℕ → Text → Text) (writes : Writes next_field put) where
  -- A message of fields with bytes.
  abbrev pub message : List (ℕ × Text) → Text
  message [] = []
  message ((num, bytes) ∷ fs) = put num bytes ++ message fs

  module _ {A : Type 0} (why : ParseError) (step : A → Field → Outcome A) where
    -- The loop over the fields themselves.
    abbrev run_fields : List (ℕ × Text) → A → Outcome A
    run_fields [] a = ok a
    run_fields ((num, bytes) ∷ fs) a =
        step a (record { num = num; bytes = some bytes }) >>= λ a'. run_fields fs a'

    read_fields-cons :
        (fuel : ℕ) (src : Text) (f : Field) (rest : Text) (a : A)
        → next_field src ≡ some (f, rest)
        → length rest < length src
        → length src ≤ suc fuel
        → read_fields next_field why step (suc fuel) src a
          ≡ (step a f >>= λ a'. read_fields next_field why step fuel rest a')
    unfolding read_fields
    read_fields-cons fuel [] f rest a e less h = absurd (omega arith)
    read_fields-cons fuel (c ∷ cs) f rest a e less h = rw (e, read_fields) refl

    bind_ext : (m : Outcome A) (f g : A → Outcome A) → ((a : A) → f a ≡ g a) → (m >>= f) ≡ (m >>= g)
    bind_ext (ok a) f g e = e a
    bind_ext (err why') f g e = refl
    bind_ext out_of_fuel f g e = refl

    read_fields-message :
        (fs : List (ℕ × Text)) (fuel : ℕ) (a : A)
        → length (message fs) ≤ fuel
        → read_fields next_field why step fuel (message fs) a ≡ run_fields fs a
    unfolding read_fields
    read_fields-message [] fuel a h = refl
    read_fields-message ((num, bytes) ∷ fs) zero a h =
        absurd (omega (arith, shrinks _ _ (message fs) (writes num bytes (message fs))))
    read_fields-message ((num, bytes) ∷ fs) (suc fuel) a h =
        let read = writes num bytes (message fs) in
        let less = shrinks _ _ (message fs) read in
        read_fields-cons fuel (message ((num, bytes) ∷ fs)) _ (message fs) a read less h
        ∙ bind_ext (step a _) _ _ (λ a'. read_fields-message fs fuel a' (omega arith))

  module _ (sum64 : Text → ℕ) (fp_labels : Bool) where
    abbrev pub encode_label : Label → Text
    encode_label l = message ((1, l.name) ∷ (2, l.value) ∷ [])

    abbrev pub label_fields : List Label → List (ℕ × Text)
    label_fields [] = []
    label_fields (l ∷ ls) = (1, encode_label l) ∷ label_fields ls

    abbrev pub encode_series : List Label → Text
    encode_series ls = message (label_fields ls)

    abbrev pub series_fields : List (List Label) → List (ℕ × Text)
    series_fields [] = []
    series_fields (ls ∷ rest) = (1, encode_series ls) ∷ series_fields rest

    abbrev pub encode_request : List (List Label) → Text
    encode_request request = message (series_fields request)

    -- A label as it is read: its fingerprint is that of its value, or 0.
    abbrev pub seen_label : Label → Label
    seen_label l = record l { fingerprint = if fp_labels then sum64 l.value else 0 }

    abbrev pub written_labels : List Label → Text
    written_labels [] = []
    written_labels (l ∷ ls) = encode_label l ++ written_labels ls

    -- A series as it is read: its fingerprint is that of the bytes of its labels.
    abbrev pub seen_series : List Label → TimeSerie
    seen_series ls = record { labels = map seen_label ls; fingerprint = sum64 (written_labels ls) }

    read_label-encode_label :
        (l : Label) → read_label next_field sum64 fp_labels (encode_label l) ≡ ok (seen_label l)
    unfolding read_label read_label_field digest_label payload
    read_label-encode_label l = rw (
        read_fields-message label_field read_label_field ((1, l.name) ∷ (2, l.value) ∷ [])
          (length (encode_label l)) ([], []) (omega arith))

    drop-length : {A : Type 0} (xs ys : List A) → drop (length xs) (xs ++ ys) ≡ ys
    drop-length [] ys = refl
    drop-length (x ∷ xs) ys = drop-length xs ys

    abbrev series_step : List Label × Text → Field → Outcome (List Label × Text)
    series_step = read_series_field next_field sum64 fp_labels

    run-label_fields :
        (ls pool : List Label) (written : Text)
        → run_fields bad_field series_step (label_fields ls) (pool, written)
          ≡ ok (pool ++ map seen_label ls, written ++ written_labels ls)
    unfolding read_series_field payload
    run-label_fields [] pool written = rw (append-nil, append-nil) refl
    run-label_fields (l ∷ ls) pool written = rw (read_label-encode_label l) (
        run-label_fields ls (pool ++ seen_label l ∷ []) (written ++ encode_label l)
        ∙ rw (append_assoc, append_assoc) refl)

    unmarshal_series-encode_series :
        (ls pool : List Label)
        → unmarshal_series next_field sum64 fp_labels (encode_series ls) pool
          ≡ ok (seen_series ls, pool ++ map seen_label ls)
    unfolding unmarshal_series
    unmarshal_series-encode_series ls pool =
        rw
          (
            read_fields-message bad_field series_step (label_fields ls) (length (encode_series ls))
                (pool, []) (omega arith),
            run-label_fields ls pool [],
            drop-length pool (map seen_label ls),
          )
          refl

    abbrev request_step :
        List TimeSerie × List Label → Field → Outcome (List TimeSerie × List Label)
    request_step = read_request_field next_field sum64 fp_labels

    abbrev all_labels : List (List Label) → List Label
    all_labels [] = []
    all_labels (ls ∷ rest) = map seen_label ls ++ all_labels rest

    run-series_fields :
        (request : List (List Label)) (tss : List TimeSerie) (pool : List Label)
        → run_fields bad_field request_step (series_fields request) (tss, pool)
          ≡ ok (tss ++ map seen_series request, pool ++ all_labels request)
    unfolding read_request_field payload
    run-series_fields [] tss pool = rw (append-nil, append-nil) refl
    run-series_fields (ls ∷ rest) tss pool = rw (unmarshal_series-encode_series ls pool) (
        run-series_fields rest (tss ++ seen_series ls ∷ []) (pool ++ map seen_label ls)
        ∙ rw (append_assoc, append_assoc) refl)

    -- A request that is written as the protobuf message of its series and labels is read back: the
    -- same series in their order, with the names and values of their labels in their order; each
    -- series with the digest of the bytes of its labels as its fingerprint, and each label with the
    -- digest of its value, or 0 where label fingerprints are off. The premises are that a field
    -- takes at least one byte and that a written field is read as it was written.
    pub unmarshal_protobuf-encode_request :
        (request : List (List Label))
        → unmarshal_protobuf next_field sum64 fp_labels (encode_request request)
          ≡ ok (map seen_series request)
    unfolding unmarshal_protobuf
    unmarshal_protobuf-encode_request request =
        rw
          (
            read_fields-message bad_field request_step (series_fields request)
                (length (encode_request request)) ([], []) (omega arith),
            run-series_fields request [] [],
          )
          refl

    -- The body of a request as `encode_request` writes it, compressed with snappy or zstd and within the size limit, makes
    -- one call of the callback with all series as they are read back, or none when there are none.
    pub parse_request_body-encode_request :
        {C : Type 0} (callback : C → List TimeSerie → C) (is_zstd : Text → Bool)
        (zstd snappy : Text → Option Text) (max_size : ℕ) (request : List (List Label))
        (bytes : Text)
        → (if is_zstd bytes then zstd bytes else snappy bytes) ≡ some (encode_request request)
        → length (encode_request request) ≤ max_size
        → (c : C)
        → parse_request_body next_field sum64 fp_labels callback is_zstd zstd snappy max_size bytes
            c
          ≡ hand_over callback (ok (map seen_series request)) c
    unfolding parse_request_body
    parse_request_body-encode_request callback is_zstd zstd snappy max_size request bytes plain fits
          c =
        let small : ltb max_size (length (encode_request request)) ≡ false = ground (arith, fits) in
        elim (Bool-cases (is_zstd bytes)) [
          | inl zipped ↦
              let it = rw zipped at plain in
              rw (zipped, it, small, unmarshal_protobuf-encode_request request) refl
          | inr other ↦
              let it = rw other at plain in
              rw (other, it, small, unmarshal_protobuf-encode_request request) refl
        ]
