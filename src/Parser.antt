-- ===== src/Parser.antt =====
-- The parser of remote-write requests (app/vmestimator/protoparser/write_request.go and
-- app/vmestimator/protoparser/streamparser.go). The reader of protobuf fields (easyproto), the
-- decompressors and xxhash are parameters; a digest is the list of the bytes written to it. Here
-- each request is read into new slices; Parser/Reuse has the unmarshalers of the pool.
pub mod Fields
pub mod Total
pub mod RoundTrip
pub mod Reuse
pub mod Reused
use vmestimator.Base.{
  ℕ, ◌+◌, Bool, true, false, ltb, ◌==◌, nat_eq, Text, Option, none, some, List, [], ◌∷◌, ◌++◌,
  length, drop, if◌then◌else◌,
}
use vmestimator.Series.{Label, TimeSerie}
use Fields.{
  Field, ParseError, label_data, label_name, label_value, label_field, bad_field, series_data,
  Outcome, ok, err, ◌>>=◌, read_fields, payload,
}

-- The name and the value read so far.
abbrev pub NameValue : Type 0
NameValue = Text × Text

-- The body of the loop over the fields of a label.
unfoldable pub read_label_field : NameValue → Field → Outcome NameValue
unfolding payload
read_label_field (name, value) f =
    if f.num == 1
    then (payload label_name f >>= λ bytes. ok (bytes, value))
    else if f.num == 2
    then (payload label_value f >>= λ bytes. ok (name, bytes))
    else ok (name, value)

-- The labels of the request so far, and the bytes written to the digest of the series.
abbrev pub SeriesState : Type 0
SeriesState = List Label × Text

pub data BodyError : Type 0 where
  unread bad_zstd bad_snappy too_big : BodyError
  bad_request : ParseError → BodyError

pub data Body (C : Type 0) : Type 0 where
  handled : C → Body C
  refused : BodyError → Body C
  unfinished : Body C

-- The callback gets the series of a request that has any.
abbrev pub hand_over :
    {C : Type 0} (callback : C → List TimeSerie → C) → Outcome (List TimeSerie) → C → Body C
hand_over callback (ok []) c = handled c
hand_over callback (ok (ts ∷ tss)) c = handled (callback c (ts ∷ tss))
hand_over callback (err e) c = refused (bad_request e)
hand_over callback Outcome.out_of_fuel c = unfinished

module _ (next_field : Text → Option (Field × Text)) (sum64 : Text → ℕ) (fp_labels : Bool) where
  unfoldable pub digest_label : Text → ℕ
  digest_label value = if fp_labels then sum64 value else 0

  unfoldable pub read_label : Text → Outcome Label
  unfolding read_label_field digest_label read_fields
  read_label bytes =
      read_fields next_field label_field read_label_field (length bytes) bytes ([], []) >>= λ r.
      ok (record { name = r.0; value = r.1; fingerprint = digest_label r.1 })

  -- The body of the loop over the fields of a series.
  unfoldable pub read_series_field : SeriesState → Field → Outcome SeriesState
  unfolding read_label payload
  read_series_field (labels_pool, written) f =
      if f.num == 1
      then (payload label_data f >>= λ bytes.
          read_label bytes >>= λ l. ok (labels_pool ++ l ∷ [], written ++ bytes))
      else ok (labels_pool, written)

  -- `TimeSerie.unmarshalProtobuf`.
  unfoldable pub unmarshal_series : Text → List Label → Outcome (TimeSerie × List Label)
  unfolding read_series_field read_fields
  unmarshal_series src labels_pool =
      read_fields next_field bad_field read_series_field (length src) src (labels_pool, []) >>= λ r.
      ok (record { labels = drop (length labels_pool) r.0; fingerprint = sum64 r.1 }, r.0)

  -- The series read so far, and the labels of all of them.
  abbrev pub RequestState : Type 0
  RequestState = List TimeSerie × List Label

  unfoldable pub read_request_field : RequestState → Field → Outcome RequestState
  unfolding unmarshal_series payload
  read_request_field (tss, labels_pool) f =
      if f.num == 1
      then (payload series_data f >>= λ bytes.
          unmarshal_series bytes labels_pool >>= λ r. ok (tss ++ r.0 ∷ [], r.1))
      else ok (tss, labels_pool)

  -- `writeRequestUnmarshaler.UnmarshalProtobuf`.
  unfoldable pub unmarshal_protobuf : Text → Outcome (List TimeSerie)
  unfolding read_request_field read_fields
  unmarshal_protobuf src =
      read_fields next_field bad_field read_request_field (length src) src ([], []) >>= λ r. ok r.0

  module _ {C : Type 0} (callback : C → List TimeSerie → C) where
    abbrev pub unpacked : ℕ → BodyError → Option Text → C → Body C
    unpacked max_size why none c = refused why
    unpacked max_size why (some src) c =
        if ltb max_size (length src)
        then refused too_big
        else hand_over callback (unmarshal_protobuf src) c

    module _ (is_zstd : Text → Bool) (zstd snappy : Text → Option Text) (max_size : ℕ) where
      -- `parseRequestBody`; the decompressors know the limit.
      unfoldable pub parse_request_body : Text → C → Body C
      unfolding unmarshal_protobuf
      parse_request_body bytes c =
          if is_zstd bytes
          then unpacked max_size bad_zstd (zstd bytes) c
          else unpacked max_size bad_snappy (snappy bytes) c

      -- `Parse`, with what `ReadUncompressedData` gives; `none` is an error of the reader.
      unfoldable pub parse : Option Text → C → Body C
      unfolding parse_request_body
      parse none c = refused unread
      parse (some bytes) c = parse_request_body bytes c
