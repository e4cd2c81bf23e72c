-- ===== src/Parser/Reuse.antt =====
-- The unmarshaler that a request takes from a pool and gives back (`writeRequestUnmarshaler` of
-- app/vmestimator/protoparser/write_request.go): the slice of series keeps its elements from one
-- request to the next, and a series is written over what an element holds. How many free elements
-- `append` leaves behind is a parameter. On an error the unmarshaler's slices are as `Reset` left them.
use vmestimator.Base.{
  ℕ, Bool, ◌==◌, nat_eq, Text, Option, none, some, List, [], ◌∷◌, ◌++◌, length, map, drop,
  replicate, if◌then◌else◌,
}
use vmestimator.Series.{Label, TimeSerie}
use vmestimator.Parser.{read_series_field}
use vmestimator.Parser.Fields.{
  Field, bad_field, series_data, Outcome, ok, ◌>>=◌, read_fields, payload,
}

-- `spare` is what stands between the length and the capacity of the slice of series.
pub record Unmarshaler : Type 0 where
  pub timeseries : List TimeSerie
  pub spare : List TimeSerie
  pub labels_pool : List Label

abbrev pub blank_series : TimeSerie
blank_series = record { labels = []; fingerprint = 0 }

-- clear(tss), and tss[:0]
unfoldable pub reset_time_series : List TimeSerie → List TimeSerie → List TimeSerie
reset_time_series tss spare = map (λ ts. blank_series) tss ++ spare

unfoldable pub reset : Unmarshaler → Unmarshaler
unfolding reset_time_series
reset wru = record {
  timeseries = [];
  spare = reset_time_series wru.timeseries wru.spare;
  labels_pool = [];
}

-- What the pool hands out, if it has any.
unfoldable pub get_unmarshaler : Option Unmarshaler → Unmarshaler
get_unmarshaler none = record { timeseries = []; spare = []; labels_pool = [] }
get_unmarshaler (some wru) = wru

unfoldable pub put_unmarshaler : Unmarshaler → Unmarshaler
unfolding reset
put_unmarshaler wru = reset wru

module _ (grow : ℕ → ℕ) where
  -- The next element: an old one, or a new one with free ones behind it.
  unfoldable pub extend : ℕ → List TimeSerie → TimeSerie × List TimeSerie
  extend n [] = (blank_series, replicate (grow n) blank_series)
  extend n (ts ∷ spare) = (ts, spare)

  module _ (next_field : Text → Option (Field × Text)) (sum64 : Text → ℕ) (fp_labels : Bool) where
    -- `TimeSerie.unmarshalProtobuf`, on an element of the slice.
    unfoldable pub unmarshal_series_into :
        TimeSerie → Text → List Label → Outcome (TimeSerie × List Label)
    unfolding read_fields read_series_field
    unmarshal_series_into ts src labels_pool =
        read_fields next_field bad_field (read_series_field next_field sum64 fp_labels) (length src)
          src (labels_pool, [])
        >>= λ r.
            ok (record ts { labels = drop (length labels_pool) r.0; fingerprint = sum64 r.1 }, r.0)

    abbrev pub ReuseState : Type 0
    ReuseState = List TimeSerie × List TimeSerie × List Label

    unfoldable pub reuse_request_field : ReuseState → Field → Outcome ReuseState
    unfolding extend unmarshal_series_into payload
    reuse_request_field (tss, spare, labels_pool) f =
        if f.num == 1
        then (payload series_data f >>= λ bytes.
            let (ts, spare') = extend (length tss) spare in
            unmarshal_series_into ts bytes labels_pool >>= λ r. ok (tss ++ r.0 ∷ [], spare', r.1))
        else ok (tss, spare, labels_pool)

    -- `UnmarshalProtobuf`, on the unmarshaler.
    unfoldable pub unmarshal_into : Unmarshaler → Text → Outcome Unmarshaler
    unfolding reuse_request_field read_fields reset
    unmarshal_into wru src =
        read_fields next_field bad_field reuse_request_field (length src) src
          ((reset wru).timeseries, (reset wru).spare, (reset wru).labels_pool)
        >>= λ r. ok (record { timeseries = r.0; spare = r.1; labels_pool = r.2 })
