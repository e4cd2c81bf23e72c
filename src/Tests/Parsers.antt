-- ===== src/Tests/Parsers.antt =====
-- The theorems on the parser at concrete inputs. A field is its number, the number of its bytes
-- and the bytes.
use vmestimator.Base.{
  ℕ, zero, suc, ◌≤◌, ◌≡◌, refl, inl, inr, arith, Bool, true, false, leb, nat_eq, Text, codes,
  Option, none, some, List, [], ◌∷◌, ◌++◌, map, length, drop, take, if◌then◌else◌, length-append,
  some_inj, Bool-cases, ap,
}
use vmestimator.Series.{Label, TimeSerie}
use vmestimator.Parser.{hand_over, parse_request_body, unmarshal_protobuf}
use vmestimator.Parser.Fields.{Field, ok, ◌>>=◌}
use vmestimator.Parser.Reuse.{Unmarshaler, put_unmarshaler, unmarshal_into}
use vmestimator.Parser.Reused.{IsClean, OnOk, unmarshal_into-unmarshal_protobuf}
use vmestimator.Parser.Total.{Shrinks}
use vmestimator.Parser.RoundTrip.{
  Writes, encode_request, seen_series, parse_request_body-encode_request,
}

-- As many bytes as `n` says, and the rest.
abbrev pub next_field : Text → Option (Field × Text)
next_field [] = none
next_field (num ∷ []) = none
next_field (num ∷ n ∷ rest) =
    if leb n (length rest)
    then some (record { num = num; bytes = some (take n rest) }, drop n rest)
    else none

abbrev put : ℕ → Text → Text
put num bytes = num ∷ length bytes ∷ bytes

length-drop : (n : ℕ) (xs : Text) → length (drop n xs) ≤ length xs
length-drop zero xs = omega arith
length-drop (suc n) [] = omega arith
length-drop (suc n) (x ∷ xs) = omega (arith, length-drop n xs)

pub shrinks : Shrinks next_field
shrinks [] f rest e = cc
shrinks (num ∷ []) f rest e = cc
shrinks (num ∷ n ∷ bytes) f rest e = elim (Bool-cases (leb n (length bytes))) [
  | inl fits ↦
      let it : drop n bytes ≡ rest = ap (λ p. p.1) (some_inj (rw fits at e)) in
      rw (← it) (omega (arith, length-drop n bytes))
  | inr cut ↦ cc (rw cut at e)
]

take_all : (xs ys : Text) → take (length xs) (xs ++ ys) ≡ xs
take_all [] ys = refl
take_all (x ∷ xs) ys = ap (λ t. x ∷ t) (take_all xs ys)

drop_all : (xs ys : Text) → drop (length xs) (xs ++ ys) ≡ ys
drop_all [] ys = refl
drop_all (x ∷ xs) ys = drop_all xs ys

writes : Writes next_field put
writes num bytes rest =
    let fits : leb (length bytes) (length (bytes ++ rest)) ≡ true =
      ground (arith, length-append bytes rest) in
    rw (fits, take_all bytes rest, drop_all bytes rest) refl

abbrev pub no_zstd : Text → Bool
no_zstd bytes = false

abbrev pub as_it_is : Text → Option Text
as_it_is bytes = some bytes

abbrev collect_series : List TimeSerie → List TimeSerie → List TimeSerie
collect_series seen tss = seen ++ tss

-- An unmarshaler that holds a series of an earlier request, with room for one more.
abbrev used : Unmarshaler
used = record {
  timeseries = record { labels = []; fingerprint = 5 } ∷ [];
  spare = record { labels = []; fingerprint = 0 } ∷ [];
  labels_pool = [];
}

abbrev same_room : ℕ → ℕ
same_room n = n

unmarshal_into-unmarshal_protobuf_example :
    ((unmarshal_into same_room next_field length true used (1 ∷ 0 ∷ []) >>= λ w. ok w.timeseries)
      ≡ unmarshal_protobuf next_field length true (1 ∷ 0 ∷ []))
    × (IsClean used
        → OnOk
            (λ w. IsClean (put_unmarshaler w))
            (unmarshal_into same_room next_field length true used (1 ∷ 0 ∷ [])))
unmarshal_into-unmarshal_protobuf_example =
    unmarshal_into-unmarshal_protobuf same_room next_field length true used (1 ∷ 0 ∷ [])

abbrev one_label : List Label
one_label = record { name = codes "job"; value = codes "a"; fingerprint = 0 } ∷ []

abbrev request : List (List Label)
request = one_label ∷ [] ∷ []

abbrev wire : Text
wire = encode_request next_field shrinks put writes length true request

parse_request_body-encode_request_example :
    parse_request_body next_field length true collect_series no_zstd as_it_is as_it_is 100 wire []
    ≡ hand_over collect_series
        (ok (map (seen_series next_field shrinks put writes length true) request))
        []
parse_request_body-encode_request_example =
    parse_request_body-encode_request next_field shrinks put writes length true collect_series
      no_zstd as_it_is as_it_is 100 request wire refl (omega arith) []
