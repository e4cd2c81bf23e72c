-- ===== src/Series.antt =====
-- The data that the protobuf parser hands to the rest of the program: `TimeSerie` and `Label` of
-- app/vmestimator/protoparser/write_request.go.
use vmestimator.Base.{ℕ, List, Text}

pub record Label : Type 0 where
  pub name : Text
  pub value : Text
  pub fingerprint : ℕ

pub record TimeSerie : Type 0 where
  pub labels : List Label
  pub fingerprint : ℕ
