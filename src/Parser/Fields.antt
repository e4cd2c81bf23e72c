-- ===== src/Parser/Fields.antt =====
-- The loop `for len(src) > 0 { src, err = fc.NextField(src) … }` that the three levels of
-- app/vmestimator/protoparser/write_request.go share, and its outcomes.
use vmestimator.Base.{ℕ, zero, suc, Text, Option, none, some, [], ◌∷◌}

-- What `FieldContext` holds after a field was read: its number, and its bytes where it has any.
pub record Field : Type 0 where
  pub num : ℕ
  pub bytes : Option Text

pub data ParseError : Type 0 where
  bad_field series_data label_data label_field label_name label_value : ParseError

pub data Outcome {ℓ} (A : Type ℓ) : Type ℓ where
  ok : A → Outcome A
  err : ParseError → Outcome A
  out_of_fuel : Outcome A

infixl 5 ◌>>=◌
abbrev pub ◌>>=◌ {ℓ κ} :
    {A : Type ℓ} {B : Type κ} (read : Outcome A) (use_it : A → Outcome B) → Outcome B
out_of_fuel >>= use_it = out_of_fuel
err why >>= use_it = err why
ok value >>= use_it = use_it value

-- fc.MessageData() and fc.Bytes(): an error where the field has none.
unfoldable pub payload : ParseError → Field → Outcome Text
payload why f = elim f.bytes [ none ↦ err why | some bytes ↦ ok bytes ]

module _ (next_field : Text → Option (Field × Text)) (why : ParseError) {A : Type 0}
    (step : A → Field → Outcome A) where
  -- At most `fuel` fields.
  unfoldable pub read_fields : ℕ → Text → A → Outcome A
  read_fields fuel [] a = ok a
  read_fields zero (c ∷ cs) a = out_of_fuel
  read_fields (suc fuel) (c ∷ cs) a = elim (next_field (c ∷ cs)) [
    | none ↦ err why
    | some r ↦ step a r.0 >>= λ a'. read_fields fuel r.1 a'
  ]
