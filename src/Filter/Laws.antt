-- ===== src/Filter/Laws.antt =====
-- What a filter accepts, and which filters are compiled (app/vmestimator/config.go).
use mathlib.Core.Path.{subst}
use vmestimator.Base.{
  sym, ap, some_inj, >>=-eq-some, ◌≡◌, ◌≢◌, refl, ◌∙◌, ◌↔◌, ◌⊎◌, inl, inr, Bool, true, false, not,
  Text, ◌==◌, list_eq, nat_eq, arith, Option, none, some, List, [], ◌∷◌, All, Bool-cases,
  Option-cases, list_beq_iff, ==_of_ne,
}
use vmestimator.Series.{Label}
use vmestimator.Filter.{
  LabelFilter, CompiledFilter, ParsedFilter, Parsed, parse_error, not_a_selector, selector, ok,
  compile_one, compile_all, compile_filters, compile_parsed, compile_groups, value_of,
  matches_value, match,
}

-- The value that a filter is tested with: that of the first label of the name, and the empty text
-- if there is none.
pub data FirstValue (name : Text) : List Label → Text → Type 0 where
  missing : FirstValue name [] []
  first : {l : Label} {ls : List Label} → l.name ≡ name → FirstValue name (l ∷ ls) l.value
  later :
      {l : Label} {ls : List Label} {val : Text}
      → l.name ≢ name
      → FirstValue name ls val
      → FirstValue name (l ∷ ls) val

FirstValue-value_of :
    (name : Text) (ls : List Label) (val : Text) → FirstValue name ls val → value_of name ls ≡ val
unfolding value_of
FirstValue-value_of name ls val missing = refl
FirstValue-value_of name (l ∷ ls) val (first e) = rw ((list_beq_iff l.name name).1 e) refl
FirstValue-value_of name (l ∷ ls) val (later ne more) =
    rw (==_of_ne l.name name ne) (FirstValue-value_of name ls val more)

value_of-FirstValue : (name : Text) (ls : List Label) → FirstValue name ls (value_of name ls)
unfolding value_of
value_of-FirstValue name [] = missing
value_of-FirstValue name (l ∷ ls) = elim (Bool-cases (l.name == name)) [
  | inl same ↦ rw same (first ((list_beq_iff l.name name).0 same))
  | inr other ↦
      rw other
        (later (λ e. cc ((list_beq_iff l.name name).1 e, other)) (value_of-FirstValue name ls))
]

-- What the value has to meet, by the parsed filter, in words of the query language: `=`, `!=`, `=~`
-- and `!~`.
pub data Meets (compile_regexp : Text → Option (Text → Bool)) (lf : ParsedFilter) (val : Text)
    : Type 0 where
  equal :
      lf.is_regexp ≡ false → lf.is_negative ≡ false → val ≡ lf.value → Meets compile_regexp lf val
  unequal :
      lf.is_regexp ≡ false → lf.is_negative ≡ true → val ≢ lf.value → Meets compile_regexp lf val
  like :
      (re : Text → Bool)
      → lf.is_regexp ≡ true
      → lf.is_negative ≡ false
      → compile_regexp lf.value ≡ some re
      → re val ≡ true
      → Meets compile_regexp lf val
  unlike :
      (re : Text → Bool)
      → lf.is_regexp ≡ true
      → lf.is_negative ≡ true
      → compile_regexp lf.value ≡ some re
      → re val ≡ false
      → Meets compile_regexp lf val

not-true : (b : Bool) → not b ≡ true → b ≡ false
not-true true e = cc
not-true false e = refl

module _ (compile_regexp : Text → Option (Text → Bool)) where
  -- The condition of a parsed filter on the labels of a series.
  abbrev pub Holds : List Label → ParsedFilter → Type 0
  Holds labels lf = (val : Text) × FirstValue lf.label labels val × Meets compile_regexp lf val

  -- What a text selects: everything, if it is empty or its selector has no group, or what meets all
  -- filters of the only group.
  abbrev pub SelectsGroups : List (List ParsedFilter) → List Label → Type 0
  SelectsGroups [] labels = Unit {0}
  SelectsGroups (lfs ∷ []) labels = All (Holds labels) lfs
  SelectsGroups (lfs ∷ more ∷ rest) labels = ⊥

  abbrev pub SelectsParsed : Parsed → List Label → Type 0
  SelectsParsed parse_error labels = ⊥
  SelectsParsed not_a_selector labels = ⊥
  SelectsParsed (selector groups) labels = SelectsGroups groups labels

  abbrev pub Selects : (Text → Parsed) → Text → List Label → Type 0
  Selects parse [] labels = Unit {0}
  Selects parse (c ∷ cs) labels = SelectsParsed (parse (c ∷ cs)) labels

  -- The compiled filter of a parsed one, by its kind.
  compile_one-cases :
      (lf : ParsedFilter) (f : LabelFilter)
      → compile_one compile_regexp lf ≡ some f
      → ((re : Text → Bool) × (lf.is_regexp ≡ true)
          × (compile_regexp lf.value ≡ some re)
          × (f ≡ record {
            label = lf.label;
            value = lf.value;
            is_negative = lf.is_negative;
            is_regexp = true;
            re = some re;
          }))
        ⊎ ((lf.is_regexp ≡ false)
            × (f ≡ record {
              label = lf.label;
              value = lf.value;
              is_negative = lf.is_negative;
              is_regexp = false;
              re = none;
            }))
  unfolding compile_one
  compile_one-cases lf f e = elim (Bool-cases lf.is_regexp) [
    | inl r ↦
        let (re, c, made) = >>=-eq-some (compile_regexp lf.value) _ (rw r at e) in
        inl (re, r, c, sym (some_inj made))
    | inr r ↦ inr (r, sym (some_inj (rw r at e)))
  ]

  Meets-matches :
      (lf : ParsedFilter) (f : LabelFilter) (val : Text)
      → compile_one compile_regexp lf ≡ some f
      → Meets compile_regexp lf val
      → matches_value f val ≡ true
  unfolding matches_value
  Meets-matches lf f val made m = elim (compile_one-cases lf f made) [
    | inl (re, r, c, it) ↦ elim m [
      | equal r' n e ↦ cc
      | unequal r' n e ↦ cc
      | like re' r' n c' e ↦ let same : re' ≡ re = some_inj (sym c' ∙ c) in rw (it, n, ← same) e
      | unlike re' r' n c' e ↦
          let same : re' ≡ re = some_inj (sym c' ∙ c) in rw (it, n, ← same, e) refl
    ]
    | inr (r, it) ↦ elim m [
      | equal r' n e ↦ rw (it, n) ((list_beq_iff val lf.value).1 e)
      | unequal r' n e ↦ rw (it, n, ==_of_ne val lf.value e) refl
      | like re' r' n c' e ↦ cc
      | unlike re' r' n c' e ↦ cc
    ]
  ]

  matches-Meets :
      (lf : ParsedFilter) (f : LabelFilter) (val : Text)
      → compile_one compile_regexp lf ≡ some f
      → matches_value f val ≡ true
      → Meets compile_regexp lf val
  unfolding matches_value
  matches-Meets lf f val made e = elim (compile_one-cases lf f made) [
    | inl (re, r, c, it) ↦ elim (Bool-cases lf.is_negative) [
      | inl n ↦ unlike re r n c (not-true (re val) (rw (it, n) at e))
      | inr n ↦ like re r n c (rw (it, n) at e)
    ]
    | inr (r, it) ↦ elim (Bool-cases lf.is_negative) [
      | inl n ↦
          let neg : (val == lf.value) ≡ false = not-true (val == lf.value) (rw (it, n) at e) in
          unequal r n (λ p. cc ((list_beq_iff val lf.value).1 p, neg))
      | inr n ↦ equal r n ((list_beq_iff val lf.value).0 (rw (it, n) at e))
    ]
  ]

  compile_one-label :
      (lf : ParsedFilter) (f : LabelFilter)
      → compile_one compile_regexp lf ≡ some f
      → f.label ≡ lf.label
  compile_one-label lf f made = elim (compile_one-cases lf f made) [
    | inl (re, r, c, it) ↦ ap (λ (g : LabelFilter). g.label) it
    | inr (r, it) ↦ ap (λ (g : LabelFilter). g.label) it
  ]

  -- One compiled filter against the condition of the parsed one.
  one-Holds :
      (lf : ParsedFilter) (f : LabelFilter) (labels : List Label)
      → compile_one compile_regexp lf ≡ some f
      → (matches_value f (value_of f.label labels) ≡ true) ↔ Holds labels lf
  one-Holds lf f labels made =
      let same = compile_one-label lf f made in
      (
        λ e. (
          value_of lf.label labels,
          value_of-FirstValue lf.label labels,
          matches-Meets lf f (value_of lf.label labels) made
              (subst (λ t. matches_value f (value_of t labels) ≡ true) same e),
        ),
        λ (val, found, m).
            let here : value_of f.label labels ≡ val =
              ap (λ t. value_of t labels) same ∙ FirstValue-value_of lf.label labels val found in
            subst (λ v. matches_value f v ≡ true) (sym here) (Meets-matches lf f val made m),
      )

  match-Holds :
      (lfs : List ParsedFilter) (fs : CompiledFilter) (labels : List Label)
      → compile_all compile_regexp lfs ≡ some fs
      → (match fs labels ≡ true) ↔ All (Holds labels) lfs
  unfolding compile_all match
  match-Holds [] fs labels e =
      subst (λ gs. (match gs labels ≡ true) ↔ Unit {0}) (some_inj e) (λ m. tt, λ m. refl)
  match-Holds (lf ∷ lfs) fs labels e =
      let (f, one, e') = >>=-eq-some (compile_one compile_regexp lf) _ e in
      let (rest, all, made) = >>=-eq-some (compile_all compile_regexp lfs) _ e' in
      let (down, up) = match-Holds lfs rest labels all in
      let (to, from) = one-Holds lf f labels one in
      subst (λ gs. (match gs labels ≡ true) ↔ All (Holds labels) (lf ∷ lfs)) (some_inj made)
        (
          λ m.
              let head : matches_value f (value_of f.label labels) ≡ true = ground arith in
              let more : match rest labels ≡ true = ground arith in (to head, down more),
          λ m. rw (from m.0) (up m.1),
        )

  ok_inj : {a b : CompiledFilter} → ok a ≡ ok b → a ≡ b
  ok_inj e = cc

  groups-Selects :
      (groups : List (List ParsedFilter)) (fs : CompiledFilter) (labels : List Label)
      → compile_groups compile_regexp groups ≡ ok fs
      → (match fs labels ≡ true) ↔ SelectsGroups groups labels
  unfolding compile_groups match
  groups-Selects [] fs labels e =
      subst (λ gs. (match gs labels ≡ true) ↔ Unit {0}) (ok_inj e) (λ m. tt, λ m. refl)
  groups-Selects (lfs ∷ []) fs labels e = elim (Option-cases (compile_all compile_regexp lfs)) [
    | inl bad ↦ cc (rw (bad, compile_groups) at e)
    | inr (gs, made) ↦
        subst (λ hs. (match hs labels ≡ true) ↔ All (Holds labels) lfs)
          (ok_inj (rw (made, compile_groups) at e)) (match-Holds lfs gs labels made)
  ]
  groups-Selects (lfs ∷ more ∷ rest) fs labels e = cc

  parsed-Selects :
      (p : Parsed) (fs : CompiledFilter) (labels : List Label)
      → compile_parsed compile_regexp p ≡ ok fs
      → (match fs labels ≡ true) ↔ SelectsParsed p labels
  unfolding compile_parsed
  parsed-Selects parse_error fs labels e = cc
  parsed-Selects not_a_selector fs labels e = cc
  parsed-Selects (selector groups) fs labels e = groups-Selects groups fs labels e

  -- A filter text that compiles accepts the labels of a series exactly when the labels meet it as it
  -- was parsed. An empty text and a selector without a group accept all. A selector of one group
  -- accepts when each of its filters is met: the value of the first label of its name, or the empty
  -- text if there is none, is the filter's text for `=`, is not for `!=`, and is matched by the
  -- regular expression made of the text for `=~`, and is not for `!~`.
  pub compile_filters-Selects :
      (parse : Text → Parsed) (filter : Text) (fs : CompiledFilter) (labels : List Label)
      → compile_filters compile_regexp parse filter ≡ ok fs
      → (match fs labels ≡ true) ↔ Selects parse filter labels
  unfolding compile_filters match
  compile_filters-Selects parse [] fs labels e =
      subst (λ gs. (match gs labels ≡ true) ↔ Unit {0}) (ok_inj e) (λ m. tt, λ m. refl)
  compile_filters-Selects parse (c ∷ cs) fs labels e = parsed-Selects (parse (c ∷ cs)) fs labels e
