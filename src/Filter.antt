-- ===== src/Filter.antt =====
-- Label filters: `compileFilters` and `compiledFilter.match` of app/vmestimator/config.go. The
-- parser of selectors and the compiler of regular expressions (metricsql) are parameters; a
-- compiled expression is the test that it stands for.
pub mod Laws
use vmestimator.Base.{
  ℕ, Bool, true, false, not, Text, ◌==◌, list_eq, nat_eq, ◌>>=◌, Option, none, some, List, [], ◌∷◌,
  if◌then◌else◌,
}
use vmestimator.Series.{Label}

pub record LabelFilter : Type 0 where
  pub label : Text
  pub value : Text
  pub is_negative : Bool
  pub is_regexp : Bool
  -- `none` is nil.
  pub re : Option (Text → Bool)

abbrev pub CompiledFilter : Type 0
CompiledFilter = List LabelFilter

-- A label filter of a parsed selector.
pub record ParsedFilter : Type 0 where
  pub label : Text
  pub value : Text
  pub is_negative : Bool
  pub is_regexp : Bool

-- What `metricsql.Parse` makes of a text.
pub data Parsed : Type 0 where
  parse_error not_a_selector : Parsed
  -- The groups of a metric selector, joined by `or`.
  selector : List (List ParsedFilter) → Parsed

pub data CompileError : Type 0 where
  cannot_parse not_metric_expr or_groups bad_regexp : CompileError

pub data Compiled : Type 0 where
  ok : CompiledFilter → Compiled
  err : CompileError → Compiled

module _ (compile_regexp : Text → Option (Text → Bool)) where
  -- One turn of the loop; `none` is an invalid regular expression.
  unfoldable pub compile_one : ParsedFilter → Option LabelFilter
  compile_one lf =
      if lf.is_regexp
      then (compile_regexp lf.value >>= λ re. some (record {
        label = lf.label;
        value = lf.value;
        is_negative = lf.is_negative;
        is_regexp = true;
        re = some re;
      }))
      else some (record {
        label = lf.label;
        value = lf.value;
        is_negative = lf.is_negative;
        is_regexp = false;
        re = none;
      })

  unfoldable pub compile_all : List ParsedFilter → Option CompiledFilter
  unfolding compile_one
  compile_all [] = some []
  compile_all (lf ∷ lfs) = do f ← compile_one lf; fs ← compile_all lfs; some (f ∷ fs)

  unfoldable pub compile_groups : List (List ParsedFilter) → Compiled
  unfolding compile_all
  compile_groups [] = ok []
  compile_groups (lfs ∷ []) = elim (compile_all lfs) [ none ↦ err bad_regexp | some fs ↦ ok fs ]
  compile_groups (lfs ∷ more ∷ rest) = err or_groups

  unfoldable pub compile_parsed : Parsed → Compiled
  unfolding compile_groups
  compile_parsed parse_error = err cannot_parse
  compile_parsed not_a_selector = err not_metric_expr
  compile_parsed (selector groups) = compile_groups groups

  unfoldable pub compile_filters : (Text → Parsed) → Text → Compiled
  unfolding compile_parsed
  compile_filters parse [] = ok []
  compile_filters parse (c ∷ cs) = compile_parsed (parse (c ∷ cs))

-- The value of the first label of that name, or the empty text.
unfoldable pub value_of : Text → List Label → Text
value_of name [] = []
value_of name (l ∷ ls) = if l.name == name then l.value else value_of name ls

-- A filter with a regular expression that was not compiled would read through a nil pointer; the
-- test is then taken as failed, which no filter made by `compile_filters` meets.
unfoldable pub matches_value : LabelFilter → Text → Bool
matches_value f val =
    let matched =
      if f.is_regexp then elim f.re [ none ↦ false | some re ↦ re val ] else (val == f.value) in
    if f.is_negative then not matched else matched

unfoldable pub match : CompiledFilter → List Label → Bool
unfolding value_of matches_value
match [] labels = true
match (f ∷ fs) labels =
    let rest = match fs labels in
    if not (matches_value f (value_of f.label labels)) then false else rest
