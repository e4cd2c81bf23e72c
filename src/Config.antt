-- ===== src/Config.antt =====
-- The configuration of the streams (app/vmestimator/config.go). Durations are nanoseconds and not
-- negative. Sorting of strings and the printing of a duration (Go's library) and the number of
-- available processors are parameters.
pub mod Prepare
use vmestimator.Base.{
  ℕ, zero, suc, ◌+◌, ◌*◌, min, max, ℤ, pos, pos_part, is_negative, leb_ℤ, Bool, true, false, not,
  ◌&&◌, ◌||◌, Text, codes, ◌==◌, list_eq, nat_eq, ltb, leb, Option, none, some, List, [], ◌∷◌, ◌++◌,
  length, Dict, lookup, insert, has, keys, if◌then◌else◌,
}

abbrev pub label_keyword : Text
label_keyword = codes "__label__"

abbrev pub minute : ℕ
minute = 60_000_000_000

pub record EstimatorConfig : Type 0 where
  pub filter : Text
  pub group_by : List Text
  pub group_limit : ℤ
  pub labels : Dict Text Text
  pub interval : ℕ
  pub calculate_churn : Bool
  pub buckets : ℤ
  pub hll_precision : ℕ
  -- `none` is nil.
  pub hll_sparse : Option Bool
  pub min_cardinality : ℤ

-- Labels that are missing and labels that are empty are the same list here.
unfoldable pub apply_defaults : ℕ → EstimatorConfig → EstimatorConfig
apply_defaults available_cpus ec = record ec {
  interval = if ec.interval == 0 then 5 * minute else ec.interval;
  group_limit = if leb_ℤ ec.group_limit (pos 0) then pos 10000 else ec.group_limit;
  buckets =
      if leb_ℤ ec.buckets (pos 0) then pos (max 4 (min 64 (2 * available_cpus))) else ec.buckets;
  hll_precision = if ec.hll_precision == 0 then 14 else ec.hll_precision;
  hll_sparse = elim ec.hll_sparse [ none ↦ some true | some b ↦ some b ];
}

-- strings.Join(keys, ",")
unfoldable pub join_comma : List Text → Text
join_comma [] = []
join_comma (k ∷ []) = k
join_comma (k ∷ j ∷ ks) = k ++ (codes "," ++ join_comma (j ∷ ks))

abbrev pub or_empty : Option Text → Text
or_empty none = []
or_empty (some v) = v

unfoldable pub print_labels : Dict Text Text → List Text → Text
print_labels labels [] = []
print_labels labels (k ∷ ks) =
    k ++ (codes "=" ++ (or_empty (lookup k labels) ++ (0 ∷ print_labels labels ks)))

module _ (sort : List Text → List Text) (duration_string : ℕ → Text) where
  unfoldable pub estimator_id : Dict Text Text → List Text → ℕ → Text → Text
  unfolding join_comma print_labels
  estimator_id labels group_by interval filter =
      let group_by_key =
        if leb (length group_by) 0 then codes "__global__" else join_comma group_by in
      0 ∷ codes "labels="
      ++ (print_labels labels (sort (keys labels))
          ++ (0 ∷ codes "group_by="
              ++ (group_by_key
                  ++ (0 ∷ codes "interval="
                      ++ (duration_string interval ++ (0 ∷ codes "filter=" ++ filter))))))

pub data PrepareError : Type 0 where
  invalid_precision repeated_label_keyword reserved_label reserved_prefix duplicate : PrepareError

pub data Prepared {ℓ} (A : Type ℓ) : Type ℓ where
  ok : A → Prepared A
  err : PrepareError → Prepared A

infixl 5 ◌>>=◌
abbrev pub ◌>>=◌ {ℓ κ} :
    {A : Type ℓ} {B : Type κ} (checked : Prepared A) (next : A → Prepared B) → Prepared B
err why >>= next = err why
ok x >>= next = next x

-- The keys other than `__label__`, in their order, and how often that one occurs.
unfoldable pub plain_keys : List Text → List Text
plain_keys [] = []
plain_keys (g ∷ gs) = if g == label_keyword then plain_keys gs else g ∷ plain_keys gs

unfoldable pub count_keyword : List Text → ℕ
count_keyword [] = 0
count_keyword (g ∷ gs) = if g == label_keyword then count_keyword gs + 1 else count_keyword gs

unfoldable pub has_prefix : Text → Text → Bool
has_prefix [] s = true
has_prefix (p ∷ ps) [] = false
has_prefix (p ∷ ps) (c ∷ cs) = p == c && has_prefix ps cs

unfoldable pub is_reserved_label : Text → Bool
is_reserved_label k =
    (k == codes "interval")
    || ((k == codes "filter") || ((k == codes "group_by_keys") || (k == codes "group_by_values")))

unfoldable pub check_labels : List Text → Prepared (Unit {0})
unfolding is_reserved_label has_prefix
check_labels [] = ok tt
check_labels (k ∷ ks) =
    let rest = check_labels ks in
    if is_reserved_label k
    then err reserved_label
    else if has_prefix (codes "by_") k
    then err reserved_prefix
    else rest

module _ (sort : List Text → List Text) (duration_string : ℕ → Text) (available_cpus : ℕ) where
  -- One turn of the first loop of `prepare`.
  unfoldable pub prepare_stream : EstimatorConfig → Prepared EstimatorConfig
  unfolding plain_keys count_keyword apply_defaults
  prepare_stream stream =
      let sorted = sort stream.group_by in
      let p = stream.hll_precision in
      if not (p == 0) && (ltb p 4 || ltb 18 p)
      then err invalid_precision
      else if ltb 1 (count_keyword sorted)
      then err repeated_label_keyword
      else ok (
          apply_defaults available_cpus (record stream {
            group_by =
                plain_keys sorted ++ (if count_keyword sorted == 1 then label_keyword ∷ [] else []);
          }))

  unfoldable pub prepare_streams : List EstimatorConfig → Prepared (List EstimatorConfig)
  unfolding prepare_stream
  prepare_streams [] = ok []
  prepare_streams (s ∷ ss) = do s' ← prepare_stream s; ss' ← prepare_streams ss; ok (s' ∷ ss')

  unfoldable pub id_of : EstimatorConfig → Text
  unfolding estimator_id
  id_of ec = estimator_id sort duration_string ec.labels ec.group_by ec.interval ec.filter

  -- The second loop, with the ids seen so far and their positions.
  unfoldable pub check_streams : List EstimatorConfig → ℕ → Dict Text ℕ → Prepared (Unit {0})
  unfolding check_labels id_of
  check_streams [] i ids = ok tt
  check_streams (ec ∷ ecs) i ids = do
    u ← check_labels (keys ec.labels)
    let rest = check_streams ecs (i + 1) (insert (id_of ec) i ids)
    if has (id_of ec) ids then err duplicate else rest

  unfoldable pub prepare : List EstimatorConfig → Prepared (List EstimatorConfig)
  unfolding prepare_streams check_streams
  prepare streams = do
    streams' ← prepare_streams streams
    u ← check_streams streams' 0 []
    ok streams'
