-- ===== src/Estimator/New.antt =====
-- `newEstimator` (app/vmestimator/estimator.go) on a configuration that `prepare` accepted.
use vmestimator.Base.{
  ℕ, zero, suc, ◌+◌, ◌<◌, ◌≡◌, refl, sym, ap, ◌∙◌, inl, inr, pos_part, Bool, false, Text, nat_eq,
  arith, Option, none, some, List, [], ◌∷◌, length, get_elem?, replicate, if◌then◌else◌, ltb,
  Bool-cases, ◌≤◌, length-replicate, get_elem?-replicate, sum-replicate_zero, some_inj,
  lt-get_elem?, list_eq,
}
use mathlib.Core.Path.{subst}
use native.Mathlib.Nat.{zero-add}
use vmestimator.Sketch.{Hll, HllLaws}
use vmestimator.Filter
use vmestimator.Filter.{Parsed, CompiledFilter, compile_filters}
use vmestimator.Config.{EstimatorConfig, apply_defaults}
use vmestimator.Config.Prepare.{IsNormal, KeywordLast}
use vmestimator.Estimator.Bucket.{Bucket}
use vmestimator.Estimator.Tracked.{tracked-nil}
use vmestimator.Estimator.State.{
  Estimator, Created, created, refused, panics, bad_filter, has_reserved_key, misplaced_keyword,
  last_is_keyword, is_sparse, first_sketch, new_buckets, build, create, new_estimator, or_panic,
}
use vmestimator.Estimator.Invariant.{IsCounted}
use vmestimator.Estimator.Refusals.{
  Refuses, over_five, reserved, not_compiled, IsAcceptable, IsFree, has_reserved_key-IsReserved,
  has_reserved_key-IsFree,
}
use vmestimator.Estimator.Bounds.{IsSound}

KeywordLast-misplaced : (ks : List Text) → KeywordLast ks → misplaced_keyword ks ≡ false
unfolding misplaced_keyword
KeywordLast-misplaced [] h = refl
KeywordLast-misplaced (k ∷ []) h = refl
KeywordLast-misplaced (k ∷ j ∷ ks) h = rw h.0 (KeywordLast-misplaced (j ∷ ks) h.1)

-- The defaults change nothing in a configuration that has them.
pub apply_defaults-IsNormal :
    (cpus : ℕ) (ec : EstimatorConfig) → IsNormal ec → apply_defaults cpus ec ≡ ec
unfolding apply_defaults
apply_defaults-IsNormal cpus ec n =
    ground (arith, n.limited, n.bucketed, n.timed, n.precise.0, n.sparse)

module _ {S : Type 0} ⦃hll : Hll S⦄ (laws : HllLaws hll) (cfg : EstimatorConfig)
    (n : IsNormal cfg) where
  -- The bucket that the loop makes at index `i`.
  pub record IsNew (i : ℕ) (b : Bucket S) : Type 0 where
    pub at : b.idx ≡ i
    pub empty : (b.groups ≡ []) × (b.prev_groups ≡ [])
    pub no_prev : b.prev_sketch ≡ none
    pub precision : b.precision ≡ cfg.hll_precision
    pub group_by : b.group_by ≡ cfg.group_by
    pub sketched : b.group_by ≡ [] → (sk : S) × (b.sketch ≡ some sk)

  first_sketch_lem :
      (ks : List Text)
      → (sk : Option S) × (first_sketch cfg ks ≡ some sk) × (ks ≡ [] → (s : S) × (sk ≡ some s))
  unfolding first_sketch
  first_sketch_lem [] =
      let (sk, made, p) =
        laws.new_sketch_lem cfg.hll_precision (is_sparse cfg) n.precise.0 n.precise.1 in
      (some sk, rw made, λ e. (sk, refl))
  first_sketch_lem (k ∷ ks) = (none, refl, λ e. cc)

  IsNew-cons :
      (i : ℕ) (b : Bucket S) (rest : List (Bucket S))
      → IsNew i b
      → ((j : ℕ) (c : Bucket S) → get_elem? rest j ≡ some c → IsNew (i + 1 + j) c)
      → (j : ℕ) (c : Bucket S) → get_elem? (b ∷ rest) j ≡ some c
      → IsNew (i + j) c
  IsNew-cons i b rest first more zero c e =
      let same : i + 0 ≡ i = omega arith in rw same (subst (IsNew i) (some_inj e) first)
  IsNew-cons i b rest first more (suc j) c e =
      let next : i + suc j ≡ i + 1 + j = omega arith in rw next (more j c e)

  new_buckets_lem :
      (left i : ℕ)
      → (bs : List (Bucket S)) × (new_buckets cfg left i ≡ some bs)
        × (length bs ≡ left)
        × ((j : ℕ) (b : Bucket S) → get_elem? bs j ≡ some b → IsNew (i + j) b)
  unfolding new_buckets
  new_buckets_lem zero i = ([], refl, refl, λ j b e. cc)
  new_buckets_lem (suc left) i =
      let (sk, made, ready) = first_sketch_lem cfg.group_by in
      let (rest, more, len, each) = new_buckets_lem left (i + 1) in
      let b : Bucket S = record {
        idx = i;
        group_by = cfg.group_by;
        interval = cfg.interval;
        calculate_churn = cfg.calculate_churn;
        filter = cfg.filter;
        precision = cfg.hll_precision;
        sparse = is_sparse cfg;
        labels = cfg.labels;
        has_label_keyword = last_is_keyword cfg.group_by;
        sketch = sk;
        prev_sketch = none;
        groups = [];
        prev_groups = [];
      } in
      (
        b ∷ rest,
        rw (made, more),
        omega (arith, len),
        IsNew-cons i b rest
            (record {
              at = refl;
              empty = (refl, refl);
              no_prev = refl;
              precision = refl;
              group_by = refl;
              sketched = ready;
            })
            each,
      )

  -- The estimator that `build` makes.
  pub record IsBuilt (e : Estimator S) : Type 0 where
    pub sound : IsSound e
    pub cfg_kept : e.cfg ≡ cfg
    pub group_by : e.group_by ≡ cfg.group_by
    pub limit : e.group_size.limit ≡ pos_part cfg.group_limit
    pub size : e.group_size.size ≡ 0
    pub buckets : length e.buckets ≡ pos_part cfg.buckets
    pub new :
        (i : ℕ) (b : Bucket S)
        → get_elem? e.buckets i ≡ some b
        → (b.groups ≡ []) × (b.prev_groups ≡ []) × (b.prev_sketch ≡ none)

  new-IsCounted :
      (limit size count i : ℕ) (b : Bucket S)
      → i < count
      → IsNew i b
      → IsCounted
          (record {
            limit = limit;
            size = size;
            bucket_sizes = replicate count 0;
            reject_sketches = replicate count none;
          })
          i
          b
  new-IsCounted limit size count i b lt fresh = record {
    at = fresh.at;
    share =
        get_elem?-replicate count i 0 lt
        ∙ sym (ap some (rw (fresh.empty.0, fresh.empty.1) (tracked-nil [])));
    slot = rw length-replicate lt;
    unique = rw fresh.empty.0 tt;
    unique_prev = rw fresh.empty.1 tt;
    precise = rw fresh.precision n.precise;
    sketched = fresh.sketched;
  }

  pub build-IsBuilt :
      (id : Text) (cf : CompiledFilter)
      → (e : Estimator S) × (build id cfg cf ≡ some e) × IsBuilt e × (e.compiled_filter ≡ cf)
  unfolding build
  build-IsBuilt id cf =
      let (bs, made, len, each) = new_buckets_lem (pos_part cfg.buckets) 0 in
      let k : ℕ = pos_part cfg.buckets in
      let fresh : (i : ℕ) (b : Bucket S) → get_elem? bs i ≡ some b → IsNew i b =
        λ i b e. subst (λ t. IsNew t b) (zero-add i) (each i b e) in
      (
        record {
          id = id;
          cfg = cfg;
          group_by = cfg.group_by;
          group_size = record {
            limit = pos_part cfg.group_limit;
            size = 0;
            bucket_sizes = replicate k 0;
            reject_sketches = replicate k none;
          };
          compiled_filter = cf;
          has_label_keyword = last_is_keyword cfg.group_by;
          min_cardinality = cfg.min_cardinality;
          buckets = bs;
          insert_total = 0;
        },
        rw made,
        record {
          sound = record {
            some_bucket = rw len n.bucketed;
            balanced = record { total = sym (sum-replicate_zero k); bounded = omega arith };
            each = λ i b e.
                new-IsCounted (pos_part cfg.group_limit) 0 k i b (rw len at (lt-get_elem? bs i e))
                  (fresh i b e);
            kind = λ i b e. (fresh i b e).group_by;
            shares = rw (length-replicate, len);
          };
          cfg_kept = refl;
          group_by = refl;
          limit = refl;
          size = refl;
          buckets = len;
          new = λ i b e. ((fresh i b e).empty.0, (fresh i b e).empty.1, (fresh i b e).no_prev);
        },
        refl,
      )

  module _ (sort : List Text → List Text) (duration_string : ℕ → Text) (parse : Text → Parsed)
      (compile_regexp : Text → Option (Text → Bool)) where
    -- What becomes of the configuration.
    abbrev pub Makes : Created S → Type 0
    Makes (refused why) = Refuses parse compile_regexp cfg why
    Makes (created e) = IsBuilt e × IsAcceptable parse compile_regexp cfg e.compiled_filter
    Makes panics = ⊥

    with_filter :
        (id : Text) (r : Filter.Compiled)
        → length cfg.group_by ≤ 5
        → IsFree cfg.group_by
        → compile_filters compile_regexp parse cfg.filter ≡ r
        → Makes (elim r [
          | Filter.err e ↦ refused (bad_filter e)
          | Filter.ok cf ↦
              if misplaced_keyword cfg.group_by then panics else or_panic (build id cfg cf)
        ])
    with_filter id (Filter.err why) few free e = not_compiled why few free e
    with_filter id (Filter.ok cf) few free e =
        let (x, made, built, filter) = build-IsBuilt id cf in
        rw (KeywordLast-misplaced cfg.group_by n.keyword_last, made)
          (built, record { few = few; free = free; compiled = e ∙ ap Filter.ok (sym filter) })

    create-Makes : Makes (create sort duration_string parse compile_regexp cfg)
    unfolding create
    create-Makes = elim (Bool-cases (ltb 5 (length cfg.group_by))) [
      | inl many ↦ rw many (over_five (ground (arith, many)))
      | inr five ↦ elim (Bool-cases (has_reserved_key cfg.group_by)) [
        | inl bad ↦
            let (i, k, at, it) = has_reserved_key-IsReserved cfg.group_by bad in
            rw (five, bad) (reserved i k (ground (arith, five)) at it)
        | inr free ↦
            rw (five, free)
              (with_filter _ (compile_filters compile_regexp parse cfg.filter)
                (ground (arith, five)) (has_reserved_key-IsFree cfg.group_by free) refl)
      ]
    ]

    new_estimator-create :
        (cpus : ℕ)
        → new_estimator {S = S} sort duration_string parse compile_regexp cpus cfg
          ≡ create sort duration_string parse compile_regexp cfg
    unfolding new_estimator
    new_estimator-create cpus =
        ap (λ (c : EstimatorConfig). create {S = S} sort duration_string parse compile_regexp c)
          (apply_defaults-IsNormal cpus cfg n)

    -- On a configuration that `prepare` accepted, `newEstimator` does not panic. If it refuses it,
    -- the reason is true of it: more than five keys; else a key `__global__` or `__group__`; else a
    -- filter that does not compile. If it makes an estimator, none of the three is true; the
    -- estimator has the filter as compiled, is sound, has the configured limit and number of
    -- buckets, and no group in any.
    pub new_estimator-Makes :
        (cpus : ℕ)
        → Makes (new_estimator {S = S} sort duration_string parse compile_regexp cpus cfg)
    new_estimator-Makes cpus = subst Makes (sym (new_estimator-create cpus)) create-Makes
