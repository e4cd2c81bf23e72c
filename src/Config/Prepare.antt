-- ===== src/Config/Prepare.antt =====
-- What a configuration is to satisfy once `prepare` (app/vmestimator/config.go) accepted it.
use mathlib.Core.Path.{subst}
use vmestimator.Base.{
  ℕ, ◌+◌, ◌≤◌, ◌<◌, ◌≡◌, refl, inl, inr, pos_part, Bool, true, false, not, ◌&&◌, ◌||◌, Text, codes,
  ◌==◌, list_eq, nat_eq, ltb, arith, List, [], ◌∷◌, ◌++◌, map, length, Dict, insert, has, keys, All,
  if◌then◌else◌, Bool-cases, has-insert, is_some,
}
use vmestimator.Config.{
  EstimatorConfig, label_keyword, apply_defaults, Prepared, ok, err, ◌>>=◌, plain_keys,
  count_keyword, has_prefix, is_reserved_label, check_labels, prepare_stream, prepare_streams,
  id_of, check_streams, prepare,
}

-- `__label__` stands last or nowhere.
abbrev pub KeywordLast : List Text → Type 0
KeywordLast [] = Unit {0}
KeywordLast (g ∷ []) = Unit {0}
KeywordLast (g ∷ h ∷ gs) = ((g == label_keyword) ≡ false) × KeywordLast (h ∷ gs)

pub record IsNormal (ec : EstimatorConfig) : Type 0 where
  pub precise : (4 ≤ ec.hll_precision) × (ec.hll_precision ≤ 18)
  pub limited : 0 < pos_part ec.group_limit
  pub bucketed : 0 < pos_part ec.buckets
  pub timed : 0 < ec.interval
  pub sparse : is_some ec.hll_sparse ≡ true
  pub keyword_last : KeywordLast ec.group_by

abbrev pub IsFreeLabel : Text → Type 0
IsFreeLabel k = (is_reserved_label k ≡ false) × (has_prefix (codes "by_") k ≡ false)

-- No two entries are equal.
abbrev pub AllDistinct : List Text → Type 0
AllDistinct [] = Unit {0}
AllDistinct (x ∷ xs) = All (λ y. (x == y) ≡ false) xs × AllDistinct xs

plain_keys-free : (gs : List Text) → All (λ g. (g == label_keyword) ≡ false) (plain_keys gs)
unfolding plain_keys
plain_keys-free [] = tt
plain_keys-free (g ∷ gs) = elim (Bool-cases (g == label_keyword)) [
  | inl e ↦ rw e (plain_keys-free gs)
  | inr e ↦ rw e (e, plain_keys-free gs)
]

KeywordLast-append :
    (xs : List Text) (b : Bool)
    → All (λ g. (g == label_keyword) ≡ false) xs
    → KeywordLast (xs ++ (if b then label_keyword ∷ [] else []))
KeywordLast-append [] true h = tt
KeywordLast-append [] false h = tt
KeywordLast-append (x ∷ []) true h = (h.0, tt)
KeywordLast-append (x ∷ []) false h = tt
KeywordLast-append (x ∷ y ∷ xs) b h = (h.0, KeywordLast-append (y ∷ xs) b h.1)

apply_defaults-bounds :
    (cpus : ℕ) (ec : EstimatorConfig)
    → let d = apply_defaults cpus ec in
      (0 < pos_part d.group_limit)
      × (0 < pos_part d.buckets)
      × (0 < d.interval)
      × (is_some d.hll_sparse ≡ true)
unfolding apply_defaults
apply_defaults-bounds cpus ec = ground arith

-- Filling in the defaults twice is filling them in once.
pub apply_defaults_twice :
    (cpus : ℕ) (ec : EstimatorConfig)
    → apply_defaults cpus (apply_defaults cpus ec) ≡ apply_defaults cpus ec
unfolding apply_defaults
apply_defaults_twice cpus ec = ground arith

apply_defaults-precise :
    (cpus : ℕ) (ec : EstimatorConfig)
    → (not (ec.hll_precision == 0) && (ltb ec.hll_precision 4 || ltb 18 ec.hll_precision)) ≡ false
    → (4 ≤ (apply_defaults cpus ec).hll_precision) × ((apply_defaults cpus ec).hll_precision ≤ 18)
unfolding apply_defaults
apply_defaults-precise cpus ec h = ground arith

group_by-apply_defaults :
    (cpus : ℕ) (ec : EstimatorConfig) → (apply_defaults cpus ec).group_by ≡ ec.group_by
unfolding apply_defaults
group_by-apply_defaults cpus ec = refl

ok_inj {ℓ} : {A : Type ℓ} {a b : A} → ok a ≡ ok b → a ≡ b
ok_inj e = cc

-- Inversion of a chain of checks that succeeded.
>>=-eq-ok {ℓ κ} :
    {A : Type ℓ} {B : Type κ} (checked : Prepared A) (next : A → Prepared B) {y : B}
    → (checked >>= next) ≡ ok y
    → (x : A) × (checked ≡ ok x) × (next x ≡ ok y)
>>=-eq-ok (err why) next e = cc
>>=-eq-ok (ok x) next e = (x, refl, e)

check_labels-free : (ks : List Text) → check_labels ks ≡ ok tt → All IsFreeLabel ks
unfolding check_labels
check_labels-free [] e = tt
check_labels-free (k ∷ ks) e = elim (Bool-cases (is_reserved_label k)) [
  | inl r ↦ cc (rw (r, check_labels) at e)
  | inr r ↦ elim (Bool-cases (has_prefix (codes "by_") k)) [
    | inl p ↦ cc (rw (r, p, check_labels) at e)
    | inr p ↦ ((r, p), check_labels-free ks (rw (r, p, check_labels) at e))
  ]
]

module _ (sort : List Text → List Text) (duration_string : ℕ → Text) (cpus : ℕ) where
  abbrev normal : EstimatorConfig → EstimatorConfig
  normal s = apply_defaults cpus (record s {
    group_by =
        plain_keys (sort s.group_by)
        ++ (if count_keyword (sort s.group_by) == 1 then label_keyword ∷ [] else []);
  })

  abbrev bad_precision : EstimatorConfig → Bool
  bad_precision s = not (s.hll_precision == 0) && (ltb s.hll_precision 4 || ltb 18 s.hll_precision)

  normal-IsNormal : (s : EstimatorConfig) → bad_precision s ≡ false → IsNormal (normal s)
  normal-IsNormal s h =
      let keys' : List Text =
        plain_keys (sort s.group_by)
        ++ (if count_keyword (sort s.group_by) == 1 then label_keyword ∷ [] else []) in
      let t : EstimatorConfig = record s { group_by = keys' } in
      let bounds = apply_defaults-bounds cpus t in
      record {
        precise = apply_defaults-precise cpus t h;
        limited = bounds.0;
        bucketed = bounds.1;
        timed = bounds.2;
        sparse = bounds.3;
        keyword_last = rw (group_by-apply_defaults cpus t) (
            KeywordLast-append (plain_keys (sort s.group_by)) _
              (plain_keys-free (sort s.group_by)));
      }

  prepare_stream-IsNormal :
      (s s' : EstimatorConfig) → prepare_stream sort duration_string cpus s ≡ ok s' → IsNormal s'
  unfolding prepare_stream
  prepare_stream-IsNormal s s' e = elim (Bool-cases (bad_precision s)) [
    | inl bad ↦ cc (rw (bad, prepare_stream) at e)
    | inr good ↦ elim (Bool-cases (ltb 1 (count_keyword (sort s.group_by)))) [
      | inl twice ↦ cc (rw (good, twice, prepare_stream) at e)
      | inr once ↦
          subst IsNormal (ok_inj (rw (good, once, prepare_stream) at e)) (normal-IsNormal s good)
    ]
  ]

  prepare_streams-IsNormal :
      (ss ss' : List EstimatorConfig)
      → prepare_streams sort duration_string cpus ss ≡ ok ss'
      → All IsNormal ss' × (length ss' ≡ length ss)
  unfolding prepare_streams
  prepare_streams-IsNormal [] ss' e = rw (← ok_inj e) (tt, refl)
  prepare_streams-IsNormal (s ∷ ss) ss' e =
      let (s', one, e') = >>=-eq-ok (prepare_stream sort duration_string cpus s) _ e in
      let (rest, all, made) = >>=-eq-ok (prepare_streams sort duration_string cpus ss) _ e' in
      let (normal_rest, len) = prepare_streams-IsNormal ss rest all in
      rw (← ok_inj made) ((prepare_stream-IsNormal s s' one, normal_rest), omega (arith, len))

  abbrev ids_of : List EstimatorConfig → List Text
  ids_of ecs = map (id_of sort duration_string cpus) ecs

  split_new :
      (ids : Dict Text ℕ) (id : Text) (i : ℕ) (xs : List Text)
      → All (λ y. has y (insert id i ids) ≡ false) xs
      → All (λ y. has y ids ≡ false) xs × All (λ y. (id == y) ≡ false) xs
  split_new ids id i [] h = (tt, tt)
  split_new ids id i (y ∷ xs) h =
      let (old, new) = split_new ids id i xs h.1 in
      let both : ((id == y) || has y ids) ≡ false = rw (has-insert id y i ids) at h.0 in
      ((ground (arith, both), old), (ground (arith, both), new))

  check_streams-distinct :
      (ecs : List EstimatorConfig) (i : ℕ) (ids : Dict Text ℕ)
      → check_streams sort duration_string cpus ecs i ids ≡ ok tt
      → All (λ ec. All IsFreeLabel (keys ec.labels)) ecs
        × All (λ id. has id ids ≡ false) (ids_of ecs)
        × AllDistinct (ids_of ecs)
  unfolding check_streams
  check_streams-distinct [] i ids e = (tt, tt, tt)
  check_streams-distinct (ec ∷ ecs) i ids e =
      let id = id_of sort duration_string cpus ec in
      let (u, labels, e') = >>=-eq-ok (check_labels (keys ec.labels)) _ e in
      elim (Bool-cases (has id ids)) [
        | inl old ↦ cc (rw old at e')
        | inr new ↦
            let (free, unused, distinct) =
              check_streams-distinct ecs (i + 1) (insert id i ids) (rw new at e') in
            let (unused', differ) = split_new ids id i (ids_of ecs) unused in
            ((check_labels-free (keys ec.labels) labels, free), (new, unused'), (differ, distinct))
      ]

  -- A configuration that `prepare` accepts has as many streams as before, each with every default
  -- filled in, a precision from 4 to 18 and `__label__` last if at all; no static label is reserved
  -- or begins with `by_`; and no two streams have the same id.
  pub prepare-IsNormal :
      (streams streams' : List EstimatorConfig)
      → prepare sort duration_string cpus streams ≡ ok streams'
      → (length streams' ≡ length streams)
        × All IsNormal streams'
        × All (λ ec. All IsFreeLabel (keys ec.labels)) streams'
        × AllDistinct (map (id_of sort duration_string cpus) streams')
  unfolding prepare
  prepare-IsNormal streams streams' e =
      let (ecs, all, e') = >>=-eq-ok (prepare_streams sort duration_string cpus streams) _ e in
      let (u, checked, made) = >>=-eq-ok (check_streams sort duration_string cpus ecs 0 []) _ e' in
      let (normal_all, len) = prepare_streams-IsNormal streams ecs all in
      let (free, unused, distinct) = check_streams-distinct ecs 0 [] checked in
      rw (← ok_inj made) (len, normal_all, free, distinct)
