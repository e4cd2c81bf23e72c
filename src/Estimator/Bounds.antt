-- ===== src/Estimator/Bounds.antt =====
-- The invariant of a whole estimator (app/vmestimator/estimator.go), and its operations on one bucket.
use mathlib.Core.Path.{subst, subst₂}
use vmestimator.Base.{
  ℕ, ◌+◌, ◌%◌, ◌≤◌, ◌<◌, ◌≡◌, ◌≢◌, refl, sym, ◌∙◌, inl, inr, Text, nat_eq, ◌==◌, arith, Option,
  some, List, length, get_elem?, set, Bool-cases, length-set, get_elem?-lt, lt-get_elem?,
  get_elem?-set_self, get_elem?-set_ne, some_inj,
}
use vmestimator.Sketch.{Hll, HllLaws}
use vmestimator.Estimator.GroupSize.{GroupSize}
use vmestimator.Estimator.Bucket.{Bucket, insert_bucket, rotate_bucket}
use vmestimator.Estimator.State.{Estimator, with_bucket, insert_at, rotate_at}
use vmestimator.Estimator.Invariant.{IsBalanced, IsCounted, IsStep}
use vmestimator.Estimator.TurnSteps.{insert_bucket_step, rotate_bucket_step}

pub record IsSound {S : Type 0} (e : Estimator S) : Type 0 where
  pub some_bucket : 0 < length e.buckets
  pub balanced : IsBalanced e.group_size
  pub each : (i : ℕ) (b : Bucket S) → get_elem? e.buckets i ≡ some b → IsCounted e.group_size i b
  pub kind : (i : ℕ) (b : Bucket S) → get_elem? e.buckets i ≡ some b → b.group_by ≡ e.group_by
  pub shares : length e.group_size.bucket_sizes ≡ length e.buckets

-- What an operation on the buckets leaves alone.
pub record IsSame {S : Type 0} (e e' : Estimator S) : Type 0 where
  pub buckets : length e'.buckets ≡ length e.buckets
  pub limit : e'.group_size.limit ≡ e.group_size.limit
  pub group_by : e'.group_by ≡ e.group_by
  pub filter : e'.compiled_filter ≡ e.compiled_filter
  pub keyword : e'.has_label_keyword ≡ e.has_label_keyword

module _ {S : Type 0} where
  -- The share of a bucket does not depend on the other fields of the shared state.
  IsCounted-other :
      (gs gs' : GroupSize S) (j : ℕ) (b : Bucket S)
      → get_elem? gs'.bucket_sizes j ≡ get_elem? gs.bucket_sizes j
      → length gs'.reject_sketches ≡ length gs.reject_sketches
      → IsCounted gs j b
      → IsCounted gs' j b
  IsCounted-other gs gs' j b same rejects ok = record {
    at = ok.at;
    share = same ∙ ok.share;
    slot = rw rejects ok.slot;
    unique = ok.unique;
    unique_prev = ok.unique_prev;
    precise = ok.precise;
    sketched = ok.sketched;
  }

  module _ (e : Estimator S) (i : ℕ) (b b' : Bucket S) (gs' : GroupSize S) (v : IsSound e)
      (at : get_elem? e.buckets i ≡ some b) (step : IsStep i b b' e.group_size gs') where
    abbrev stepped : Estimator S
    stepped = record e { buckets = set e.buckets i b'; group_size = gs' }

    each_stepped : (j : ℕ) (c : Bucket S) → get_elem? stepped.buckets j ≡ some c → IsCounted gs' j c
    each_stepped j c found = elim (Bool-cases (i == j)) [
      | inl same ↦
          let here : i ≡ j = ground arith in
          let mine : get_elem? stepped.buckets i ≡ some b' =
            get_elem?-set_self e.buckets i b' (lt-get_elem? e.buckets i at) in
          subst₂ (λ k x. IsCounted gs' k x) here
            (some_inj
              (sym mine ∙ subst (λ k. get_elem? stepped.buckets k ≡ some c) (sym here) found))
            step.counted
      | inr other ↦
          let ne : i ≢ j = ground arith in
          let old : get_elem? e.buckets j ≡ some c =
            sym (get_elem?-set_ne e.buckets i j b' ne) ∙ found in
          IsCounted-other e.group_size gs' j c (step.others j ne) step.rejects (v.each j c old)
    ]

    kind_stepped :
        (j : ℕ) (c : Bucket S) → get_elem? stepped.buckets j ≡ some c → c.group_by ≡ e.group_by
    kind_stepped j c found = elim (Bool-cases (i == j)) [
      | inl same ↦
          let here : i ≡ j = ground arith in
          let mine : get_elem? stepped.buckets i ≡ some b' =
            get_elem?-set_self e.buckets i b' (lt-get_elem? e.buckets i at) in
          let it : b' ≡ c =
            some_inj
              (sym mine ∙ subst (λ k. get_elem? stepped.buckets k ≡ some c) (sym here) found) in
          subst (λ (x : Bucket S). x.group_by ≡ e.group_by) it (step.group_by ∙ v.kind i b at)
      | inr other ↦ v.kind j c (sym (get_elem?-set_ne e.buckets i j b' (ground arith)) ∙ found)
    ]

    pub stepped-IsSound : IsSound stepped
    stepped-IsSound = record {
      some_bucket = rw length-set v.some_bucket;
      balanced = step.balanced;
      each = each_stepped;
      kind = kind_stepped;
      shares = step.sizes ∙ v.shares ∙ sym (length-set e.buckets i b');
    }

module _ {S : Type 0} ⦃hll : Hll S⦄ (laws : HllLaws hll) where
  -- It returns a sound estimator with the same settings.
  abbrev pub Keeps : Estimator S → Option (Estimator S) → Type 0
  Keeps e r = (e' : Estimator S) × (r ≡ some e') × IsSound e' × IsSame e e'

  pub with_bucket-Keeps :
      (e : Estimator S) (i : ℕ) (op : Bucket S → GroupSize S → Option (Bucket S × GroupSize S))
      → IsSound e
      → i < length e.buckets
      → ((b : Bucket S)
          → get_elem? e.buckets i ≡ some b
          → IsCounted e.group_size i b
          → (b' : Bucket S) × (gs' : GroupSize S) × (op b e.group_size ≡ some (b', gs'))
            × IsStep i b b' e.group_size gs')
      → Keeps e (with_bucket e i op)
  unfolding with_bucket
  with_bucket-Keeps e i op v lt step =
      let (b, at) = get_elem?-lt e.buckets i lt in
      let (b', gs', runs, s) = step b at (v.each i b at) in
      (
        stepped e i b b' gs' v at s,
        rw (at, runs),
        stepped-IsSound e i b b' gs' v at s,
        record {
          buckets = length-set e.buckets i b';
          limit = s.limit;
          group_by = refl;
          filter = refl;
          keyword = refl;
        },
      )

  pub insert_at-Keeps :
      (e : Estimator S) (i fp key : ℕ) (values : List Text)
      → IsSound e
      → i < length e.buckets
      → Keeps e (insert_at e i fp key values)
  unfolding insert_at
  insert_at-Keeps e i fp key values v lt =
      with_bucket-Keeps e i (λ b gs. insert_bucket b gs fp key values) v lt
        λ b at ok. insert_bucket_step laws b e.group_size i v.balanced ok fp key values

  -- A tick of the rotation keeps a sound estimator sound and never panics; the next index is again
  -- one of a bucket.
  pub rotate_at-IsSound :
      (e : Estimator S) (i : ℕ)
      → IsSound e
      → i < length e.buckets
      → (e' : Estimator S) × (rotate_at e i ≡ some (e', (i + 1) % length e.buckets))
        × IsSound e'
        × ((i + 1) % length e.buckets < length e'.buckets)
        × (e'.group_size.size ≤ e.group_size.limit)
  unfolding rotate_at
  rotate_at-IsSound e i v lt =
      let (e', runs, sound, same) =
        with_bucket-Keeps e i rotate_bucket v lt
          (λ b at ok. rotate_bucket_step laws b e.group_size i v.balanced ok) in
      (
        e',
        rw runs,
        sound,
        grind (arith, same.buckets, v.some_bucket),
        omega (arith, sound.balanced.bounded, same.limit),
      )
