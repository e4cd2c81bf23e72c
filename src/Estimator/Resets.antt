-- ===== src/Estimator/Resets.antt =====
-- `estimator.reset` of app/vmestimator/estimator.go, for estimators with and without `group_by`.
use mathlib.Core.Path.{subst}
use vmestimator.Base.{
  List, Text, ◌∷◌, Option, ◌⊎◌, inr, some_inj, get_elem?, ℕ, zero, suc, ◌+◌, ◌≤◌, ◌<◌, ◌≡◌, ◌≢◌,
  refl, sym, ◌∙◌, inl, arith, none, some, [], length, get_elem?-lt, lt-get_elem?, >>=-eq-some, ap,
  set, nat_eq, ◌==◌, ==_sound, Bool-cases, get_elem?-set_self, get_elem?-set_ne,
}
use vmestimator.Sketch.{Hll, HllLaws}
use vmestimator.Config.{EstimatorConfig}
use vmestimator.Config.Prepare.{IsNormal}
use vmestimator.Estimator.Bucket.{Bucket, reset_by_kind, reset_bucket}
use vmestimator.Estimator.GroupSize.{GroupSize, rotate_locked}
use vmestimator.Estimator.Idle.{IsIdle, empty-IsIdle}
use vmestimator.Estimator.State.{Estimator, with_bucket, reset_from, reset}
use vmestimator.Estimator.TurnSteps.{reset_bucket_step, reset_bucket-none}
use vmestimator.Estimator.Bounds.{IsSound, IsSame, with_bucket-Keeps}
use vmestimator.Estimator.Batches.{IsSame-refl, IsSame-trans}
use vmestimator.Estimator.New.{IsBuilt}

module _ {S : Type 0} ⦃hll : Hll S⦄ (laws : HllLaws hll) where
  -- A bucket whose maps were cleared.
  abbrev IsCleared : Bucket S → Type 0
  IsCleared b = (b.groups ≡ []) × (b.prev_groups ≡ [])

  reset_by_kind-IsCleared :
      (l : List Text) (b b' : Bucket S) (gs gs' : GroupSize S)
      → l ≢ []
      → reset_by_kind l b gs ≡ some (b', gs')
      → IsCleared b'
  unfolding reset_by_kind
  reset_by_kind-IsCleared [] b b' gs gs' ne e = absurd (ne refl)
  reset_by_kind-IsCleared (k ∷ l) b b' gs gs' ne e =
      let (gs1, counted, made) = >>=-eq-some (rotate_locked gs b.idx 0) _ e in
      subst IsCleared (ap (λ p. p.0) (some_inj made)) (refl, refl)

  with_bucket-IsCleared :
      (e e' : Estimator S) (i : ℕ) (b : Bucket S)
      → get_elem? e.buckets i ≡ some b
      → b.group_by ≢ []
      → with_bucket e i reset_bucket ≡ some e'
      → (c : Bucket S) × (e'.buckets ≡ set e.buckets i c) × IsCleared c
  unfolding with_bucket reset_bucket
  with_bucket-IsCleared e e' i b at ne runs =
      let (p, turned, made) =
        >>=-eq-some (reset_by_kind b.group_by b e.group_size) _ (rw at at runs) in
      (
        p.0,
        sym (ap (λ (x : Estimator S). x.buckets) (some_inj made)),
        reset_by_kind-IsCleared b.group_by b p.0 e.group_size p.1 ne turned,
      )

  -- From one state of the buckets to the next: those from index `i` on were cleared.
  record ClearsFrom (i : ℕ) (e e' : Estimator S) : Type 0 where
    cleared : (k : ℕ) (b : Bucket S) → i ≤ k → get_elem? e'.buckets k ≡ some b → IsCleared b
    before : (k : ℕ) → k < i → get_elem? e'.buckets k ≡ get_elem? e.buckets k

  then_rest :
      (i : ℕ) (e e1 e' : Estimator S) (c : Bucket S)
      → i < length e.buckets
      → e1.buckets ≡ set e.buckets i c
      → IsCleared c
      → ClearsFrom (i + 1) e1 e'
      → ClearsFrom i e e'
  then_rest i e e1 e' c lt bs done rest = record {
    cleared = λ k b le there. elim (Bool-cases (i == k)) [
      | inl same ↦
          let here : get_elem? e'.buckets i ≡ some c =
            rest.before i (omega arith)
            ∙ ap (λ xs. get_elem? xs i) bs
            ∙ get_elem?-set_self e.buckets i c lt in
          let at_i : get_elem? e'.buckets i ≡ some b =
            subst (λ m. get_elem? e'.buckets m ≡ some b) (sym (==_sound i k same)) there in
          subst IsCleared (some_inj (sym here ∙ at_i)) done
      | inr other ↦ rest.cleared k b (ground arith) there
    ];
    before = λ k k_lt.
        rest.before k (omega arith)
        ∙ ap (λ xs. get_elem? xs k) bs
        ∙ get_elem?-set_ne e.buckets i k c (ground arith);
  }

  reset_from-Keeps :
      (left i : ℕ) (e : Estimator S)
      → IsSound e
      → e.group_by ≢ []
      → left + i ≡ length e.buckets
      → (e' : Estimator S) × (reset_from left i e ≡ some e')
        × IsSound e'
        × IsSame e e'
        × ClearsFrom i e e'
  unfolding reset_from
  reset_from-Keeps zero i e v grouped fits = (
    e,
    refl,
    v,
    IsSame-refl e,
    record {
      cleared = λ k b le there. absurd (omega (arith, le, fits, lt-get_elem? e.buckets k there));
      before = λ k lt. refl;
    },
  )
  reset_from-Keeps (suc left) i e v grouped fits =
      let lt : i < length e.buckets = omega arith in
      let (e', runs, v', same) = with_bucket-Keeps laws e i reset_bucket v lt (λ b at ok.
        reset_bucket_step laws b e.group_size i v.balanced ok
          (inl (λ none_by. grouped (sym (v.kind i b at) ∙ none_by)))) in
      let (e'', runs', v'', same', rest) =
        reset_from-Keeps left (i + 1) e' v' (λ none_by. grouped (sym same.group_by ∙ none_by))
          (omega (arith, same.buckets)) in
      let (b, at) = get_elem?-lt e.buckets i lt in
      let (c, bs, done) =
        with_bucket-IsCleared e e' i b at (λ none_by. grouped (sym (v.kind i b at) ∙ none_by))
          runs in
      (e'', rw runs runs', v'', IsSame-trans same same', then_rest i e e' e'' c lt bs done rest)

  -- A sound estimator with `group_by` is reset without a panic: no bucket has a group of the
  -- current or of the last period, the number of groups is zero, and the estimator stays sound with
  -- its limit and its number of buckets.
  pub reset-IsIdle :
      (e : Estimator S)
      → IsSound e
      → e.group_by ≢ []
      → (e' : Estimator S) × (reset e ≡ some e')
        × IsSound e'
        × IsIdle laws e'
        × (length e'.buckets ≡ length e.buckets)
        × (e'.group_size.limit ≡ e.group_size.limit)
  unfolding reset
  reset-IsIdle e v grouped =
      let (e', runs, v', same, clears) =
        reset_from-Keeps (length e.buckets) 0 e v grouped (omega arith) in
      (
        e',
        runs,
        v',
        empty-IsIdle laws e' v' (λ k b at. clears.cleared k b (omega arith) at),
        same.buckets,
        same.limit,
      )

  first_panics :
      (left : ℕ) (e : Estimator S)
      → with_bucket e 0 reset_bucket ≡ none
      → 0 < left
      → reset_from left 0 e ≡ none
  unfolding reset_from
  first_panics zero e p lt = absurd (omega arith)
  first_panics (suc left) e p lt = rw p

  -- An estimator without `group_by` that was just made panics when it is reset: the previous sketch
  -- of its first bucket is still nil.
  pub reset-none_of_new :
      (cfg : EstimatorConfig) (n : IsNormal cfg) (e : Estimator S)
      → IsBuilt laws cfg n e
      → cfg.group_by ≡ []
      → reset e ≡ none
  unfolding reset with_bucket
  reset-none_of_new cfg n e built none_by =
      let v = built.sound in
      let (b, at) = get_elem?-lt e.buckets 0 v.some_bucket in
      let ungrouped : b.group_by ≡ [] = v.kind 0 b at ∙ built.group_by ∙ none_by in
      let panic =
        reset_bucket-none laws b e.group_size 0 v.balanced (v.each 0 b at) ungrouped
          (built.new 0 b at).2 in
      first_panics (length e.buckets) e (rw (at, panic)) v.some_bucket

  -- The bucket has what `reset` reads.
  abbrev CanReset : Bucket S → Type 0
  CanReset b = (b.group_by ≢ []) ⊎ ((prev : S) × (b.prev_sketch ≡ some prev))

  can_reset_or :
      (l : List Text) (o : Option S)
      → ((l ≢ []) ⊎ ((prev : S) × (o ≡ some prev))) ⊎ ((l ≡ []) × (o ≡ none))
  can_reset_or [] none = inr (refl, refl)
  can_reset_or [] (some prev) = inl (inr (prev, refl))
  can_reset_or (x ∷ l) o = inl (inl (λ e. cc))

  with_bucket-none :
      (e : Estimator S) (i : ℕ) (b : Bucket S)
      → get_elem? e.buckets i ≡ some b
      → reset_bucket b e.group_size ≡ none
      → with_bucket e i reset_bucket ≡ none
  unfolding with_bucket
  with_bucket-none e i b at panic = rw (at, panic) refl

  reset_from-some :
      (left i : ℕ) (e r : Estimator S)
      → IsSound e
      → left + i ≤ length e.buckets
      → reset_from left i e ≡ some r
      → IsSound r × IsSame e r
  unfolding reset_from
  reset_from-some zero i e r v fits runs =
      subst (λ x. IsSound x × IsSame e x) (some_inj runs) (v, IsSame-refl e)
  reset_from-some (suc left) i e r v fits runs =
      let (b, at) = get_elem?-lt e.buckets i (omega arith) in
      elim (can_reset_or b.group_by b.prev_sketch) [
        | inl can ↦
            let (e', here, v', same) =
              with_bucket-Keeps laws e i reset_bucket v (omega arith) (λ c at' ok.
                reset_bucket_step laws c e.group_size i v.balanced ok
                  (subst CanReset (some_inj (sym at ∙ at')) can)) in
            let (v'', same') =
              reset_from-some left (i + 1) e' r v' (omega (arith, same.buckets))
                (rw here at runs) in
            (v'', IsSame-trans same same')
        | inr (ungrouped, nil) ↦
            let panic =
              reset_bucket-none laws b e.group_size i v.balanced (v.each i b at) ungrouped nil in
            cc (rw (with_bucket-none e i b at panic) at runs)
      ]

  -- A reset that does not panic keeps a sound estimator sound, with or without `group_by`.
  pub reset-some : (e r : Estimator S) → IsSound e → reset e ≡ some r → IsSound r × IsSame e r
  unfolding reset
  reset-some e r v runs = reset_from-some (length e.buckets) 0 e r v (omega arith) runs
