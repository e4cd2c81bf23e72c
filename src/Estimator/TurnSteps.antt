-- ===== src/Estimator/TurnSteps.antt =====
-- Rotating and resetting a bucket, and the insertion into a bucket of either kind, as steps of the
-- invariant (`estimatorBucket` of app/vmestimator/estimator.go).
use vmestimator.Base.{
  ℕ, ◌≤◌, ◌≡◌, ◌≢◌, refl, Text, Option, none, some, List, [], ◌∷◌, length, IsUnique, nat_eq, arith,
  Dict, length-set, get_elem?-set_self, get_elem?-set_ne, lt-get_elem?, ◌⊎◌, inl, inr,
}
use vmestimator.Sketch.{Hll, HllLaws}
use vmestimator.Estimator.GroupSize.{GroupSize, rotate_locked}
use vmestimator.Estimator.Bucket.{
  Bucket, GroupSketch, insert_global, insert_by_kind, insert_bucket, rotate_by_kind, rotate_bucket,
  reset_by_kind, reset_bucket,
}
use vmestimator.Estimator.Tracked.{tracked, tracked-rotate, tracked-nil, length-le-tracked}
use vmestimator.Estimator.Shares.{rotate_locked_lem}
use vmestimator.Estimator.InsertSteps.{insert_group_step}
use vmestimator.Estimator.Invariant.{IsBalanced, IsCounted, IsStep}

module _ {S : Type 0} ⦃hll : Hll S⦄ (laws : HllLaws hll) (b : Bucket S) (gs : GroupSize S) (i : ℕ)
    (bal : IsBalanced gs) (ok : IsCounted gs i b) where
  abbrev Returns : Option (Bucket S × GroupSize S) → Type 0
  Returns r = (b' : Bucket S) × (gs' : GroupSize S) × (r ≡ some (b', gs')) × IsStep i b b' gs gs'

  -- Only the sketches of the bucket change.
  new_sketches :
      (cur : S) (prev : Option S)
      → IsStep i b (record b { sketch = some cur; prev_sketch = prev }) gs gs
  new_sketches cur prev = record {
    balanced = bal;
    counted = record {
      at = ok.at;
      share = ok.share;
      slot = ok.slot;
      unique = ok.unique;
      unique_prev = ok.unique_prev;
      precise = ok.precise;
      sketched = λ e. (cur, refl);
    };
    others = λ j ne. refl;
    sizes = refl;
    rejects = refl;
    limit = refl;
    group_by = refl;
  }

  -- The maps of the bucket were replaced by ones that hold `m` groups, and its share is now `m`.
  new_maps :
      (groups prev : Dict ℕ (GroupSketch S)) (m : ℕ)
      → tracked groups prev ≡ m
      → m ≤ tracked b.groups b.prev_groups
      → (unique : IsUnique groups) (unique_prev : IsUnique prev)
      → (gs' : GroupSize S) × (rotate_locked gs b.idx m ≡ some gs')
        × IsStep i b (record b { groups = groups; prev_groups = prev }) gs gs'
  new_maps groups prev m e le unique unique_prev =
      let (gs', runs, bal', sizes, rejects, limit) =
        rotate_locked_lem laws gs i (tracked b.groups b.prev_groups) m bal ok.share ok.slot le in
      (
        gs',
        rw ok.at runs,
        record {
          balanced = bal';
          counted = record {
            at = ok.at;
            share =
                rw (sizes, e)
                  (get_elem?-set_self gs.bucket_sizes i m
                    (lt-get_elem? gs.bucket_sizes i ok.share));
            slot = rw (rejects, length-set) ok.slot;
            unique = unique;
            unique_prev = unique_prev;
            precise = ok.precise;
            sketched = ok.sketched;
          };
          others = λ j ne. rw sizes (get_elem?-set_ne gs.bucket_sizes i j m ne);
          sizes = rw sizes (length-set gs.bucket_sizes i m);
          rejects = rw rejects (length-set gs.reject_sketches i none);
          limit = limit;
          group_by = refl;
        },
      )

  pub insert_bucket_step :
      (fp key : ℕ) (values : List Text) → Returns (insert_bucket b gs fp key values)
  unfolding insert_bucket insert_global
  insert_bucket_step fp key values = by_kind b.group_by refl
    where
      by_kind : (l : List Text) → b.group_by ≡ l → Returns (insert_by_kind l b gs fp key values)
      by_kind [] e =
          let (sk, has) = ok.sketched e in
          (_, gs, rw has, new_sketches (hll.insert_hash sk fp) b.prev_sketch)
      by_kind (l ∷ ls) e = insert_group_step laws b gs i bal ok fp key values

  pub rotate_bucket_step : Returns (rotate_bucket b gs)
  unfolding rotate_bucket
  rotate_bucket_step = by_kind b.group_by refl
    where
      by_kind : (l : List Text) → b.group_by ≡ l → Returns (rotate_by_kind l b gs)
      by_kind [] e =
          let (sk, made, p) = laws.new_sketch_lem b.precision b.sparse ok.precise.0 ok.precise.1 in
          (_, gs, rw made, new_sketches sk b.sketch)
      by_kind (l ∷ ls) e =
          let (gs', runs, step) =
            new_maps [] b.groups (length b.groups) (tracked-rotate b.groups)
              (length-le-tracked b.groups b.prev_groups) tt ok.unique in
          (_, gs', rw runs, step)

  pub reset_bucket_step :
      (b.group_by ≢ []) ⊎ ((prev : S) × (b.prev_sketch ≡ some prev)) → Returns (reset_bucket b gs)
  unfolding reset_bucket
  reset_bucket_step h = by_kind b.group_by refl h
    where
      by_kind :
          (l : List Text)
          → b.group_by ≡ l
          → (b.group_by ≢ []) ⊎ ((prev : S) × (b.prev_sketch ≡ some prev))
          → Returns (reset_by_kind l b gs)
      by_kind [] e (inl grouped) = absurd (grouped e)
      by_kind [] e (inr (prev, p)) =
          let (sk, has) = ok.sketched e in
          (_, gs, rw (p, has), new_sketches (hll.reset sk) (some (hll.reset prev)))
      by_kind (l ∷ ls) e h =
          let (gs', runs, step) = new_maps [] [] 0 (tracked-nil []) (omega arith) tt tt in
          (_, gs', rw runs, step)

  -- A bucket without `group_by` has no previous sketch before its first rotation, and its reset then
  -- panics.
  pub reset_bucket-none : b.group_by ≡ [] → b.prev_sketch ≡ none → reset_bucket b gs ≡ none
  unfolding reset_bucket
  reset_bucket-none e p = rw (e, reset_bucket, p)
