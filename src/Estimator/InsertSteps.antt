-- ===== src/Estimator/InsertSteps.antt =====
-- Inserting into a bucket with `group_by` (app/vmestimator/estimator.go), as a step of the invariant.
use vmestimator.Base.{
  ℕ, ◌+◌, ◌≤◌, ◌<◌, ◌≡◌, ◌≢◌, refl, ◌∙◌, inl, inr, Text, Option, none, some, List, length,
  get_elem?, set, true, false, nat_eq, arith, lookup, insert, length-set, get_elem?-set_self,
  get_elem?-set_ne, lt-get_elem?, insert-IsUnique, leb, Bool-cases, Option-cases,
}
use vmestimator.Sketch.{Hll, HllLaws}
use vmestimator.Estimator.GroupSize.{GroupSize, allow_insert_locked}
use vmestimator.Estimator.Bucket.{
  Bucket, GroupSketch, or_copy, start_group, insert_missing, insert_group,
}
use vmestimator.Estimator.Tracked.{
  tracked, tracked-insert_old, tracked-insert_known, tracked-insert_new,
}
use vmestimator.Estimator.Shares.{IsBalanced-up, reject_lem, allow_full, allow_room}
use vmestimator.Estimator.Invariant.{IsBalanced, IsCounted, IsStep}

module _ {S : Type 0} ⦃hll : Hll S⦄ (laws : HllLaws hll) where
  module _ (b : Bucket S) (gs : GroupSize S) (i : ℕ) (bal : IsBalanced gs) (ok : IsCounted gs i b)
      (fp key : ℕ) where
    -- The group map got an entry, and the shared state may have counted it.
    with_groups :
        (gs' : GroupSize S) (v : GroupSketch S)
        → IsBalanced gs'
        → get_elem? gs'.bucket_sizes i ≡ some (tracked (insert key v b.groups) b.prev_groups)
        → ((j : ℕ) → i ≢ j → get_elem? gs'.bucket_sizes j ≡ get_elem? gs.bucket_sizes j)
        → length gs'.bucket_sizes ≡ length gs.bucket_sizes
        → gs'.reject_sketches ≡ gs.reject_sketches
        → gs'.limit ≡ gs.limit
        → IsStep i b (record b { groups = insert key v b.groups }) gs gs'
    with_groups gs' v bal' share others sizes rejects limit = record {
      balanced = bal';
      counted = record {
        at = ok.at;
        share = share;
        slot = rw rejects ok.slot;
        unique = insert-IsUnique key v b.groups ok.unique;
        unique_prev = ok.unique_prev;
        precise = ok.precise;
        sketched = ok.sketched;
      };
      others = others;
      sizes = sizes;
      rejects = rw rejects;
      limit = limit;
      group_by = refl;
    }

    -- The same shared state: the number of groups did not change.
    same_shares :
        (v : GroupSketch S)
        → tracked (insert key v b.groups) b.prev_groups ≡ tracked b.groups b.prev_groups
        → IsStep i b (record b { groups = insert key v b.groups }) gs gs
    same_shares v e = with_groups gs v bal (rw e ok.share) (λ j ne. refl) refl refl refl

    -- The outcome of an operation: it returns, and it is a step.
    abbrev Steps : Option (Bucket S × GroupSize S) → Type 0
    Steps r = (b' : Bucket S) × (gs' : GroupSize S) × (r ≡ some (b', gs')) × IsStep i b b' gs gs'

    pub started :
        (values : List Text)
        → (sk : S) × (hll.new_sketch b.precision b.sparse ≡ some sk)
          × (start_group b fp key values
              ≡ some (record b {
                groups =
                    insert key
                      (record { sketch = hll.insert_hash sk fp; values = values })
                      b.groups;
              }))
    unfolding start_group
    started values =
        let (sk, made, p) = laws.new_sketch_lem b.precision b.sparse ok.precise.0 ok.precise.1 in
        (sk, made, rw made)

    -- What `insert_missing` does after the shared state answered.
    pub on_refused :
        (values : List Text) (gs' : GroupSize S)
        → lookup key b.prev_groups ≡ none
        → allow_insert_locked gs b.idx key ≡ some (gs', false)
        → insert_missing b gs fp key values ≡ some (b, gs')
    unfolding insert_missing
    on_refused values gs' f a = rw (f, insert_missing, a)

    pub on_allowed :
        (values : List Text) (gs' : GroupSize S) (b' : Bucket S)
        → lookup key b.prev_groups ≡ none
        → allow_insert_locked gs b.idx key ≡ some (gs', true)
        → start_group b fp key values ≡ some b'
        → insert_missing b gs fp key values ≡ some (b', gs')
    unfolding insert_missing
    on_allowed values gs' b' f a s = rw (f, insert_missing, a, s)

    pub on_revived :
        (values : List Text) (p : GroupSketch S) (b' : Bucket S)
        → lookup key b.prev_groups ≡ some p
        → start_group b fp key (or_copy p.values values) ≡ some b'
        → insert_missing b gs fp key values ≡ some (b', gs)
    unfolding insert_missing
    on_revived values p b' f s = rw (f, insert_missing, s)

    rejected_step :
        lookup key b.prev_groups ≡ none
        → gs.limit ≤ gs.size
        → (values : List Text) → Steps (insert_missing b gs fp key values)
    rejected_step f full values =
        let (sk, e, noted) = reject_lem laws gs i key ok.slot in
        let gs' : GroupSize S = record gs {
          reject_sketches = set gs.reject_sketches i (some sk);
        } in
        (
          b,
          gs',
          on_refused values gs' f (rw ok.at (allow_full laws gs i key gs' full e)),
          record {
            balanced = record { total = bal.total; bounded = bal.bounded };
            counted = record {
              at = ok.at;
              share = ok.share;
              slot = rw length-set ok.slot;
              unique = ok.unique;
              unique_prev = ok.unique_prev;
              precise = ok.precise;
              sketched = ok.sketched;
            };
            others = λ j ne. refl;
            sizes = refl;
            rejects = length-set gs.reject_sketches i (some sk);
            limit = refl;
            group_by = refl;
          },
        )

    admitted_step :
        lookup key b.groups ≡ none
        → lookup key b.prev_groups ≡ none
        → gs.size < gs.limit
        → (values : List Text) → Steps (insert_missing b gs fp key values)
    admitted_step e f room values =
        let (sk, made, s) = started values in
        let v : GroupSketch S = record { sketch = hll.insert_hash sk fp; values = values } in
        let t : ℕ = tracked b.groups b.prev_groups in
        let gs' : GroupSize S = record gs {
          bucket_sizes = set gs.bucket_sizes i (t + 1);
          size = gs.size + 1;
        } in
        (
          record b { groups = insert key v b.groups },
          gs',
          on_allowed values gs' _ f (rw ok.at (allow_room laws gs i key t room ok.share)) s,
          with_groups gs' v (IsBalanced-up gs i t bal ok.share room)
              (get_elem?-set_self gs.bucket_sizes i (t + 1)
                  (lt-get_elem? gs.bucket_sizes i ok.share)
                ∙ rw (tracked-insert_new key v b.groups b.prev_groups (rw f) (rw e)))
              (λ j ne. get_elem?-set_ne gs.bucket_sizes i j (t + 1) ne)
              (length-set gs.bucket_sizes i (t + 1)) refl refl,
        )

    revived_step :
        (p : GroupSketch S)
        → lookup key b.groups ≡ none
        → lookup key b.prev_groups ≡ some p
        → (values : List Text) → Steps (insert_missing b gs fp key values)
    revived_step p e f values =
        let (sk, made, s) = started (or_copy p.values values) in
        (
          _,
          gs,
          on_revived values p _ f s,
          same_shares _
              (tracked-insert_known key _ b.groups b.prev_groups ok.unique_prev (rw f) (rw e)),
        )

    missing_step :
        lookup key b.groups ≡ none
        → (values : List Text) → Steps (insert_missing b gs fp key values)
    missing_step e values = elim (Option-cases (lookup key b.prev_groups)) [
      | inr (p, f) ↦ revived_step p e f values
      | inl f ↦ elim (Bool-cases (leb gs.limit gs.size)) [
        | inl full ↦ rejected_step f (ground arith) values
        | inr room ↦ admitted_step e f (ground arith) values
      ]
    ]

    found_step :
        (gsk : GroupSketch S)
        → lookup key b.groups ≡ some gsk
        → (values : List Text) → Steps (insert_group b gs fp key values)
    unfolding insert_group
    found_step gsk e values =
        let v : GroupSketch S = record gsk { sketch = hll.insert_hash gsk.sketch fp } in
        (
          record b { groups = insert key v b.groups },
          gs,
          rw (e, insert_group),
          same_shares v (tracked-insert_old key v b.groups b.prev_groups (rw e)),
        )

    pub on_missing :
        (values : List Text)
        → lookup key b.groups ≡ none
        → insert_group b gs fp key values ≡ insert_missing b gs fp key values
    unfolding insert_group
    on_missing values e = rw (e, insert_group)

    pub insert_group_step : (values : List Text) → Steps (insert_group b gs fp key values)
    insert_group_step values = elim (Option-cases (lookup key b.groups)) [
      | inr (gsk, e) ↦ found_step gsk e values
      | inl e ↦ rw (on_missing values e) (missing_step e values)
    ]
