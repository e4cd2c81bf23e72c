-- ===== src/Estimator/Placement.antt =====
-- Where `estimatorBucket.insert` of app/vmestimator/estimator.go puts the fingerprint of a group.
use vmestimator.Base.{
  ℕ, ◌+◌, ◌≤◌, ◌<◌, ◌≡◌, ◌≢◌, refl, sym, ==_of_ne, ◌∙◌, inl, inr, Text, Option, none, some, List,
  [], ◌∷◌, get_elem?, set, nat_eq, arith, lookup, insert, leb, Bool-cases, Option-cases,
  lookup-insert, ==_refl,
}
use vmestimator.Sketch.{Hll, HllLaws}
use vmestimator.Estimator.GroupSize.{GroupSize}
use vmestimator.Estimator.Bucket.{
  Bucket, GroupSketch, or_copy, insert_missing, insert_group, insert_by_kind, insert_bucket,
}
use vmestimator.Estimator.Tracked.{tracked}
use vmestimator.Estimator.Shares.{Notes, reject_lem, allow_full, allow_room}
use vmestimator.Estimator.Invariant.{IsBalanced, IsCounted}
use vmestimator.Estimator.InsertSteps.{started, on_refused, on_allowed, on_revived, on_missing}

-- Nothing but the group `key` changed in the bucket.
pub record IsOnlyAt {S : Type 0} (key : ℕ) (b b' : Bucket S) : Type 0 where
  pub fields : b' ≡ record b { groups = b'.groups }
  pub others : (k : ℕ) → k ≢ key → lookup k b'.groups ≡ lookup k b.groups

-- What happened to a fingerprint of the group `key`.
pub data Placed {S : Type 0} ⦃hll : Hll S⦄ (laws : HllLaws hll) (b : Bucket S) (gs : GroupSize S)
    (fp key : ℕ) (values : List Text) (b' : Bucket S) (gs' : GroupSize S) : Type 0 where
  -- The group is there.
  joined :
      (g : GroupSketch S)
      → lookup key b.groups ≡ some g
      → lookup key b'.groups
        ≡ some (record { sketch = hll.insert_hash g.sketch fp; values = g.values })
      → IsOnlyAt key b b'
      → gs' ≡ gs
      → Placed laws b gs fp key values b' gs'
  -- The group was there in the last period: it starts again outside the limit.
  revived :
      (p : GroupSketch S) (sk : S)
      → lookup key b.groups ≡ none
      → lookup key b.prev_groups ≡ some p
      → hll.new_sketch b.precision b.sparse ≡ some sk
      → lookup key b'.groups
        ≡ some (record { sketch = hll.insert_hash sk fp; values = or_copy p.values values })
      → IsOnlyAt key b b'
      → gs' ≡ gs
      → Placed laws b gs fp key values b' gs'
  -- A new group for which there is room.
  admitted :
      (sk : S) (n : ℕ)
      → lookup key b.groups ≡ none
      → lookup key b.prev_groups ≡ none
      → gs.size < gs.limit
      → hll.new_sketch b.precision b.sparse ≡ some sk
      → lookup key b'.groups ≡ some (record { sketch = hll.insert_hash sk fp; values = values })
      → IsOnlyAt key b b'
      → get_elem? gs.bucket_sizes b.idx ≡ some n
      → gs' ≡ record gs { bucket_sizes = set gs.bucket_sizes b.idx (n + 1); size = gs.size + 1 }
      → Placed laws b gs fp key values b' gs'
  -- A new group for which there is none: only its key is noted.
  rejected :
      (slot : Option S) (sk : S)
      → lookup key b.groups ≡ none
      → lookup key b.prev_groups ≡ none
      → gs.limit ≤ gs.size
      → b' ≡ b
      → get_elem? gs.reject_sketches b.idx ≡ some slot
      → Notes laws key slot sk
      → gs' ≡ record gs { reject_sketches = set gs.reject_sketches b.idx (some sk) }
      → Placed laws b gs fp key values b' gs'

module _ {S : Type 0} ⦃hll : Hll S⦄ (laws : HllLaws hll) (b : Bucket S) (gs : GroupSize S) (i : ℕ)
    (bal : IsBalanced gs) (ok : IsCounted gs i b) (fp key : ℕ) (values : List Text) where
  abbrev Places : Option (Bucket S × GroupSize S) → Type 0
  Places r =
      (b' : Bucket S) × (gs' : GroupSize S) × (r ≡ some (b', gs'))
      × Placed laws b gs fp key values b' gs'

  at_key : (v : GroupSketch S) → lookup key (insert key v b.groups) ≡ some v
  at_key v = lookup-insert key key v b.groups ∙ rw (==_refl key)

  only_at : (v : GroupSketch S) → IsOnlyAt key b (record b { groups = insert key v b.groups })
  only_at v = record {
    fields = refl;
    others = λ k ne. lookup-insert key k v b.groups ∙ rw (==_of_ne key k (λ e. ne (sym e))) refl;
  }

  rejected_place :
      lookup key b.groups ≡ none
      → lookup key b.prev_groups ≡ none
      → gs.limit ≤ gs.size
      → Places (insert_missing b gs fp key values)
  rejected_place e f full =
      let (sk, r, (slot, here, noted)) = reject_lem laws gs i key ok.slot in
      let gs' : GroupSize S = record gs { reject_sketches = set gs.reject_sketches i (some sk) } in
      (
        b,
        gs',
        on_refused laws b gs i bal ok fp key values gs' f
            (rw ok.at (allow_full laws gs i key gs' full r)),
        rejected slot sk e f full refl (rw ok.at here) noted (rw ok.at refl),
      )

  admitted_place :
      lookup key b.groups ≡ none
      → lookup key b.prev_groups ≡ none
      → gs.size < gs.limit
      → Places (insert_missing b gs fp key values)
  admitted_place e f room =
      let (sk, made, s) = started laws b gs i bal ok fp key values in
      let t : ℕ = tracked b.groups b.prev_groups in
      let v : GroupSketch S = record { sketch = hll.insert_hash sk fp; values = values } in
      let gs' : GroupSize S = record gs {
        bucket_sizes = set gs.bucket_sizes i (t + 1);
        size = gs.size + 1;
      } in
      (
        record b { groups = insert key v b.groups },
        gs',
        on_allowed laws b gs i bal ok fp key values gs' _ f
            (rw ok.at (allow_room laws gs i key t room ok.share)) s,
        admitted sk t e f room made (at_key v) (only_at v) (rw ok.at ok.share) (rw ok.at refl),
      )

  missing_place : lookup key b.groups ≡ none → Places (insert_missing b gs fp key values)
  missing_place e = elim (Option-cases (lookup key b.prev_groups)) [
    | inr (p, f) ↦
        let (sk, made, s) = started laws b gs i bal ok fp key (or_copy p.values values) in
        let v : GroupSketch S = record {
          sketch = hll.insert_hash sk fp;
          values = or_copy p.values values;
        } in
        (
          record b { groups = insert key v b.groups },
          gs,
          on_revived laws b gs i bal ok fp key values p _ f s,
          revived p sk e f made (at_key v) (only_at v) refl,
        )
    | inl f ↦ elim (Bool-cases (leb gs.limit gs.size)) [
      | inl full ↦ rejected_place e f (ground arith)
      | inr room ↦ admitted_place e f (ground arith)
    ]
  ]

  group_place : Places (insert_group b gs fp key values)
  unfolding insert_group
  group_place = elim (Option-cases (lookup key b.groups)) [
    | inl e ↦
        let (b', gs', runs, placed) = missing_place e in
        (b', gs', on_missing laws b gs i bal ok fp key values e ∙ runs, placed)
    | inr (g, e) ↦
        let v : GroupSketch S = record g { sketch = hll.insert_hash g.sketch fp } in
        (
          record b { groups = insert key v b.groups },
          gs,
          rw (e, insert_group),
          joined g e (at_key v) (only_at v) refl,
        )
  ]

  grouped_kind :
      (ks : List Text)
      → ks ≢ []
      → insert_by_kind ks b gs fp key values ≡ insert_group b gs fp key values
  unfolding insert_by_kind
  grouped_kind [] ne = absurd (ne refl)
  grouped_kind (k ∷ ks) ne = refl

  -- In a bucket with `group_by` that is counted right, an insert never panics and does one of four
  -- things. The sketch of a group of the current period gets the fingerprint, and the group keeps
  -- its values. A group of the last period starts again, without a new count, with a new sketch with
  -- the fingerprint and with the values it had, or the given ones if it had none. A new group starts
  -- with the given values and a new sketch with the fingerprint, and is counted, for its bucket and
  -- for all, if the number of groups is below the limit. Otherwise it is rejected: its key goes into
  -- the reject sketch of the bucket, which is made if it is missing, and nothing else changes. In
  -- the first three no other group, nothing else of the bucket and no reject sketch changes.
  pub insert_bucket-Placed :
      b.group_by ≢ []
      → (b' : Bucket S) × (gs' : GroupSize S) × (insert_bucket b gs fp key values ≡ some (b', gs'))
        × Placed laws b gs fp key values b' gs'
  unfolding insert_bucket
  insert_bucket-Placed ne =
      let (b', gs', runs, placed) = group_place in
      (b', gs', grouped_kind b.group_by ne ∙ runs, placed)
