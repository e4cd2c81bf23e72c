-- ===== src/Export/Whole.antt =====
-- The export of an estimator without `group_by`, and of either kind (`estimator.toSnapshot` of
-- app/vmestimator/estimator.go).
use vmestimator.Base.{
  ℕ, max, ◌≤◌, ◌≡◌, refl, ap, arith, Bool, true, false, ◌==◌, nat_eq, Text, Option, some, List, [],
  ◌∷◌, All, lookup, insert, get_elem?-lt, if◌then◌else◌,
}
use vmestimator.Sketch.{Hll, HllLaws, HllRegisters, HllBlanks}
use vmestimator.Snapshot.{Snapshot, SnapshotSketch}
use vmestimator.Snapshot.Merge.{register_at, IsUniform, IsUniform-insert, register_at-insert}
use vmestimator.Estimator.Bucket.{Bucket, new_sketch}
use vmestimator.Estimator.State.{Estimator}
use vmestimator.Estimator.Bounds.{IsSound}
use vmestimator.Export.{header, merge_buckets, export_global, by_kind, to_snapshot}
use vmestimator.Export.Keys.{merge_sketches_lem}
use vmestimator.Export.Runs.{after_call, feed, Precise}
use vmestimator.Export.Groups.{IsPreciseAll, held_whole, Describes, groups_lem}

module _ {S : Type 0} ⦃hll : Hll S⦄ (laws : HllLaws hll) (regs : HllRegisters hll)
    (blanks : HllBlanks hll regs) (p : ℕ) (low : 4 ≤ p) (high : p ≤ 18) where
  -- A map with one sketch, at the key 0.
  single :
      (x : SnapshotSketch S)
      → (laws.precision x.sketch ≡ p → IsUniform laws regs p ((0, x) ∷ []))
        × ((k j : ℕ)
            → register_at laws regs ((0, x) ∷ []) k j
              ≡ (if 0 == k then regs.register x.sketch j else 0))
  unfolding insert lookup
  single x = (
    λ e. IsUniform-insert laws regs p [] 0 x (λ key y f. cc) e,
    λ k j. register_at-insert laws regs [] 0 x k j,
  )

  single_step :
      (here : Bool) (now one blank held : ℕ)
      → now ≡ (if here then one else 0)
      → blank ≡ 0
      → one ≡ max blank held
      → max now 0 ≡ (if here then held else 0)
  single_step true now one blank held e f g = omega (arith, e, f, g)
  single_step false now one blank held e f g = omega (arith, e)

  module _ {C : Type 0} (cb : C → Snapshot S → C × Bool) where
    merge_buckets_lem :
        (ebs : List (Bucket S)) (res : S)
        → All (Precise laws regs blanks p low high) ebs
        → laws.precision res ≡ p
        → (r : S) × (merge_buckets cb ebs res ≡ some r)
          × (laws.precision r ≡ p)
          × ((j : ℕ)
              → regs.register r j
                ≡ max (regs.register res j) (held_whole laws regs blanks p low high ebs j))
    unfolding merge_buckets
    merge_buckets_lem [] res t e = (res, refl, e, λ j. omega arith)
    merge_buckets_lem (b ∷ ebs) res t e =
        let (r, merged, q, one) =
          merge_sketches_lem laws regs blanks p b.sketch b.prev_sketch res e t.0.whole
            t.0.whole_prev in
        let (r', rest, q', more) = merge_buckets_lem ebs r t.1 q in
        (r', rw merged rest, q', λ j. omega (arith, one j, more j))

    fed_once : (c : C) (s : Snapshot S) → cb c s ≡ feed cb c (s ∷ [])
    fed_once c s = by_call (cb c s)
      where
        by_call : (q : C × Bool) → q ≡ after_call q (λ c'. (c', false))
        by_call (c', true) = refl
        by_call (c', false) = refl

    module _ (e : Estimator S) (b : Bucket S) (same : b.precision ≡ p)
        (t : All (Precise laws regs blanks p low high) e.buckets) where
      abbrev Told : List Text → (C → Option (C × Bool)) → Type 0
      Told by run =
          (sent : List (Snapshot S)) × ((c : C) → run c ≡ some (feed cb c sent))
          × Describes laws regs blanks p low high by e sent

      global_lem : Told [] (export_global cb e b)
      unfolding export_global header new_sketch lookup
      global_lem =
          let (sk, made, q) = laws.new_sketch_lem p b.sparse low high in
          let (res, merged, q', registers) = merge_buckets_lem e.buckets sk t q in
          let ssk : SnapshotSketch S = record { values = []; sketch = res } in
          let s : Snapshot S = record (header e b) {
            group_by = [];
            group_limit = 0;
            sketches = (0, ssk) ∷ [];
          } in
          (
            s ∷ [],
            λ c. rw (same, made, merged) (ap some (fed_once c s)),
            record {
              ids = (refl, tt);
              sendable = (record { unique = (refl, tt); uniform = (single ssk).0 q' }, tt);
              registers = λ k j.
                  single_step (0 == k) _ _ (regs.register sk j) _ ((single ssk).1 k j)
                    (blanks.register-new_sketch p b.sparse sk j made) (registers j);
              rejected = omega arith;
            },
          )

      by_kind_lem : (by : List Text) → Told by (λ c. by_kind cb by e b c)
      by_kind_lem [] = global_lem
      by_kind_lem (l ∷ ls) = groups_lem laws regs blanks p low high cb e b same t l ls

    -- The export of a sound estimator whose sketches have one precision never panics: it hands the
    -- callback one snapshot after the other until the callback fails. They have the estimator's id
    -- and are fit to be merged; together they hold, at each key, the greatest registers of the
    -- current and the previous sketches of all buckets, and the rejected groups once.
    pub to_snapshot-Describes :
        (e : Estimator S)
        → IsSound e
        → IsPreciseAll laws regs blanks p low high e
        → (sent : List (Snapshot S)) × ((c : C) → to_snapshot cb e c ≡ some (feed cb c sent))
          × Describes laws regs blanks p low high e.group_by e sent
    unfolding to_snapshot
    to_snapshot-Describes e v t =
        let (b, at) = get_elem?-lt e.buckets 0 v.some_bucket in
        let (sent, runs, says) = by_kind_lem e b (t.first b at) t.buckets e.group_by in
        (sent, λ c. rw at (runs c), says)
