-- ===== src/Export/Runs.antt =====
-- A whole export (`estimator.toSnapshot` of app/vmestimator/estimator.go) as the snapshots that it
-- hands to the callback.
use vmestimator.Base.{
  ℕ, max, ◌≤◌, ◌≡◌, refl, arith, Bool, true, false, ◌||◌, nat_eq, Option, some, List, [], ◌∷◌, ◌++◌,
  Dict, lookup, IsUnique, All, if◌then◌else◌,
}
use vmestimator.Sketch.{Hll, HllLaws, HllRegisters, HllBlanks}
use vmestimator.Snapshot.{Snapshot, SnapshotSketch}
use vmestimator.Snapshot.Merge.{register_at, IsUniform, IsUniform-tail}
use vmestimator.Snapshot.Order.{IsSendable}
use vmestimator.Estimator.Bucket.{Bucket}
use vmestimator.Export.{put_all, export_batches, go_on, called, Exported}
use vmestimator.Export.Pool.{SketchesPool}
use vmestimator.Export.PoolLaws.{IsClean, put-IsClean}
use vmestimator.Export.Keys.{among, IsPrecise, bucket_register, Has, export_batch_lem}
use vmestimator.Export.KeyLists.{among_any}

-- What follows a call that did not fail.
abbrev pub after_call : {C : Type 0} → C × Bool → (C → C × Bool) → C × Bool
after_call (c, true) next = (c, true)
after_call (c, false) next = next c

-- The callback on one snapshot after the other, until it fails.
abbrev pub feed : {S C : Type 0} → (C → Snapshot S → C × Bool) → C → List (Snapshot S) → C × Bool
feed cb c [] = (c, false)
feed cb c (s ∷ ss) = after_call (cb c s) (λ c'. feed cb c' ss)

after_twice :
    {C : Type 0} (r : C × Bool) (f g h : C → C × Bool)
    → ((c : C) → after_call (f c) g ≡ h c)
    → after_call (after_call r f) g ≡ after_call r h
after_twice (c, true) f g h e = refl
after_twice (c, false) f g h e = e c

module _ {S : Type 0} ⦃hll : Hll S⦄ (laws : HllLaws hll) (regs : HllRegisters hll)
    (blanks : HllBlanks hll regs) (p : ℕ) (low : 4 ≤ p) (high : p ≤ 18) where
  abbrev pub Clean : SketchesPool S → Type 0
  Clean = IsClean laws regs blanks p

  abbrev pub Precise : Bucket S → Type 0
  Precise = IsPrecise laws regs blanks p low high

  abbrev pub held_by : Bucket S → ℕ → ℕ → ℕ
  held_by = bucket_register laws regs blanks p low high

  -- The greatest register of the sketches at a key.
  abbrev pub top : List (Snapshot S) → ℕ → ℕ → ℕ
  top [] k j = 0
  top (s ∷ ss) k j = max (register_at laws regs s.sketches k j) (top ss k j)

  pub top-append :
      (xs ys : List (Snapshot S)) (k j : ℕ) → top (xs ++ ys) k j ≡ max (top xs k j) (top ys k j)
  top-append [] ys k j = omega arith
  top-append (x ∷ xs) ys k j = omega (arith, top-append xs ys k j)

  -- The greatest register over the buckets, of the current and the previous sketch at a key.
  abbrev pub held_by_any : List (Bucket S) → ℕ → ℕ → ℕ
  held_by_any [] k j = 0
  held_by_any (b ∷ bs) k j = max (held_by b k j) (held_by_any bs k j)

  put_all-IsClean :
      (sketches : Dict ℕ (SnapshotSketch S)) (pool : SketchesPool S)
      → IsUnique sketches
      → IsUniform laws regs p sketches
      → Clean pool
      → Clean (put_all sketches pool)
  unfolding put_all
  put_all-IsClean [] pool u w v = v
  put_all-IsClean ((key, x) ∷ rest) pool u w v =
      let (e, w') = IsUniform-tail laws regs p key x rest u.0 w in
      put_all-IsClean rest _ u.1 w' (put-IsClean laws regs blanks p pool x.sketch v e)

  module _ {C : Type 0} (cb : C → Snapshot S → C × Bool) (head : Snapshot S) where
    -- A snapshot of this export.
    abbrev pub Shaped : Snapshot S → Type 0
    Shaped s = (s ≡ record head { sketches = s.sketches }) × IsSendable laws regs p s

    pub feed-append :
        (xs ys : List (Snapshot S)) (c : C)
        → after_call (feed cb c xs) (λ c'. feed cb c' ys) ≡ feed cb c (xs ++ ys)
    feed-append [] ys c = refl
    feed-append (x ∷ xs) ys c =
        after_twice (cb c x) (λ c'. feed cb c' xs) (λ c'. feed cb c' ys)
          (λ c'. feed cb c' (xs ++ ys)) (feed-append xs ys)

    pub call_then :
        (r : C × Bool) (pool pool' : SketchesPool S)
        (next : C → SketchesPool S → Option (Exported cb)) (fed : C → C × Bool)
        → ((c : C) → next c pool ≡ some (called cb (fed c) pool'))
        → go_on cb (called cb r pool) next ≡ some (called cb (after_call r fed) pool')
    call_then (c, true) pool pool' next fed e = refl
    call_then (c, false) pool pool' next fed e = e c

    -- The outcome of a part of the export: the snapshots that it hands over.
    pub record Hands (run : C → Option (Exported cb)) (content : ℕ → ℕ → ℕ) : Type 0 where
      pub snapshots : List (Snapshot S)
      pub pool : SketchesPool S
      pub clean : Clean pool
      pub shaped : All Shaped snapshots
      pub runs : (c : C) → run c ≡ some (called cb (feed cb c snapshots) pool)
      pub registers : (k j : ℕ) → top snapshots k j ≡ content k j

    among_step :
        (m a : Bool) (new now rest : ℕ)
        → now ≡ (if m then new else 0)
        → rest ≡ (if a then new else 0)
        → max now rest ≡ (if m || a then new else 0)
    among_step true true new now rest e f = omega (arith, e, f)
    among_step true false new now rest e f = omega (arith, e, f)
    among_step false true new now rest e f = omega (arith, e, f)
    among_step false false new now rest e f = omega (arith, e, f)

    pub export_batches-Hands :
        (bs : List (List ℕ)) (b : Bucket S) (pool : SketchesPool S)
        → Precise b
        → All (All (Has laws regs blanks p low high b)) bs
        → Clean pool
        → Hands
            (export_batches cb bs b head pool)
            (λ k j. if among_any k bs then held_by b k j else 0)
    unfolding export_batches lookup
    export_batches-Hands [] b pool t h v = record {
      snapshots = [];
      pool = pool;
      clean = v;
      shaped = tt;
      runs = λ c. refl;
      registers = λ k j. refl;
    }
    export_batches-Hands (batch ∷ bs) b pool t h v =
        let (sketches, pool₁, one, v₁, u, w, registers) =
          export_batch_lem laws regs blanks p low high batch b [] pool t h.0 v tt (λ key x e. cc) in
        let rest =
          export_batches-Hands bs b (put_all sketches pool₁) t h.1
            (put_all-IsClean sketches pool₁ u w v₁) in
        record {
          snapshots = record head { sketches = sketches } ∷ rest.snapshots;
          pool = rest.pool;
          clean = rest.clean;
          shaped = ((refl, record { unique = u; uniform = w }), rest.shaped);
          runs = λ c. rw one (
              call_then (cb c (record head { sketches = sketches })) (put_all sketches pool₁)
                rest.pool _ (λ c'. feed cb c' rest.snapshots) rest.runs);
          registers = λ k j.
              among_step (among k batch) (among_any k bs) (held_by b k j) _ _ (registers k j)
                (rest.registers k j);
        }
