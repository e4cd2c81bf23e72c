-- ===== src/Export/Groups.antt =====
-- The export of an estimator with `group_by` (`estimator.toSnapshot` of
-- app/vmestimator/estimator.go).
use vmestimator.Base.{
  All-append, ℕ, min, max, ◌+◌, ◌≤◌, ◌≡◌, refl, sym, ap, ◌∙◌, arith, Bool, true, false, ◌||◌, ◌==◌,
  nat_eq, Text, Option, none, some, List, [], ◌∷◌, ◌++◌, length, lookup, has, is_some, All,
  get_elem?, if◌then◌else◌,
}
use vmestimator.Sketch.{Hll, HllLaws, HllRegisters, HllBlanks}
use vmestimator.Snapshot.{Snapshot}
use vmestimator.Snapshot.Order.{IsSendable}
use vmestimator.Estimator.GroupSize.{total_rejected, avg_bucket_size}
use vmestimator.Estimator.Bucket.{Bucket, GroupSketch}
use vmestimator.Estimator.State.{Estimator}
use vmestimator.Export.{
  header, export_buckets, export_groups, called, bucket_keys, batches, batch_size, end_with,
}
use vmestimator.Export.Pool.{SketchesPool}
use vmestimator.Export.PoolLaws.{new_sketches_pool-IsClean}
use vmestimator.Export.Keys.{of_maps, reg}
use vmestimator.Export.KeyLists.{among_any, batches-bucket_keys}
use vmestimator.Export.Runs.{
  after_call, feed, Clean, Precise, held_by, held_by_any, top, top-append, Shaped, Hands,
  feed-append, call_then, export_batches-Hands,
}

module _ {S : Type 0} ⦃hll : Hll S⦄ (laws : HllLaws hll) (regs : HllRegisters hll)
    (blanks : HllBlanks hll regs) (p : ℕ) (low : 4 ≤ p) (high : p ≤ 18) where
  nothing_held :
      (cur prev : Option (GroupSketch S)) (j : ℕ)
      → (is_some cur || is_some prev) ≡ false
      → of_maps laws regs blanks p cur prev j ≡ 0
  nothing_held none none j e = omega arith
  nothing_held none (some g) j e = cc
  nothing_held (some g) prev j e = cc

  all_keys :
      (b : Bucket S) (k j : ℕ) (a : Bool)
      → a ≡ (has k b.groups || has k b.prev_groups)
      → (if a then held_by laws regs blanks p low high b k j else 0)
        ≡ held_by laws regs blanks p low high b k j
  all_keys b k j true e = refl
  all_keys b k j false e = sym (nothing_held (lookup k b.groups) (lookup k b.prev_groups) j (sym e))

  module _ {C : Type 0} (cb : C → Snapshot S → C × Bool) where
    export_buckets-Hands :
        (head : Snapshot S) (ebs : List (Bucket S)) (pool : SketchesPool S)
        → All (Precise laws regs blanks p low high) ebs
        → Clean laws regs blanks p low high pool
        → Hands laws regs blanks p low high cb head
            (export_buckets cb ebs head pool)
            (held_by_any laws regs blanks p low high ebs)
    unfolding export_buckets
    export_buckets-Hands head [] pool t v = record {
      snapshots = [];
      pool = pool;
      clean = v;
      shaped = tt;
      runs = λ c. refl;
      registers = λ k j. refl;
    }
    export_buckets-Hands head (b ∷ ebs) pool t v =
        let bs = batches (length (bucket_keys b)) (bucket_keys b) in
        let (has_all, among_all) = batches-bucket_keys b in
        let one =
          export_batches-Hands laws regs blanks p low high cb head bs b pool t.0 has_all v in
        let rest = export_buckets-Hands head ebs one.pool t.1 one.clean in
        record {
          snapshots = one.snapshots ++ rest.snapshots;
          pool = rest.pool;
          clean = rest.clean;
          shaped = All-append _ one.snapshots rest.snapshots one.shaped rest.shaped;
          runs = λ c. rw (one.runs c) (
              call_then laws regs blanks p low high cb head (feed cb c one.snapshots) one.pool
                rest.pool _ (λ c'. feed cb c' rest.snapshots) rest.runs
              ∙ ap (λ r. some (called cb r rest.pool))
                  (feed-append laws regs blanks p low high cb head one.snapshots rest.snapshots c));
          registers = λ k j. omega (
            arith,
            top-append laws regs blanks p low high one.snapshots rest.snapshots k j,
            one.registers k j,
            all_keys b k j (among_any k bs) (among_all k),
            rest.registers k j,
          );
        }

    end_called :
        (last : Snapshot S) (r : C × Bool) (pool : SketchesPool S)
        → end_with cb last (called cb r pool) ≡ after_call r (λ c. feed cb c (last ∷ []))
    end_called last (c, true) pool = refl
    end_called last (c, false) pool = by_last (cb c last)
      where
        by_last : (q : C × Bool) → q ≡ after_call q (λ c'. (c', false))
        by_last (c', true) = refl
        by_last (c', false) = refl

  -- The sketches of an estimator have one precision.
  pub record IsPreciseAll (e : Estimator S) : Type 0 where
    pub first : (b : Bucket S) → get_elem? e.buckets 0 ≡ some b → b.precision ≡ p
    pub buckets : All (Precise laws regs blanks p low high) e.buckets

  abbrev pub rejects : List (Snapshot S) → ℕ
  rejects [] = 0
  rejects (s ∷ ss) = s.group_reject_size + rejects ss

  rejects-append : (xs ys : List (Snapshot S)) → rejects (xs ++ ys) ≡ rejects xs + rejects ys
  rejects-append [] ys = omega arith
  rejects-append (x ∷ xs) ys = omega (arith, rejects-append xs ys)

  -- The greatest register of the sketches of the whole buckets.
  abbrev pub held_whole : List (Bucket S) → ℕ → ℕ
  held_whole [] j = 0
  held_whole (b ∷ bs) j =
      max (max (reg laws regs blanks p b.sketch j) (reg laws regs blanks p b.prev_sketch j))
        (held_whole bs j)

  -- What an estimator holds at a key, the current and the previous period together; the first
  -- argument is its `group_by`. One without keys holds one sketch, at the key 0.
  abbrev pub content : List Text → Estimator S → ℕ → ℕ → ℕ
  content [] e k j = if 0 == k then held_whole e.buckets j else 0
  content (l ∷ ls) e k j = held_by_any laws regs blanks p low high e.buckets k j

  abbrev pub refused : List Text → Estimator S → ℕ
  refused [] e = 0
  refused (l ∷ ls) e = total_rejected e.group_size

  -- What the snapshots of one export say together.
  pub record Describes (by : List Text) (e : Estimator S) (sent : List (Snapshot S)) : Type 0 where
    pub ids : All (λ s. s.id ≡ e.id) sent
    pub sendable : All (IsSendable laws regs p) sent
    pub registers : (k j : ℕ) → top laws regs blanks p low high sent k j ≡ content by e k j
    pub rejected : rejects sent ≡ refused by e

  module _ {C : Type 0} (cb : C → Snapshot S → C × Bool) (e : Estimator S) (b : Bucket S) where
    abbrev head : Snapshot S
    head = header e b

    abbrev IsPart : Snapshot S → Type 0
    IsPart = Shaped laws regs blanks p low high cb head

    parts :
        (sent : List (Snapshot S))
        → All IsPart sent
        → All (λ s. s.id ≡ e.id) sent × All (IsSendable laws regs p) sent × (rejects sent ≡ 0)
    unfolding header
    parts [] h = (tt, tt, refl)
    parts (s ∷ sent) h =
        let (ids, sendable, none_rejected) = parts sent h.1 in
        (
          (ap (λ (t : Snapshot S). t.id) h.0.0, ids),
          (h.0.1, sendable),
          omega (arith, ap (λ (t : Snapshot S). t.group_reject_size) h.0.0, none_rejected),
        )

    abbrev last : Snapshot S
    last = record head { group_reject_size = total_rejected e.group_size }

    Describes-last :
        (sent : List (Snapshot S))
        → All IsPart sent
        → ((k j : ℕ)
            → top laws regs blanks p low high sent k j
              ≡ held_by_any laws regs blanks p low high e.buckets k j)
        → (l : Text) (ls : List Text) → Describes (l ∷ ls) e (sent ++ last ∷ [])
    unfolding header lookup
    Describes-last sent h registers l ls =
        let (ids, sendable, none_rejected) = parts sent h in
        record {
          ids = All-append _ sent (last ∷ []) ids (refl, tt);
          sendable =
              All-append _ sent (last ∷ []) sendable
                (record { unique = tt; uniform = λ key x e. cc }, tt);
          registers = λ k j.
              omega
                (arith, top-append laws regs blanks p low high sent (last ∷ []) k j, registers k j);
          rejected = omega (arith, rejects-append sent (last ∷ []), none_rejected);
        }

    pub groups_lem :
        b.precision ≡ p
        → All (Precise laws regs blanks p low high) e.buckets
        → (l : Text) (ls : List Text)
        → (sent : List (Snapshot S)) × ((c : C) → export_groups cb e b c ≡ some (feed cb c sent))
          × Describes (l ∷ ls) e sent
    unfolding export_groups
    groups_lem same t l ls =
        let (pool, filled, v) =
          new_sketches_pool-IsClean laws regs blanks p low high
            (min batch_size (avg_bucket_size e.group_size)) in
        let run = export_buckets-Hands cb head e.buckets pool t v in
        (
          run.snapshots ++ last ∷ [],
          λ c.
              rw (same, filled, run.runs c)
                (ap some (
                  end_called cb last (feed cb c run.snapshots) run.pool
                  ∙ feed-append laws regs blanks p low high cb head run.snapshots (last ∷ []) c)),
          Describes-last run.snapshots run.shaped run.registers l ls,
        )
