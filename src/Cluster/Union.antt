-- ===== src/Cluster/Union.antt =====
-- What the merged snapshots of a cluster hold of the estimators of its nodes
-- (app/vmestimator/main.go and app/vmestimator/cardinality_metrics.go).
use vmestimator.Base.{
  All-append, map-append, ℕ, max, ◌+◌, ◌≤◌, ◌≡◌, ◌≢◌, refl, sym, ◌∙◌, arith, Bool, true, false,
  Text, ◌==◌, nat_eq, list_eq, some, List, [], ◌∷◌, ◌++◌, map, All, append_assoc, append-nil,
  if◌then◌else◌, ==_of_ne,
}
use vmestimator.Sketch.{Hll, HllLaws, HllRegisters, HllBlanks}
use vmestimator.Snapshot.{Snapshot, Snapshots, add_all, with_id}
use vmestimator.Snapshot.Merge.{register_at}
use vmestimator.Snapshot.Order.{IsSendable, held, rejected}
use vmestimator.Snapshot.Adds.{greatest, total, add_all-greatest}
use vmestimator.Estimator.State.{Estimator}
use vmestimator.Estimator.Bounds.{IsSound}
use vmestimator.Export.Runs.{feed, top}
use vmestimator.Export.Groups.{IsPreciseAll, content, refused, rejects}
use vmestimator.Export.Whole.{to_snapshot-Describes}
use vmestimator.Cluster.{serve_snapshots, send}

feed-send :
    {S M : Type 0} (encode : Snapshot S → M) (sent : List (Snapshot S)) (before : List M)
    → feed (send encode) before sent ≡ (before ++ map encode sent, false)
feed-send encode [] before = rw append-nil
feed-send encode (s ∷ sent) before =
    feed-send encode sent (before ++ encode s ∷ []) ∙ rw append_assoc

module _ {S : Type 0} ⦃hll : Hll S⦄ (laws : HllLaws hll) (regs : HllRegisters hll)
    (blanks : HllBlanks hll regs) (p : ℕ) (low : 4 ≤ p) (high : p ≤ 18)
    (sort : List Text → List Text) (duration_string : ℕ → Text) where
  -- Of the estimators with id `i`, the greatest register at the key `k`.
  abbrev pub held_by_all : List (Estimator S) → Text → ℕ → ℕ → ℕ
  held_by_all [] i k j = 0
  held_by_all (e ∷ es) i k j =
      if e.id == i
      then max (content laws regs blanks p low high e.group_by e k j) (held_by_all es i k j)
      else held_by_all es i k j

  -- Of the estimators with id `i`, how many groups were rejected.
  abbrev pub refused_by_all : List (Estimator S) → Text → ℕ
  refused_by_all [] i = 0
  refused_by_all (e ∷ es) i =
      if e.id == i
      then refused laws regs blanks p low high e.group_by e + refused_by_all es i
      else refused_by_all es i

  -- What every node of the cluster satisfies.
  pub record IsNode (e : Estimator S) : Type 0 where
    pub sound : IsSound e
    pub precise : IsPreciseAll laws regs blanks p low high e
    pub named : e.id ≢ []

  with_id-named : (s : Snapshot S) → s.id ≢ [] → with_id sort duration_string s ≡ s
  unfolding with_id
  with_id-named s ne = rw (==_of_ne s.id [] ne)

  abbrev pub best : List (Snapshot S) → Text → ℕ → ℕ → ℕ
  best = greatest laws regs p sort duration_string

  abbrev pub count : List (Snapshot S) → Text → ℕ
  count = total laws regs p sort duration_string

  best_step :
      (mine : Bool) (x t rest rest' : ℕ)
      → rest ≡ (if mine then max t rest' else rest')
      → (if mine then max x rest else rest) ≡ (if mine then max (max x t) rest' else rest')
  best_step true x t rest rest' e = omega (arith, e)
  best_step false x t rest rest' e = e

  count_step :
      (mine : Bool) (x t rest rest' : ℕ)
      → rest ≡ (if mine then t + rest' else rest')
      → (if mine then x + rest else rest) ≡ (if mine then x + t + rest' else rest')
  count_step true x t rest rest' e = omega (arith, e)
  count_step false x t rest rest' e = e

  no_more : (mine : Bool) (n : ℕ) → n ≡ (if mine then max 0 n else n)
  no_more true n = omega arith
  no_more false n = refl

  -- Snapshots of one id, before others.
  best-append :
      (id i : Text) (sent rest : List (Snapshot S)) (k j : ℕ)
      → id ≢ []
      → All (λ s. s.id ≡ id) sent
      → best (sent ++ rest) i k j ≡ (
          if id == i
          then max (top laws regs blanks p low high sent k j) (best rest i k j)
          else best rest i k j)
  best-append id i [] rest k j ne h = no_more (id == i) (best rest i k j)
  best-append id i (s ∷ sent) rest k j ne h =
      let same = with_id-named s (λ e. ne (sym h.0 ∙ e)) in
      rw (same, h.0)
        (best_step (id == i) (register_at laws regs s.sketches k j) _ _ _
          (best-append id i sent rest k j ne h.1))

  no_more_counted : (mine : Bool) (n : ℕ) → n ≡ (if mine then 0 + n else n)
  no_more_counted true n = omega arith
  no_more_counted false n = refl

  count-append :
      (id i : Text) (sent rest : List (Snapshot S))
      → id ≢ []
      → All (λ s. s.id ≡ id) sent
      → count (sent ++ rest) i ≡ (
          if id == i then rejects laws regs blanks p low high sent + count rest i else count rest i)
  count-append id i [] rest ne h = no_more_counted (id == i) (count rest i)
  count-append id i (s ∷ sent) rest ne h =
      let same = with_id-named s (λ e. ne (sym h.0 ∙ e)) in
      rw (same, h.0)
        (count_step (id == i) s.group_reject_size _ _ _ (count-append id i sent rest ne h.1))

  module _ {M : Type 0} (encode : Snapshot S → M) where
    -- What the nodes send.
    pub record Serves (es : List (Estimator S)) : Type 0 where
      pub sent : List (Snapshot S)
      pub runs :
          (before : List M)
          → serve_snapshots (send encode) es before ≡ some (before ++ map encode sent)
      pub sendable : All (IsSendable laws regs p) sent
      pub registers : (i : Text) (k j : ℕ) → best sent i k j ≡ held_by_all es i k j
      pub rejected : (i : Text) → count sent i ≡ refused_by_all es i

    pub serve_snapshots-Serves : (es : List (Estimator S)) → All IsNode es → Serves es
    unfolding serve_snapshots
    serve_snapshots-Serves [] h = record {
      sent = [];
      runs = λ before. rw append-nil;
      sendable = tt;
      registers = λ i k j. refl;
      rejected = λ i. refl;
    }
    serve_snapshots-Serves (e ∷ es) h =
        let rest = serve_snapshots-Serves es h.1 in
        let (sent, runs, says) =
          to_snapshot-Describes laws regs blanks p low high (send encode) e h.0.sound h.0.precise in
        record {
          sent = sent ++ rest.sent;
          runs = λ before.
              rw (runs before, feed-send encode sent before)
                (rest.runs (before ++ map encode sent)
                  ∙ rw (map-append encode sent rest.sent, append_assoc));
          sendable = All-append _ sent rest.sent says.sendable rest.sendable;
          registers = λ i k j.
              best-append e.id i sent rest.sent k j h.0.named says.ids
              ∙ rw (says.registers k j, rest.registers i k j);
          rejected = λ i.
              count-append e.id i sent rest.sent h.0.named says.ids
              ∙ rw (says.rejected, rest.rejected i);
        }

    -- Sound estimators of one precision, on any nodes, serve their snapshots without a panic, and
    -- these are merged without one. Afterwards the merged sketch of an id and a key has in each
    -- register the greatest value that it has in any bucket of any estimator of that id, in the
    -- current or the previous period; and the rejected groups of an id are the sum of theirs.
    pub serve_snapshots-add_all :
        (es : List (Estimator S))
        → All IsNode es
        → (sent : List (Snapshot S)) × (ss : Snapshots S) × (serve_snapshots (send encode) es []
            ≡ some (map encode sent))
          × (add_all sort duration_string [] sent ≡ some ss)
          × ((i : Text) (k j : ℕ) → held laws regs p ss i k j ≡ held_by_all es i k j)
          × ((i : Text) → rejected laws regs p ss i ≡ refused_by_all es i)
    serve_snapshots-add_all es h =
        let s = serve_snapshots-Serves es h in
        let (ss, runs, registers, rejected_sum) =
          add_all-greatest laws regs p sort duration_string s.sent s.sendable in
        (
          s.sent,
          ss,
          s.runs [],
          runs,
          λ i k j. registers i k j ∙ s.registers i k j,
          λ i. rejected_sum i ∙ s.rejected i,
        )
