-- ===== src/Cluster/Fetched.antt =====
-- What one node gets from the others over the wire (app/vmestimator/main.go,
-- app/vmestimator/snapshot.go and app/vmestimator/cardinality_metrics.go).
use vmestimator.Base.{
  concat, map-append, All-concat, ℕ, ◌≤◌, ◌≡◌, refl, sym, ap, ◌∙◌, true, Text, Option, none, some,
  ◌>>=◌, List, [], ◌∷◌, ◌++◌, map, All, append_assoc, append-nil, some_inj, Option-cases, inl, inr,
}
use vmestimator.Sketch.{Hll, HllLaws, HllRegisters, HllBlanks}
use vmestimator.Snapshot.{Snapshot, Snapshots, new_snapshot, add, add_all}
use vmestimator.Snapshot.Order.{held, rejected}
use vmestimator.Estimator.State.{Estimator}
use vmestimator.Export.{to_snapshot}
use vmestimator.Cluster.{serve_snapshots, send}
use vmestimator.Cluster.Fetch.{
  reset, decode_from, decode_snapshots, fetch_and_merge_snapshots, fetch_nodes,
}
use vmestimator.Cluster.Union.{
  IsNode, held_by_all, refused_by_all, serve_snapshots-Serves, serve_snapshots-add_all,
}

-- `reset` leaves nothing of an earlier message.
reset-new_snapshot : {S : Type 0} (s : Snapshot S) → reset s ≡ new_snapshot
unfolding reset new_snapshot
reset-new_snapshot s = refl

abbrev pub fold : {A C : Type 0} → (C → A → C) → C → List A → C
fold f c [] = c
fold f c (x ∷ xs) = fold f (f c x) xs

fold-append :
    {A C : Type 0} (f : C → A → C) (c : C) (xs ys : List A)
    → fold f c (xs ++ ys) ≡ fold f (fold f c xs) ys
fold-append f c [] ys = refl
fold-append f c (x ∷ xs) ys = fold-append f (f c x) xs ys

module _ {S M C : Type 0} (decode : M → Snapshot S → Option (Snapshot S)) (cb : C → Snapshot S → C)
    (encode : Snapshot S → M)
    (law : (s : Snapshot S) → decode (encode s) new_snapshot ≡ some s) where
  decode_from-map :
      (s : Snapshot S) (sent : List (Snapshot S)) (c : C)
      → decode_from decode cb s (map encode sent) c ≡ (fold cb c sent, true)
  unfolding decode_from
  decode_from-map s [] c = refl
  decode_from-map s (x ∷ sent) c =
      rw (reset-new_snapshot s, law x) (decode_from-map x sent (cb c x))

  -- A node that sends its snapshots.
  abbrev response : List (Snapshot S) → Option (ℕ × List M)
  response sent = some (200, map encode sent)

  fetch-response :
      (sent : List (Snapshot S)) (c : C)
      → fetch_and_merge_snapshots decode cb (response sent) c ≡ (fold cb c sent, true)
  unfolding fetch_and_merge_snapshots decode_snapshots
  fetch-response sent c = decode_from-map new_snapshot sent c

  fetch_nodes-responses :
      (sents : List (List (Snapshot S))) (c : C)
      → fetch_nodes decode cb (map response sents) c ≡ (fold cb c (concat sents), true)
  unfolding fetch_nodes
  fetch_nodes-responses [] c = refl
  fetch_nodes-responses (sent ∷ sents) c =
      rw
        (
          fetch-response sent c,
          fetch_nodes-responses sents (fold cb c sent),
          fold-append cb c sent (concat sents),
        )
        refl

module _ {S M : Type 0} ⦃hll : Hll S⦄ (encode : Snapshot S → M) where
  serve_snapshots-append :
      (es es' : List (Estimator S)) (b : List M)
      → serve_snapshots (send encode) (es ++ es') b
        ≡ (serve_snapshots (send encode) es b >>= serve_snapshots (send encode) es')
  unfolding serve_snapshots
  serve_snapshots-append [] es' b = refl
  serve_snapshots-append (e ∷ es) es' b = elim (Option-cases (to_snapshot (send encode) e b)) [
    | inl panic ↦ rw panic refl
    | inr (r, runs) ↦ rw runs (serve_snapshots-append es es' r.0)
  ]

  -- What each node answers.
  pub data Answered : List (List (Estimator S)) → List (Option (ℕ × List M)) → Type 0 where
    no_node : Answered [] []
    node :
        {es : List (Estimator S)} {ms : List M} {nodes : List (List (Estimator S))}
        {rs : List (Option (ℕ × List M))}
        → serve_snapshots (send encode) es [] ≡ some ms
        → Answered nodes rs
        → Answered (es ∷ nodes) (some (200, ms) ∷ rs)

module _ {S M : Type 0} ⦃hll : Hll S⦄ (laws : HllLaws hll) (regs : HllRegisters hll)
    (blanks : HllBlanks hll regs) (p : ℕ) (low : 4 ≤ p) (high : p ≤ 18)
    (sort : List Text → List Text) (duration_string : ℕ → Text) (encode : Snapshot S → M)
    (decode : M → Snapshot S → Option (Snapshot S))
    (law : (s : Snapshot S) → decode (encode s) new_snapshot ≡ some s) where
  -- The callback of the fetches: a panic of one ends all.
  abbrev pub adds : Option (Snapshots S) → Snapshot S → Option (Snapshots S)
  adds r s = r >>= λ ss. add sort duration_string ss s

  fold-none : (sent : List (Snapshot S)) → fold adds none sent ≡ none
  fold-none [] = refl
  fold-none (s ∷ sent) = fold-none sent

  fold-add_all :
      (sent : List (Snapshot S)) (ss : Snapshots S)
      → fold adds (some ss) sent ≡ add_all sort duration_string ss sent
  unfolding add_all
  fold-add_all [] ss = refl
  fold-add_all (s ∷ sent) ss = elim (Option-cases (add sort duration_string ss s)) [
    | inl panic ↦ rw panic (fold-none sent)
    | inr (ss', runs) ↦ rw runs (fold-add_all sent ss')
  ]

  abbrev IsOne : Estimator S → Type 0
  IsOne e = IsNode laws regs blanks p low high sort duration_string e

  abbrev answer : List (Snapshot S) → Option (ℕ × List M)
  answer sent = some (200, map encode sent)

  Answered-sent :
      {nodes : List (List (Estimator S))} {rs : List (Option (ℕ × List M))}
      → All (All IsOne) nodes
      → Answered encode nodes rs
      → (sents : List (List (Snapshot S))) × (rs ≡ map answer sents)
        × ((b : List M)
            → serve_snapshots (send encode) (concat nodes) b
              ≡ some (b ++ map encode (concat sents)))
  unfolding serve_snapshots
  Answered-sent h no_node = ([], refl, λ b. rw append-nil refl)
  Answered-sent h (node {es} {ms} {nodes} {rs} served others) =
      let one =
        serve_snapshots-Serves laws regs blanks p low high sort duration_string encode es h.0 in
      let (sents, all, more) = Answered-sent h.1 others in
      let same : ms ≡ map encode one.sent = some_inj (sym served ∙ one.runs []) in
      (
        one.sent ∷ sents,
        rw (same, all) refl,
        λ b.
            serve_snapshots-append encode es (concat nodes) b
            ∙ rw (one.runs b) (
                more (b ++ map encode one.sent)
                ∙ rw (map-append encode one.sent (concat sents), append_assoc) refl),
      )

  fetch_nodes-add_all :
      {nodes : List (List (Estimator S))} {rs : List (Option (ℕ × List M))}
      → All (All IsOne) nodes
      → Answered encode nodes rs
      → (ss : Snapshots S) (sent : List (Snapshot S))
      → serve_snapshots (send encode) (concat nodes) [] ≡ some (map encode sent)
      → add_all sort duration_string [] sent ≡ some ss
      → fetch_nodes decode adds rs (some []) ≡ (some ss, true)
  fetch_nodes-add_all h answered ss sent served added =
      let (sents, all, more) = Answered-sent h answered in
      let same : map encode (concat sents) ≡ map encode sent = some_inj (sym (more []) ∙ served) in
      let by_stream = λ (xs : List (Snapshot S)).
        decode_from-map decode adds encode law new_snapshot xs (some []) in
      let folds : fold adds (some []) (concat sents) ≡ fold adds (some []) sent =
        ap (λ r. r.0)
          (sym (by_stream (concat sents))
            ∙ ap (λ ms. decode_from decode adds new_snapshot ms (some [])) same
            ∙ by_stream sent) in
      rw all (
        fetch_nodes-responses decode adds encode law sents (some [])
        ∙ ap (λ r. (r, true)) (folds ∙ fold-add_all sent [] ∙ added))

  -- Every node of a cluster has sound estimators of one precision, and answers with the stream of
  -- messages that it writes for them; the decoder reads a message back into an empty snapshot. Then
  -- the node that asks reads all streams to their ends and merges what they hold without a panic.
  -- Afterwards the merged sketch of an id and a key has in each register the greatest value that it
  -- has in any bucket of any estimator of that id on any node, in the current or the previous period,
  -- and the rejected groups of an id are the sum of theirs.
  pub fetch_nodes-serve_snapshots :
      (nodes : List (List (Estimator S))) (rs : List (Option (ℕ × List M)))
      → All (All IsOne) nodes
      → Answered encode nodes rs
      → (ss : Snapshots S) × (fetch_nodes decode adds rs (some []) ≡ (some ss, true))
        × ((i : Text) (k j : ℕ)
            → held laws regs p ss i k j
              ≡ held_by_all laws regs blanks p low high sort duration_string (concat nodes) i k j)
        × ((i : Text)
            → rejected laws regs p ss i
              ≡ refused_by_all laws regs blanks p low high sort duration_string (concat nodes) i)
  fetch_nodes-serve_snapshots nodes rs h answered =
      let (sent, ss, served, added, registers, sums) =
        serve_snapshots-add_all laws regs blanks p low high sort duration_string encode
          (concat nodes) (All-concat IsOne nodes h) in
      (ss, fetch_nodes-add_all h answered ss sent served added, registers, sums)
