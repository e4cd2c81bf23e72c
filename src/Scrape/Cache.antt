-- ===== src/Scrape/Cache.antt =====
-- What a scrape keeps when a storage node does not answer (app/vmestimator/cardinality_metrics.go).
use mathlib.Core.Path.{subst}
use vmestimator.Base.{
  ℕ, ◌≡◌, refl, sym, ap, ◌∙◌, false, Text, none, some, List, [], ◌++◌, some_inj, append-nil,
  >>=-eq-some,
}
use vmestimator.Sketch.{Hll}
use vmestimator.Snapshot.{Snapshot, Snapshots, add_all}
use vmestimator.Churn.{ChurnSnapshots, Ratio, cleanup}
use vmestimator.Estimator.State.{Estimator}
use vmestimator.Metrics.{write_all_metrics, write_churn_metrics}
use vmestimator.Scrape.{Cached, snapshots_of, write_estimators, update_own, write_fetched, refresh}

module _ (quote : Text → Text) (print_number : ℕ → Text) (print_ratio : Ratio → Text)
    (duration_string : ℕ → Text) (sort : List Text → List Text) (flag : ℕ) {S : Type 0}
    ⦃hll : Hll S⦄ where
  -- What the part for the storage nodes writes when one did not answer.
  write_fetched_partial :
      (now : ℕ) (arrived : List (Snapshot S)) (churn churn' : ChurnSnapshots S) (t : Text)
      → write_fetched quote print_number print_ratio duration_string sort flag now
          (some (record { arrived = arrived; all_answered = false }))
          churn
        ≡ some (t, churn')
      → (ss : Snapshots S) × (add_all sort duration_string [] arrived ≡ some ss)
        × (write_all_metrics quote print_number print_ratio duration_string sort flag
              (snapshots_of ss)
            ≡ some t)
        × (churn ≡ churn')
  unfolding write_fetched
  write_fetched_partial now arrived churn churn' t e =
      let (ss, added, e1) = >>=-eq-some (add_all sort duration_string [] arrived) _ e in
      let (text, written, e2) =
        >>=-eq-some
          (write_all_metrics quote print_number print_ratio duration_string sort flag
            (snapshots_of ss))
          _ e1 in
      (ss, added, written ∙ ap (λ r. some (r.0)) (some_inj e2), ap (λ r. r.1) (some_inj e2))

  refresh_alone :
      (es : List (Estimator S)) (own last : Text) (now done_at : ℕ) (c : Cached S)
      (churn : ChurnSnapshots S)
      → write_estimators quote print_number print_ratio duration_string sort flag es ≡ some own
      → update_own quote print_number print_ratio duration_string sort flag now es c.churn
        ≡ some churn
      → write_churn_metrics quote print_number print_ratio duration_string sort (cleanup now churn)
        ≡ some last
      → refresh quote print_number print_ratio duration_string sort flag es none now done_at c
        ≡ some (record { churn = cleanup now churn; cached_at = some done_at; text = own ++ last })
  unfolding refresh write_fetched
  refresh_alone es own last now done_at c churn wrote updated ended =
      rw (wrote, updated, ended, append-nil) refl

  -- A scrape during which a storage node did not answer keeps the churn that a scrape without
  -- storage nodes keeps: it is not compared with the sketches of a part of the cluster. Its text is
  -- that of the own estimators, then that of the merged snapshots of the nodes, then that of the
  -- kept churn; the scrape without storage nodes leaves out the second of them.
  pub refresh_partial :
      (es : List (Estimator S)) (arrived : List (Snapshot S)) (now done_at : ℕ) (c c' : Cached S)
      → refresh quote print_number print_ratio duration_string sort flag es
          (some (record { arrived = arrived; all_answered = false }))
          now
          done_at
          c
        ≡ some c'
      → (own merged last : Text) × (ss : Snapshots S) × (write_estimators quote print_number
            print_ratio duration_string sort flag es
          ≡ some own)
        × (add_all sort duration_string [] arrived ≡ some ss)
        × (write_all_metrics quote print_number print_ratio duration_string sort flag
              (snapshots_of ss)
            ≡ some merged)
        × (write_churn_metrics quote print_number print_ratio duration_string sort c'.churn
            ≡ some last)
        × (c'.text ≡ own ++ merged ++ last)
        × (refresh quote print_number print_ratio duration_string sort flag es none now done_at c
            ≡ some (record c' { text = own ++ last }))
  unfolding refresh
  refresh_partial es arrived now done_at c c' e =
      let (own, wrote, e1) =
        >>=-eq-some (write_estimators quote print_number print_ratio duration_string sort flag es) _
          e in
      let (churn, updated, e2) =
        >>=-eq-some
          (update_own quote print_number print_ratio duration_string sort flag now es c.churn) _
          e1 in
      let ((merged, churn'), gave, e3) =
        >>=-eq-some
          (write_fetched quote print_number print_ratio duration_string sort flag now
            (some (record { arrived = arrived; all_answered = false })) churn)
          _ e2 in
      let (ss, added, written, same) = write_fetched_partial now arrived churn churn' merged gave in
      let (last, ended, e4) =
        >>=-eq-some
          (write_churn_metrics quote print_number print_ratio duration_string sort
            (cleanup now churn'))
          _ e3 in
      let it = some_inj e4 in
      (
        own,
        merged,
        last,
        ss,
        wrote,
        added,
        written,
        subst
            (λ m.
              write_churn_metrics quote print_number print_ratio duration_string sort m ≡ some last)
            (ap (λ (x : Cached S). x.churn) it) ended,
        sym (ap (λ (x : Cached S). x.text) it),
        refresh_alone es own last now done_at c churn wrote updated (
              subst
                (λ m.
                  write_churn_metrics quote print_number print_ratio duration_string sort
                    (cleanup now m)
                  ≡ some last)
                (sym same) ended)
            ∙ ap
                (λ (m : ChurnSnapshots S).
                  some (record {
                    churn = cleanup now m;
                    cached_at = some done_at;
                    text = own ++ last;
                  }))
                same
            ∙ ap (λ (x : Cached S). some (record x { text = own ++ last })) it,
      )
