-- ===== src/Metrics/Lines.antt =====
-- The lines that a snapshot with `group_by` writes (`snapshot.writeMetrics` of
-- app/vmestimator/snapshot.go).
use vmestimator.Base.{
  ℕ, zero, suc, ◌+◌, ◌≤◌, ◌≡◌, ◌≢◌, ==_of_ne, refl, ap, ◌∙◌, inl, inr, arith, Bool, true, false,
  Text, ltb, leb, Option, none, some, ◌>>=◌, List, [], ◌∷◌, ◌++◌, length, Dict, All, if◌then◌else◌,
  Bool-cases, list_eq, nat_eq, ◌==◌,
}
use vmestimator.Sketch.{Hll}
use vmestimator.Snapshot.{Snapshot, SnapshotSketch}
use vmestimator.Churn.{Ratio}
use vmestimator.Metrics.{
  threshold, value_labels, group_metric, group_line, group_lines, write_cardinality_estimates,
  write_group_size_and_limit, write_dropped_metric, dropped_part, estimates_by_kind, group_part,
  write_metrics,
}

module _ {S : Type 0} ⦃hll : Hll S⦄ where
  -- The groups whose estimate reaches the threshold.
  abbrev pub shown : ℕ → Dict ℕ (SnapshotSketch S) → List (SnapshotSketch S)
  shown least [] = []
  shown least ((key, ssk) ∷ rest) =
      if leb least (hll.estimate ssk.sketch) then ssk ∷ shown least rest else shown least rest

  -- No group has more values than there are keys.
  abbrev pub IsKeyedBy : List Text → Dict ℕ (SnapshotSketch S) → Type 0
  IsKeyedBy ks sketches = All (λ (p : ℕ × SnapshotSketch S). length p.1.values ≤ length ks) sketches

abbrev pub joined : List Text → Text
joined [] = []
joined (t ∷ ts) = t ++ joined ts

-- A chain that ends in a value has one if its first part has.
>>=-some {ℓ κ} :
    {A : Type ℓ} {B : Type κ} (o : Option A) (g : A → B)
    → ((a : A) × (o ≡ some a))
    → (b : B) × ((o >>= λ a. some (g a)) ≡ some b)
>>=-some o g (a, e) = (g a, rw e refl)

module _ (quote : Text → Text) (print_number : ℕ → Text) (print_ratio : Ratio → Text)
    (duration_string : ℕ → Text) (sort : List Text → List Text) where
  value_labels-some :
      (ks vs : List Text)
      → length vs ≤ length ks
      → (t : Text) × (value_labels quote print_number print_ratio duration_string sort ks vs
          ≡ some t)
  unfolding value_labels
  value_labels-some ks [] h = ([], refl)
  value_labels-some [] (v ∷ vs) h = absurd (omega arith)
  value_labels-some (k ∷ ks) (v ∷ vs) h = >>=-some _ _ (value_labels-some ks vs (omega arith))

  module _ {S : Type 0} ⦃hll : Hll S⦄ (flag : ℕ) (s : Snapshot S) where
    abbrev pub print_group : SnapshotSketch S → Option Text
    print_group = group_line quote print_number print_ratio duration_string sort s

    print_group-some :
        (ssk : SnapshotSketch S)
        → length ssk.values ≤ length s.group_by
        → (t : Text) × (print_group ssk ≡ some t)
    unfolding group_metric
    print_group-some ssk h = >>=-some _ _ (>>=-some _ _ (value_labels-some s.group_by ssk.values h))

    -- One line for each group, in their order.
    abbrev pub Printed : List (SnapshotSketch S) → List Text → Type 0
    Printed [] [] = Unit {0}
    Printed (ssk ∷ groups) (t ∷ ts) = (print_group ssk ≡ some t) × Printed groups ts
    Printed _ _ = ⊥

    group_lines_lem :
        (least : ℕ) (sketches : Dict ℕ (SnapshotSketch S))
        → IsKeyedBy s.group_by sketches
        → (ts : List Text) × (dropped : ℕ) × (group_lines quote print_number print_ratio
              duration_string sort s least sketches
            ≡ some (joined ts, dropped))
          × Printed (shown least sketches) ts
          × (length (shown least sketches) + dropped ≡ length sketches)
    unfolding group_lines
    group_lines_lem least [] h = ([], 0, refl, tt, omega arith)
    group_lines_lem least ((key, ssk) ∷ rest) h =
        let (ts, dropped, runs, printed, count) = group_lines_lem least rest h.1 in
        let (t, one) = print_group-some ssk h.0 in
        elim (Bool-cases (ltb (hll.estimate ssk.sketch) least)) [
          | inl low ↦
              let out : leb least (hll.estimate ssk.sketch) ≡ false = ground (arith, low) in
              (ts, dropped + 1, rw (low, runs) refl, rw out printed, rw out (omega (arith, count)))
          | inr reached ↦
              let in_it : leb least (hll.estimate ssk.sketch) ≡ true = ground (arith, reached) in
              (
                t ∷ ts,
                dropped,
                rw (reached, one, runs) refl,
                rw in_it (one, printed),
                rw in_it (omega (arith, count)),
              )
        ]

    -- What the text is, for a snapshot whose groups are `sketches`.
    pub record Shows (text : Text) : Type 0 where
      pub lines : List Text
      pub dropped : ℕ
      pub note : Text
      pub printed : Printed (shown (threshold flag s.min_cardinality) s.sketches) lines
      pub count :
          length (shown (threshold flag s.min_cardinality) s.sketches) + dropped ≡ length s.sketches
      pub noted :
          dropped_part quote print_number print_ratio duration_string sort s dropped ≡ some note
      pub whole :
          text
          ≡ joined lines
            ++ (note
                ++ write_group_size_and_limit quote print_number print_ratio duration_string sort s
                    (length s.sketches + s.group_reject_size))

    dropped_part-some :
        (dropped : ℕ)
        → s.group_by ≢ []
        → (t : Text) × (dropped_part quote print_number print_ratio duration_string sort s dropped
            ≡ some t)
    unfolding write_dropped_metric
    dropped_part-some zero ne = ([], refl)
    dropped_part-some (suc n) ne = if_not (s.group_by == []) _ (==_of_ne s.group_by [] ne)
      where
        if_not :
            (b : Bool) (t : Text) → b ≡ false → (r : Text) × ((if b then none else some t) ≡ some r)
        if_not true t e = cc
        if_not false t e = (t, refl)

    -- The metrics of a snapshot with `group_by`, of which no group has more values than there are
    -- keys, are written without a panic: one line for each group whose estimate is at least the
    -- threshold, in the order of the map; the number of the others, when there are any; and the
    -- number of all groups, with the rejected ones, and the limit.
    pub write_metrics-Shows :
        s.group_by ≢ []
        → IsKeyedBy s.group_by s.sketches
        → (text : Text) × (write_metrics quote print_number print_ratio duration_string sort flag s
            ≡ some text)
          × Shows text
    unfolding write_metrics write_cardinality_estimates
    write_metrics-Shows ne keyed =
        let (ts, dropped, runs, printed, count) =
          group_lines_lem (threshold flag s.min_cardinality) s.sketches keyed in
        let (note, noted) = dropped_part-some dropped ne in
        (
          _,
          ap
                (λ m. m >>= λ r.
                  group_part quote print_number print_ratio duration_string sort s.group_by s r.1
                    (length s.sketches + s.group_reject_size)
                  >>= λ t. some (r.0 ++ t))
                (by_group s.group_by ne ∙ runs)
              ∙ ap (λ m. m >>= λ t. some (joined ts ++ t)) (part s.group_by ne dropped note noted),
          record {
            lines = ts;
            dropped = dropped;
            note = note;
            printed = printed;
            count = count;
            noted = noted;
            whole = refl;
          },
        )
      where
        by_group :
            (ks : List Text)
            → ks ≢ []
            → estimates_by_kind quote print_number print_ratio duration_string sort ks flag s
              ≡ group_lines quote print_number print_ratio duration_string sort s
                  (threshold flag s.min_cardinality)
                  s.sketches
        by_group [] ne' = absurd (ne' refl)
        by_group (k ∷ ks) ne' = refl

        part :
            (ks : List Text)
            → ks ≢ []
            → (dropped : ℕ) (note : Text)
            → dropped_part quote print_number print_ratio duration_string sort s dropped ≡ some note
            → group_part quote print_number print_ratio duration_string sort ks s dropped
                (length s.sketches + s.group_reject_size)
              ≡ some (
                  note
                  ++ write_group_size_and_limit quote print_number print_ratio duration_string sort
                      s
                      (length s.sketches + s.group_reject_size))
        part [] ne' dropped note e = absurd (ne' refl)
        part (k ∷ ks) ne' dropped note e = rw e refl
