-- ===== src/Churn/Window.antt =====
-- What the churn entries (app/vmestimator/churn.go) remember, and for how long.
use vmestimator.Base.{
  ℕ, ◌+◌, ◌*◌, ◌≤◌, ◌<◌, ◌≡◌, ◌≢◌, ◌⊎◌, ==_of_ne, refl, ap, ◌∙◌, inl, inr, arith, Bool, true, false,
  ◌&&◌, nat_beq_iff, Text, ◌==◌, nat_eq, list_eq, pair_eq, Option, none, some, [], ◌∷◌, Dict,
  lookup, insert, has, IsUnique, lookup-insert, Bool-cases, if◌then◌else◌, ==_refl, ==_sound,
  is_some,
}
use vmestimator.Sketch.{Hll}
use vmestimator.Snapshot.{Snapshot, SnapshotSketch}
use vmestimator.Churn.{
  ChurnKey, ChurnSketch, ChurnEntry, ChurnSnapshots, Ratio, is_older, next_entry, update_from,
  update, cleanup, invalidate, ratio_of, of_union, of_sketches, churn_ratio,
}

has_none {ℓ} : {A : Type ℓ} (o : Option A) → is_some o ≡ false → o ≡ none
has_none none e = refl
has_none (some a) e = cc

module _ {S : Type 0} where
  -- The entry of a key after an update with the sketches of one snapshot.
  abbrev updated :
      Option (SnapshotSketch S) → Option (ChurnEntry S) → Snapshot S → ℕ → Option (ChurnEntry S)
  updated none before s now = before
  updated (some ssk) before s now = some (next_entry before s ssk now)

  update_step :
      (s : Snapshot S) (ssk : SnapshotSketch S) (v : ChurnEntry S) (now : ℕ) (b c : Bool)
      (o : Option (SnapshotSketch S)) (before mid after : Option (ChurnEntry S))
      → mid ≡ (if b && c then some v else before)
      → after ≡ (if b then updated o mid s now else mid)
      → (c ≡ true → o ≡ none)
      → (b ≡ true → c ≡ true → v ≡ next_entry before s ssk now)
      → after ≡ (if b then updated (if c then some ssk else o) before s now else before)
  update_step s ssk v now true true o before mid after m a n w =
      a ∙ ap (λ x. updated x mid s now) (n refl) ∙ m ∙ ap some (w refl refl)
  update_step s ssk v now true false o before mid after m a n w = a ∙ ap (λ x. updated o x s now) m
  update_step s ssk v now false c o before mid after m a n w = a ∙ m

  update_from-lookup :
      (sketches : Dict ℕ (SnapshotSketch S)) (entries : ChurnSnapshots S) (s : Snapshot S) (now : ℕ)
      → IsUnique sketches
      → (id : Text) (key : ℕ)
      → lookup (id, key) (update_from sketches entries s now) ≡ (
          if s.id == id
          then updated (lookup key sketches) (lookup (id, key) entries) s now
          else lookup (id, key) entries)
  unfolding update_from lookup
  update_from-lookup [] entries s now u id key = if_same (s.id == id) (lookup (id, key) entries)
    where
      if_same : (b : Bool) (o : Option (ChurnEntry S)) → o ≡ (if b then o else o)
      if_same true o = refl
      if_same false o = refl
  update_from-lookup ((k, ssk) ∷ rest) entries s now u id key =
      let here : ChurnKey = (s.id, k) in
      let there : ChurnKey = (id, key) in
      let v = next_entry (lookup here entries) s ssk now in
      update_step s ssk v now (s.id == id) (k == key) (lookup key rest) (lookup there entries) _ _
        (lookup-insert here there v entries)
        (update_from-lookup rest (insert here v entries) s now u.1 id key)
        (λ same. has_none (lookup key rest) (rw (← (nat_beq_iff k key).0 same) u.0))
        (λ e f.
          let h : here ≡ there = cc (==_sound s.id id e, (nat_beq_iff k key).0 f) in
          ap (λ j. next_entry (lookup j entries) s ssk now) h)

  -- What becomes of the entry of a group of the snapshot at `now`, with what it kept and the
  -- baseline that its churn is compared with.
  pub data Follows (s : Snapshot S) (ssk : SnapshotSketch S) (now : ℕ)
      : Option (ChurnEntry S) → ChurnEntry S → Type 0 where
    -- The first entry has no baseline.
    begun :
        {x : ChurnEntry S}
        → (x.interval ≡ s.interval) × (x.filter ≡ s.filter)
        → (x.labels ≡ s.labels) × (x.group_by ≡ s.group_by) × (x.values ≡ ssk.values)
        → x.prev ≡ record { added_at = now; sketch = none }
        → x.curr ≡ record { added_at = now; sketch = some ssk.sketch }
        → Follows s ssk now none x
    -- The baseline is older than an interval: the sketch that was the current one takes its place.
    rotated :
        {e x : ChurnEntry S}
        → e.prev.added_at + s.interval < now
        → x ≡ record e { prev = x.prev; curr = x.curr }
        → x.prev ≡ record { added_at = now; sketch = e.curr.sketch }
        → x.curr ≡ record { added_at = now; sketch = some ssk.sketch }
        → Follows s ssk now (some e) x
    -- The baseline stays.
    kept :
        {e x : ChurnEntry S}
        → now ≤ e.prev.added_at + s.interval
        → x ≡ record e { curr = x.curr }
        → x.curr ≡ record { added_at = now; sketch = some ssk.sketch }
        → Follows s ssk now (some e) x

  next_entry-Follows :
      (o : Option (ChurnEntry S)) (s : Snapshot S) (ssk : SnapshotSketch S) (now : ℕ)
      → Follows s ssk now o (next_entry o s ssk now)
  unfolding next_entry
  next_entry-Follows none s ssk now = begun (refl, refl) (refl, refl, refl) refl refl
  next_entry-Follows (some e) s ssk now =
      elim (Bool-cases (is_older e.prev.added_at s.interval now)) [
        | inl old ↦ rw old (rotated (ground (arith, old)) refl refl refl)
        | inr young ↦ rw young (kept (ground (arith, young)) refl refl)
      ]

  Follows-recent :
      (o : Option (ChurnEntry S)) (x : ChurnEntry S) (s : Snapshot S) (ssk : SnapshotSketch S)
      (now : ℕ)
      → Follows s ssk now o x
      → now ≤ x.prev.added_at + s.interval
  Follows-recent o x s ssk now (begun a b prev curr) =
      omega (arith, ap (λ (p : ChurnSketch S). p.added_at) prev)
  Follows-recent o x s ssk now (rotated old same prev curr) =
      omega (arith, ap (λ (p : ChurnSketch S). p.added_at) prev)
  Follows-recent o x s ssk now (kept young same curr) =
      omega (arith, young, ap (λ (y : ChurnEntry S). y.prev.added_at) same)

  other_kept :
      (s : Snapshot S) (now : ℕ) (b : Bool) (o : Option (SnapshotSketch S))
      (before : Option (ChurnEntry S))
      → (b ≡ false) ⊎ (o ≡ none)
      → (if b then updated o before s now else before) ≡ before
  other_kept s now false o before (inl e) = refl
  other_kept s now true o before (inl e) = cc
  other_kept s now false o before (inr e) = refl
  other_kept s now true o before (inr e) = ap (λ x. updated x before s now) e

  -- An update with a snapshot that asks for churn, with an interval and each key once, does not
  -- panic. After it each group of the snapshot has an entry whose current sketch is that of the
  -- snapshot, taken now. Without an entry before, it is made from the snapshot, without a baseline.
  -- With one, the baseline is replaced by the sketch that was the current one if it is older than
  -- the snapshot's interval, and stays otherwise, as all else does; so that the baseline was set at
  -- most one interval ago. No entry of another id or of a group that the snapshot lacks changes.
  pub update-Follows :
      (entries : ChurnSnapshots S) (s : Snapshot S) (now : ℕ)
      → s.calculate_churn ≡ true
      → 0 < s.interval
      → IsUnique s.sketches
      → (after : ChurnSnapshots S) × (update entries s now ≡ some after)
        × ((key : ℕ) (ssk : SnapshotSketch S)
            → lookup key s.sketches ≡ some ssk
            → (x : ChurnEntry S) × (lookup (s.id, key) after ≡ some x)
              × Follows s ssk now (lookup (s.id, key) entries) x
              × (now ≤ x.prev.added_at + s.interval))
        × ((id : Text) (key : ℕ)
            → (s.id ≢ id) ⊎ (lookup key s.sketches ≡ none)
            → lookup (id, key) after ≡ lookup (id, key) entries)
  unfolding update
  update-Follows entries s now asks long u =
      let each = update_from-lookup s.sketches entries s now u in
      (
        _,
        rw asks (ground arith),
        λ key ssk found.
            let before = lookup (s.id, key) entries in
            let x = next_entry before s ssk now in
            let how = next_entry-Follows before s ssk now in
            (
              x,
              each s.id key ∙ rw (==_refl s.id, found) refl,
              how,
              Follows-recent before x s ssk now how,
            ),
        λ id key other.
            each id key
            ∙ other_kept s now (s.id == id) (lookup key s.sketches) (lookup (id, key) entries)
                (elim other [ inl ne ↦ inl (==_of_ne s.id id ne) | inr lacks ↦ inr lacks ]),
      )

  abbrev pub if_fresh : ℕ → Option (ChurnEntry S) → Option (ChurnEntry S)
  if_fresh now none = none
  if_fresh now (some e) = if is_older e.curr.added_at (e.interval * 2) now then none else some e

  kept_lookup :
      (b : Bool) (j k : ChurnKey) (e : ChurnEntry S) (rest : ChurnSnapshots S)
      → lookup k (if b then rest else (j, e) ∷ rest)
        ≡ (if b then lookup k rest else if j == k then some e else lookup k rest)
  unfolding lookup
  kept_lookup true j k e rest = refl
  kept_lookup false j k e rest = refl

  fresh_step :
      (now : ℕ) (e : ChurnEntry S) (c : Bool) (o r : Option (ChurnEntry S))
      → (c ≡ true → o ≡ none)
      → r ≡ if_fresh now o
      → (if is_older e.curr.added_at (e.interval * 2) now then r else if c then some e else r)
        ≡ if_fresh now (if c then some e else o)
  fresh_step now e true o r n a = rw (a ∙ ap (if_fresh now) (n refl)) refl
  fresh_step now e false o r n a = if_same (is_older e.curr.added_at (e.interval * 2) now) r ∙ a
    where
      if_same : (b : Bool) (x : Option (ChurnEntry S)) → (if b then x else x) ≡ x
      if_same true x = refl
      if_same false x = refl

  -- The cleanup of a map keeps exactly the entries whose current sketch was taken at most twice
  -- their interval ago.
  pub cleanup-lookup :
      (entries : ChurnSnapshots S) (now : ℕ) (k : ChurnKey)
      → IsUnique entries
      → lookup k (cleanup now entries) ≡ if_fresh now (lookup k entries)
  unfolding cleanup lookup
  cleanup-lookup [] now k u = refl
  cleanup-lookup ((j, e) ∷ entries) now k u =
      kept_lookup (is_older e.curr.added_at (e.interval * 2) now) j k e (cleanup now entries)
      ∙ fresh_step now e (j == k) (lookup k entries) _
          (λ same. has_none (lookup k entries) (rw (← ==_sound j k same) u.0))
          (cleanup-lookup entries now k u.1)

  removed_step :
      (b c h : Bool) (e : ChurnEntry S) (o r : Option (ChurnEntry S))
      → (c ≡ true → b ≡ h)
      → r ≡ (if h then none else o)
      → (if b then r else if c then some e else r) ≡ (if h then none else if c then some e else o)
  removed_step true true h e o r same a = rw (← same refl) (a ∙ rw (← same refl) refl)
  removed_step false true h e o r same a = rw (← same refl) refl
  removed_step true false h e o r same a = a
  removed_step false false h e o r same a = a

  -- A reload drops the entries of the removed estimators and no other.
  pub invalidate-lookup :
      {E : Type 0} (removed : Dict Text E) (entries : ChurnSnapshots S) (k : ChurnKey)
      → lookup k (invalidate removed entries) ≡ (if has k.0 removed then none else lookup k entries)
  unfolding invalidate lookup
  invalidate-lookup removed [] k = none_both (has k.0 removed)
    where
      none_both : (b : Bool) → ◌≡◌ {A = Option (ChurnEntry S)} none (if b then none else none)
      none_both true = refl
      none_both false = refl
  invalidate-lookup removed ((j, e) ∷ entries) k =
      kept_lookup (has j.0 removed) j k e (invalidate removed entries)
      ∙ removed_step (has j.0 removed) (j == k) (has k.0 removed) e (lookup k entries) _
          (λ same. ap (λ (i : ChurnKey). has i.0 removed) (==_sound j k same))
          (invalidate-lookup removed entries k)

abbrev IsRatio : Ratio → Type 0
IsRatio r = (r.numerator ≤ r.denominator) × (0 < r.denominator)

ratio_of-IsRatio : (union prev curr : ℕ) → IsRatio (ratio_of union prev curr)
ratio_of-IsRatio union prev curr = ground arith

of_union-IsRatio :
    {S : Type 0} ⦃hll : Hll S⦄ (psk csk : S) (u : Option S) → IsRatio (of_union psk csk u)
of_union-IsRatio psk csk none = (omega arith, omega arith)
of_union-IsRatio ⦃hll⦄ psk csk (some u) =
    ratio_of-IsRatio (hll.estimate u) (hll.estimate psk) (hll.estimate csk)

of_sketches-IsRatio : {S : Type 0} ⦃hll : Hll S⦄ (p c : Option S) → IsRatio (of_sketches p c)
of_sketches-IsRatio none c = (omega arith, omega arith)
of_sketches-IsRatio (some p) none = (omega arith, omega arith)
of_sketches-IsRatio ⦃hll⦄ (some p) (some c) = of_union-IsRatio p c (hll.merge c p)

-- The churn ratio of every entry is a fraction from 0 to 1.
pub churn_ratio-bounds :
    {S : Type 0} ⦃hll : Hll S⦄ (e : ChurnEntry S)
    → ((churn_ratio e).numerator ≤ (churn_ratio e).denominator) × (0 < (churn_ratio e).denominator)
unfolding churn_ratio
churn_ratio-bounds e = of_sketches-IsRatio e.prev.sketch e.curr.sketch
