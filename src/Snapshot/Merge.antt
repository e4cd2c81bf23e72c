-- ===== src/Snapshot/Merge.antt =====
-- The registers of merged snapshots (`snapshot.merge` of app/vmestimator/snapshot.go).
use vmestimator.Base.{
  ℕ, max, ◌≡◌, refl, sym, ◌∙◌, inl, inr, arith, false, ◌==◌, nat_eq, list_eq, Option, none, some,
  [], ◌∷◌, Dict, lookup, insert, has, IsUnique, lookup-insert, some_inj, Bool-cases, if◌then◌else◌,
  is_some, ==_refl, nat_beq_iff,
}
use vmestimator.Sketch.{Hll, HllLaws, HllRegisters}
use vmestimator.Snapshot.{SnapshotSketch, absorb, or_unmerged, merge_entry, merge_entries}

module _ {S : Type 0} ⦃hll : Hll S⦄ (laws : HllLaws hll) (regs : HllRegisters hll) where
  abbrev pub or_zero : Option (SnapshotSketch S) → ℕ → ℕ
  or_zero none j = 0
  or_zero (some x) j = regs.register x.sketch j

  -- The register `j` of the sketch at a key; 0 where there is none.
  abbrev pub register_at : Dict ℕ (SnapshotSketch S) → ℕ → ℕ → ℕ
  register_at sketches key j = or_zero (lookup key sketches) j

  pub register_at-insert :
      (sketches : Dict ℕ (SnapshotSketch S)) (key : ℕ) (y : SnapshotSketch S) (k j : ℕ)
      → register_at (insert key y sketches) k j
        ≡ (if key == k then regs.register y.sketch j else register_at sketches k j)
  register_at-insert sketches key y k j = elim (Bool-cases (key == k)) [
    | inl same ↦ rw (lookup-insert key k y sketches, same)
    | inr other ↦ rw (lookup-insert key k y sketches, other)
  ]

  -- All sketches have that precision.
  abbrev pub IsUniform : ℕ → Dict ℕ (SnapshotSketch S) → Type 0
  IsUniform p sketches =
      (key : ℕ) (x : SnapshotSketch S) → lookup key sketches ≡ some x → laws.precision x.sketch ≡ p

  module _ (p : ℕ) where
    or_unmerged_lem :
        (x other : SnapshotSketch S) (m : Option S) (c : S)
        → m ≡ some c
        → hll.merge x.sketch other.sketch ≡ some c
        → laws.precision c ≡ p
        → (laws.precision (or_unmerged x m).sketch ≡ p)
          × ((j : ℕ)
              → regs.register (or_unmerged x m).sketch j
                ≡ max (regs.register x.sketch j) (regs.register other.sketch j))
    or_unmerged_lem x other none c e merged q = cc
    or_unmerged_lem x other (some d) c e merged q =
        rw (some_inj e) (q, λ j. regs.register-merge x.sketch other.sketch c j merged)

    absorb_lem :
        (o : Option (SnapshotSketch S)) (other : SnapshotSketch S)
        → ((x : SnapshotSketch S) → o ≡ some x → laws.precision x.sketch ≡ p)
        → laws.precision other.sketch ≡ p
        → (laws.precision (absorb o other).sketch ≡ p)
          × ((j : ℕ)
              → regs.register (absorb o other).sketch j
                ≡ max (or_zero o j) (regs.register other.sketch j))
    unfolding absorb
    absorb_lem none other u e = (e, λ j. omega arith)
    absorb_lem (some x) other u e =
        let (c, merged, q) = laws.merge_lem x.sketch other.sketch (u x refl ∙ sym e) in
        or_unmerged_lem x other (hll.merge x.sketch other.sketch) c merged merged (q ∙ u x refl)

    pub IsUniform-insert :
        (sketches : Dict ℕ (SnapshotSketch S)) (key : ℕ) (y : SnapshotSketch S)
        → IsUniform p sketches
        → laws.precision y.sketch ≡ p
        → IsUniform p (insert key y sketches)
    IsUniform-insert sketches key y u e k x found = elim (Bool-cases (key == k)) [
      | inl same ↦
          let it : y ≡ x = some_inj (rw (lookup-insert key k y sketches, same) at found) in
          rw (← it) e
      | inr other ↦ u k x (rw (lookup-insert key k y sketches, other) at found)
    ]

    merge_entry-IsUniform :
        (sketches : Dict ℕ (SnapshotSketch S)) (key : ℕ) (other : SnapshotSketch S)
        → IsUniform p sketches
        → laws.precision other.sketch ≡ p
        → IsUniform p (merge_entry sketches key other)
    unfolding merge_entry
    merge_entry-IsUniform sketches key other u e =
        IsUniform-insert sketches key _ u (absorb_lem (lookup key sketches) other (u key) e).0

    register_at-merge_entry :
        (sketches : Dict ℕ (SnapshotSketch S)) (key : ℕ) (other : SnapshotSketch S) (k j : ℕ)
        → IsUniform p sketches
        → laws.precision other.sketch ≡ p
        → register_at (merge_entry sketches key other) k j ≡ (
            if key == k
            then max (register_at sketches k j) (regs.register other.sketch j)
            else register_at sketches k j)
    unfolding merge_entry
    register_at-merge_entry sketches key other k j u e = elim (Bool-cases (key == k)) [
      | inl same ↦
          let here : key ≡ k = (nat_beq_iff key k).0 same in
          rw (same, lookup-insert key k (absorb (lookup key sketches) other) sketches, same)
            ((absorb_lem (lookup key sketches) other (u key) e).1 j ∙ rw here refl)
      | inr differs ↦
          rw (differs, lookup-insert key k (absorb (lookup key sketches) other) sketches, differs)
    ]

    -- A map without its first entry.
    pub IsUniform-tail :
        (key : ℕ) (x : SnapshotSketch S) (rest : Dict ℕ (SnapshotSketch S))
        → has key rest ≡ false
        → IsUniform p ((key, x) ∷ rest)
        → (laws.precision x.sketch ≡ p) × IsUniform p rest
    unfolding lookup
    IsUniform-tail key x rest new u = (
      u key x (rw (==_refl key)),
      λ k y found. elim (Bool-cases (key == k)) [
        | inl same ↦ let here : key ≡ k = (nat_beq_iff key k).0 same in cc (found, new, here)
        | inr differs ↦ u k y (rw differs found)
      ],
    )

    merge_step :
        (key : ℕ) (x : SnapshotSketch S) (rest : Dict ℕ (SnapshotSketch S)) (before after k j : ℕ)
        → has key rest ≡ false
        → after ≡ (if key == k then max before (regs.register x.sketch j) else before)
        → max after (register_at rest k j) ≡ max before (register_at ((key, x) ∷ rest) k j)
    unfolding lookup
    merge_step key x rest before after k j new e = elim (Bool-cases (key == k)) [
      | inl same ↦
          let here : key ≡ k = (nat_beq_iff key k).0 same in
          let gone : has k rest ≡ false = rw (← here) new in
          let rest_zero : register_at rest k j ≡ 0 = none_zero (lookup k rest) gone in
          let now : after ≡ max before (regs.register x.sketch j) = rw same at e in
          rw (same, rest_zero, now) (omega arith)
      | inr differs ↦ let now : after ≡ before = rw differs at e in rw (differs, now)
    ]
      where
        none_zero : (o : Option (SnapshotSketch S)) → is_some o ≡ false → or_zero o j ≡ 0
        none_zero none e = refl
        none_zero (some x) e = cc

    -- After merging, each register of the sketch at each key is the greater of the two.
    pub register_at-merge_entries :
        (others sketches : Dict ℕ (SnapshotSketch S))
        → IsUniform p sketches
        → IsUnique others
        → IsUniform p others
        → IsUniform p (merge_entries sketches others)
          × ((k j : ℕ)
              → register_at (merge_entries sketches others) k j
                ≡ max (register_at sketches k j) (register_at others k j))
    unfolding merge_entries lookup
    register_at-merge_entries [] sketches u v w = (u, λ k j. none_last (register_at sketches k j))
      where
        none_last : (n : ℕ) → n ≡ max n 0
        none_last n = omega arith
    register_at-merge_entries ((key, x) ∷ rest) sketches u v w =
        let (e, w') = IsUniform-tail key x rest v.0 w in
        let u' = merge_entry-IsUniform sketches key x u e in
        let (uniform, registers) =
          register_at-merge_entries rest (merge_entry sketches key x) u' v.1 w' in
        (
          uniform,
          λ k j.
              registers k j
              ∙ merge_step key x rest (register_at sketches k j) _ k j v.0
                  (register_at-merge_entry sketches key x k j u e),
        )
