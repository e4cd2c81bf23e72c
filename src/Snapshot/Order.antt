-- ===== src/Snapshot/Order.antt =====
-- One call of `snapshots.add` (app/vmestimator/snapshot.go), which runs under a lock, seen from every
-- id.
use vmestimator.Base.{
  ℕ, max, ◌+◌, ◌≡◌, refl, ◌⊎◌, inl, inr, Bool, true, false, not, ◌&&◌, Text, ◌==◌, nat_eq, list_eq,
  some, [], insert, IsUnique, lookup-insert, Bool-cases, if◌then◌else◌, ==_refl, ==_sound,
}
use vmestimator.Sketch.{Hll, HllLaws, HllRegisters}
use vmestimator.Snapshot.{Snapshot, Snapshots, merge, merged, current, put}
use vmestimator.Snapshot.Merge.{register_at, IsUniform, register_at-merge_entries}

module _ {S : Type 0} ⦃hll : Hll S⦄ (laws : HllLaws hll) (regs : HllRegisters hll) (p : ℕ) where
  -- What a node may send: each key once, and sketches of the one precision.
  pub record IsSendable (s : Snapshot S) : Type 0 where
    pub unique : IsUnique s.sketches
    pub uniform : IsUniform laws regs p s.sketches

  -- What the merged snapshots satisfy.
  pub record IsStored (ss : Snapshots S) : Type 0 where
    pub ids : (id : Text) → ((current ss id).id ≡ []) ⊎ ((current ss id).id ≡ id)
    pub uniform : (id : Text) → IsUniform laws regs p (current ss id).sketches

  -- A register of the merged sketch of an id and a key.
  abbrev pub held : Snapshots S → Text → ℕ → ℕ → ℕ
  held ss id key j = register_at laws regs (current ss id).sketches key j

  abbrev pub rejected : Snapshots S → Text → ℕ
  rejected ss id = (current ss id).group_reject_size

  current-insert :
      (ss : Snapshots S) (id i : Text) (s : Snapshot S)
      → current (insert id s ss) i ≡ (if id == i then s else current ss i)
  unfolding current
  current-insert ss id i s = elim (Bool-cases (id == i)) [
    | inl same ↦ rw (lookup-insert id i s ss, same)
    | inr other ↦ rw (lookup-insert id i s ss, other)
  ]

  -- What `put` leaves, seen from every id.
  pub record Takes (ss : Snapshots S) (s : Snapshot S) (ss' : Snapshots S) : Type 0 where
    pub stored : IsStored ss'
    pub registers :
        (i : Text) (k j : ℕ)
        → held ss' i k j ≡ (
            if s.id == i
            then max (held ss i k j) (register_at laws regs s.sketches k j)
            else held ss i k j)
    pub rejects :
        (i : Text)
        → rejected ss' i
          ≡ (if s.id == i then rejected ss i + s.group_reject_size else rejected ss i)

  passes :
      (cur : Snapshot S) (id : Text)
      → (cur.id ≡ []) ⊎ (cur.id ≡ id)
      → (not (cur.id == []) && not (cur.id == id)) ≡ false
  passes cur id (inl e) = rw e
  passes cur id (inr e) = rw (e, ==_refl id) (and_false (not (id == [])))
    where
      and_false : (b : Bool) → (b && false) ≡ false
      and_false true = refl
      and_false false = refl

  module _ (ss : Snapshots S) (s : Snapshot S) (v : IsStored ss) (ok : IsSendable s) where
    abbrev cur : Snapshot S
    cur = current ss s.id

    pub put-merged : put ss s ≡ some (insert s.id (merged cur s) ss)
    unfolding put merge
    put-merged = rw (passes cur s.id (v.ids s.id))

    sketches_lem :
        IsUniform laws regs p (merged cur s).sketches
        × ((k j : ℕ)
            → register_at laws regs (merged cur s).sketches k j
              ≡ max (held ss s.id k j) (register_at laws regs s.sketches k j))
    sketches_lem =
        register_at-merge_entries laws regs p s.sketches cur.sketches (v.uniform s.id) ok.unique
          ok.uniform

    -- Seen from the id of the snapshot or from another one.
    put_cases :
        (i : Text) (P : Bool → Snapshot S → Type 0)
        → ((s.id ≡ i) → P true (merged cur s))
        → P false (current ss i)
        → P (s.id == i) (current (insert s.id (merged cur s) ss) i)
    put_cases i P here there = elim (Bool-cases (s.id == i)) [
      | inl same ↦ rw (current-insert ss s.id i (merged cur s), same) (here (==_sound s.id i same))
      | inr other ↦ rw (current-insert ss s.id i (merged cur s), other) there
    ]

    pub put-Takes : Takes ss s (insert s.id (merged cur s) ss)
    put-Takes = record {
      stored = record {
        ids = λ i. put_cases i (λ b t. (t.id ≡ []) ⊎ (t.id ≡ i)) (λ e. inr e) (v.ids i);
        uniform = λ i.
            put_cases i (λ b t. IsUniform laws regs p t.sketches) (λ e. sketches_lem.0)
              (v.uniform i);
      };
      registers = λ i k j.
          put_cases i
            (λ b t. register_at laws regs t.sketches k j ≡ (
              if b
              then max (held ss i k j) (register_at laws regs s.sketches k j)
              else held ss i k j))
            (λ e. rw (← e) (sketches_lem.1 k j)) refl;
      rejects = λ i.
          put_cases i
            (λ b t.
              t.group_reject_size
              ≡ (if b then rejected ss i + s.group_reject_size else rejected ss i))
            (λ e. rw (← e) refl) refl;
    }
