-- ===== src/Snapshot/Adds.antt =====
-- All the snapshots that `snapshots.add` (app/vmestimator/snapshot.go) gets in one round.
use mathlib.Core.List.{Perm, foldr}
use mathlib.Core.List.Perm
use native.Mathlib.Nat.{ℕ_set}
use vmestimator.Base.{
  ℕ, max, ◌+◌, ◌≡◌, refl, sym, ap, ◌∙◌, inl, inr, arith, Bool, true, false, Text, ◌==◌, nat_eq,
  list_eq, some, List, [], ◌∷◌, lookup, All, Bool-cases, if◌then◌else◌,
}
use vmestimator.Sketch.{Hll, HllLaws, HllRegisters}
use vmestimator.Snapshot.{Snapshot, Snapshots, new_snapshot, current, with_id, add, add_all}
use vmestimator.Snapshot.Merge.{register_at}
use vmestimator.Snapshot.Order.{IsSendable, IsStored, Takes, held, rejected, put-Takes, put-merged}

module _ {S : Type 0} ⦃hll : Hll S⦄ (laws : HllLaws hll) (regs : HllRegisters hll) (p : ℕ)
    (sort : List Text → List Text) (duration_string : ℕ → Text) where
  abbrev named : Snapshot S → Snapshot S
  named s = with_id sort duration_string s

  -- Of the snapshots with id `i`, the greatest register `j` of the sketch at the key `k`.
  abbrev pub greater : Text → ℕ → ℕ → Snapshot S → ℕ → ℕ
  greater i k j s acc =
      if (named s).id == i then max (register_at laws regs s.sketches k j) acc else acc

  abbrev pub greatest : List (Snapshot S) → Text → ℕ → ℕ → ℕ
  greatest sent i k j = foldr (greater i k j) 0 sent

  -- Of the snapshots with id `i`, how many groups were rejected.
  abbrev pub tally : Text → Snapshot S → ℕ → ℕ
  tally i s acc = if (named s).id == i then s.group_reject_size + acc else acc

  abbrev pub total : List (Snapshot S) → Text → ℕ
  total sent i = foldr (tally i) 0 sent

  named_same :
      (s : Snapshot S)
      → ((named s).sketches ≡ s.sketches) × ((named s).group_reject_size ≡ s.group_reject_size)
  unfolding with_id
  named_same s = elim (Bool-cases (s.id == [])) [
    | inl e ↦ rw e (refl, refl)
    | inr e ↦ rw e (refl, refl)
  ]

  named-IsSendable : (s : Snapshot S) → IsSendable laws regs p s → IsSendable laws regs p (named s)
  named-IsSendable s ok =
      let same = (named_same s).0 in
      record { unique = rw same ok.unique; uniform = rw same ok.uniform }

  nothing-IsStored : IsStored laws regs p []
  unfolding current lookup new_snapshot
  nothing-IsStored = record { ids = λ id. inl refl; uniform = λ id key x e. cc }

  -- What a run of `add_all` leaves.
  pub record Gathered (ss : Snapshots S) (sent : List (Snapshot S)) : Type 0 where
    pub after : Snapshots S
    pub runs : add_all sort duration_string ss sent ≡ some after
    pub registers :
        (i : Text) (k j : ℕ)
        → held laws regs p after i k j ≡ max (held laws regs p ss i k j) (greatest sent i k j)
    pub rejects :
        (i : Text) → rejected laws regs p after i ≡ rejected laws regs p ss i + total sent i

  max_step :
      (b : Bool) (before after x x' rest : ℕ)
      → after ≡ (if b then max before x' else before)
      → x' ≡ x
      → max after rest ≡ max before (if b then max x rest else rest)
  max_step true before after x x' rest e same = omega (arith, e, same)
  max_step false before after x x' rest e same = omega (arith, e, same)

  sum_step :
      (b : Bool) (before after x x' rest : ℕ)
      → after ≡ (if b then before + x' else before)
      → x' ≡ x
      → after + rest ≡ before + (if b then x + rest else rest)
  sum_step true before after x x' rest e same = omega (arith, e, same)
  sum_step false before after x x' rest e same = omega (arith, e, same)

  add-Gathered :
      (sent : List (Snapshot S)) (ss : Snapshots S)
      → IsStored laws regs p ss
      → All (IsSendable laws regs p) sent
      → Gathered ss sent
  unfolding add_all add
  add-Gathered [] ss v ok = record {
    after = ss;
    runs = refl;
    registers = λ i k j. omega arith;
    rejects = λ i. omega arith;
  }
  add-Gathered (s ∷ sent) ss v ok =
      let ok' = named-IsSendable s ok.0 in
      let one : Takes laws regs p ss (named s) _ = put-Takes laws regs p ss (named s) v ok' in
      let rest = add-Gathered sent _ one.stored ok.1 in
      let (same, same_rejects) = named_same s in
      record {
        after = rest.after;
        runs = rw (put-merged laws regs p ss (named s) v ok') rest.runs;
        registers = λ i k j.
            rest.registers i k j
            ∙ max_step ((named s).id == i) _ _ _ _ _ (one.registers i k j)
                (ap (λ m. register_at laws regs m k j) same);
        rejects = λ i.
            rest.rejects i ∙ sum_step ((named s).id == i) _ _ _ _ _ (one.rejects i) same_rejects;
      }

  held-nothing : (i : Text) (k j : ℕ) → held laws regs p [] i k j ≡ 0
  unfolding current lookup new_snapshot
  held-nothing i k j = refl

  rejected-nothing : (i : Text) → rejected laws regs p [] i ≡ 0
  unfolding current lookup new_snapshot
  rejected-nothing i = refl

  -- Snapshots whose sketches have one precision are added to an empty store without a panic, and
  -- then the merged sketch of an id and a key has in each register the greatest value that a
  -- snapshot of that id has there, and the rejected groups of an id are the sum of theirs.
  pub add_all-greatest :
      (sent : List (Snapshot S))
      → All (IsSendable laws regs p) sent
      → (ss : Snapshots S) × (add_all sort duration_string [] sent ≡ some ss)
        × ((i : Text) (k j : ℕ) → held laws regs p ss i k j ≡ greatest sent i k j)
        × ((i : Text) → rejected laws regs p ss i ≡ total sent i)
  add_all-greatest sent ok =
      let run = add-Gathered sent [] nothing-IsStored ok in
      (
        run.after,
        run.runs,
        λ i k j. omega (arith, run.registers i k j, held-nothing i k j),
        λ i. omega (arith, run.rejects i, rejected-nothing i),
      )

  max_swap :
      (b c : Bool) (x y acc : ℕ)
      → (if b then max x (if c then max y acc else acc) else (if c then max y acc else acc))
        ≡ (if c then max y (if b then max x acc else acc) else (if b then max x acc else acc))
  max_swap true true x y acc = omega arith
  max_swap true false x y acc = refl
  max_swap false c x y acc = refl

  sum_swap :
      (b c : Bool) (x y acc : ℕ)
      → (if b then x + (if c then y + acc else acc) else (if c then y + acc else acc))
        ≡ (if c then y + (if b then x + acc else acc) else (if b then x + acc else acc))
  sum_swap true true x y acc = omega arith
  sum_swap true false x y acc = refl
  sum_swap false c x y acc = refl

  -- Snapshots whose sketches have one precision may be added in any order: with the same snapshots
  -- in another order the merged sketches have the same registers for every id and key, and the same
  -- groups are counted as rejected.
  pub add_all-Perm :
      (sent sent' : List (Snapshot S))
      → Perm sent sent'
      → All (IsSendable laws regs p) sent
      → All (IsSendable laws regs p) sent'
      → (ss : Snapshots S) × (ss' : Snapshots S) × (add_all sort duration_string [] sent ≡ some ss)
        × (add_all sort duration_string [] sent' ≡ some ss')
        × ((i : Text) (k j : ℕ) → held laws regs p ss i k j ≡ held laws regs p ss' i k j)
        × ((i : Text) → rejected laws regs p ss i ≡ rejected laws regs p ss' i)
  add_all-Perm sent sent' perm ok ok' =
      let (ss, runs, registers, rejects) = add_all-greatest sent ok in
      let (ss', runs', registers', rejects') = add_all-greatest sent' ok' in
      (
        ss,
        ss',
        runs,
        runs',
        λ i k j.
            registers i k j
            ∙ Perm.foldr-eq ℕ_set (greater i k j)
                (λ a b. max_swap ((named a).id == i) ((named b).id == i) _ _) perm 0
            ∙ sym (registers' i k j),
        λ i.
            rejects i
            ∙ Perm.foldr-eq ℕ_set (tally i)
                (λ a b. sum_swap ((named a).id == i) ((named b).id == i) _ _) perm 0
            ∙ sym (rejects' i),
      )
