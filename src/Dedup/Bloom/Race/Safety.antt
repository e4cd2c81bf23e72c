-- ===== src/Dedup/Bloom/Race/Safety.antt =====
-- What the callers of a Bloom filter that threads share can rely on (app/vmestimator/deduplicator.go).
use mathlib.Core.Path.{subst}
use vmestimator.Base.{
  ℕ, ◌+◌, ◌<◌, ◌≡◌, refl, sym, Bool, true, false, arith, length, ◌⊎◌, inl, inr, ap, ◌∙◌, some,
  some_inj, nat_beq_iff, if◌then◌else◌, ==_refl, ◌==◌, nat_eq,
}
use vmestimator.Dedup.Bloom.{BloomFilter, contains}
use vmestimator.Dedup.Bloom.Bits.{bit_set}
use vmestimator.Dedup.Bloom.Laws.{IsReady, contains-holds}
use vmestimator.Dedup.Bloom.Race.{
  Pc, added, answered, move, System, update, pick, Reach, start, later, IsCall,
}
use vmestimator.Dedup.Bloom.Race.Moves.{Moved, Moves, move-Moves}
use vmestimator.Dedup.Bloom.Race.Before.{
  Grows, Grows-refl, Grows-trans, Grows-IsReady, Grows-holds, Moves-Grows,
}
use vmestimator.Dedup.Bloom.Race.Invariant.{
  Knows, IsCall-Knows, Grows-Knows, Moves-Knows, puts, flag, Moves-puts, Moves-flag, Moves-set,
}
use vmestimator.Dedup.Bloom.Race.Count.{total, total-update, total-IsCall, Moves-reports}

-- Threads `0` to `n - 1` have gone from `s` to `t`.
pub record Inv (n : ℕ) (s t : System) : Type 0 where
  pub ready : IsReady t.filter
  pub grew : Grows s.filter t.filter
  pub knows : (i : ℕ) → Knows t.filter (t.pc i)
  pub sets :
      (k : ℕ)
      → bit_set t.filter.bits k ≡ true
      → (bit_set s.filter.bits k ≡ true)
        ⊎ ((i : ℕ) × (i < n) × (puts (length s.filter.bits) (t.pc i) k ≡ true))
  pub someone : (t.filter.bits ≡ s.filter.bits) ⊎ ((i : ℕ) × (i < n) × (flag (t.pc i) ≡ true))
  pub counts : t.filter.size ≡ s.filter.size + total n t.pc

update_self : (pc : ℕ → Pc) (i : ℕ) (p : Pc) → update pc i p i ≡ p
unfolding update
update_self pc i p = rw (==_refl i) refl

module _ (Q : Pc → Type 0) (pc : ℕ → Pc) (i : ℕ) (p : Pc) where
  pub by_index :
      (j : ℕ) (c : Bool)
      → (i == j) ≡ c
      → (c ≡ true → Q p)
      → (c ≡ false → Q (pc j))
      → Q (if c then p else pc j)
  by_index j true e new old = new refl
  by_index j false e new old = old refl

  update_each : Q p → ((j : ℕ) → Q (pc j)) → (j : ℕ) → Q (update pc i p j)
  unfolding update
  update_each new old j = by_index j (i == j) refl (λ e. new) (λ e. old j)

  update_some :
      (n : ℕ)
      → (Q (pc i) → Q p)
      → (j : ℕ) × (j < n) × Q (pc j)
      → (j : ℕ) × (j < n) × Q (update pc i p j)
  unfolding update
  update_some n keeps (j, lt, q) = (
    j,
    lt,
    by_index j (i == j) refl (λ e. keeps (subst (λ k. Q (pc k)) (sym ((nat_beq_iff i j).0 e)) q))
        (λ e. q),
  )

Inv-start : (n : ℕ) (s : System) → IsReady s.filter → ((i : ℕ) → IsCall (s.pc i)) → Inv n s s
Inv-start n s r calls = record {
  ready = r;
  grew = Grows-refl s.filter;
  knows = λ i. IsCall-Knows s.filter (calls i);
  sets = λ k e. inl e;
  someone = inl refl;
  counts = omega (arith, total-IsCall n s.pc calls);
}

module _ {n : ℕ} {s t : System} (v : Inv n s t) (i : ℕ) (lt : i < n) {f : BloomFilter} {p : Pc}
    (m : Moves t.filter (t.pc i) f p) where
  abbrev next : System
  next = record { filter = f; pc = update t.pc i p }

  next-someone :
      (f.bits ≡ t.filter.bits) ⊎ (flag p ≡ true)
      → (f.bits ≡ s.filter.bits) ⊎ ((j : ℕ) × (j < n) × (flag (update t.pc i p j) ≡ true))
  next-someone (inr y) = inr (i, lt, rw (update_self t.pc i p) y)
  next-someone (inl same) = elim v.someone [
    | inl e ↦ inl (same ∙ e)
    | inr some_one ↦ inr (update_some (λ q. flag q ≡ true) t.pc i p n (Moves-flag m) some_one)
  ]

  abbrev Put : ℕ → Pc → Type 0
  Put k q = puts (length s.filter.bits) q k ≡ true

  next-sets :
      (k : ℕ)
      → (bit_set t.filter.bits k ≡ true) ⊎ Put k p
      → (bit_set s.filter.bits k ≡ true) ⊎ ((j : ℕ) × (j < n) × Put k (update t.pc i p j))
  next-sets k (inr y) = inr (i, lt, subst (Put k) (sym (update_self t.pc i p)) y)
  next-sets k (inl was) = elim (v.sets k was) [
    | inl old ↦ inl old
    | inr one ↦ inr (update_some (Put k) t.pc i p n (Moves-puts m (length s.filter.bits) k) one)
  ]

  -- What is new in the filter after the step.
  abbrev News : Type 0
  News =
      (f.bits ≡ t.filter.bits)
      ⊎ ((flag p ≡ true)
          × ((k : ℕ)
              → bit_set f.bits k ≡ true
              → (bit_set t.filter.bits k ≡ true) ⊎ (puts (length t.filter.bits) p k ≡ true)))

  next-flag : News → (f.bits ≡ t.filter.bits) ⊎ (flag p ≡ true)
  next-flag (inl e) = inl e
  next-flag (inr (y, z)) = inr y

  next-bits : News → (k : ℕ) → bit_set f.bits k ≡ true → (bit_set t.filter.bits k ≡ true) ⊎ Put k p
  next-bits (inl e) k y = inl (subst (λ b. bit_set b k ≡ true) e y)
  next-bits (inr (y, z)) k w =
      subst (λ l. (bit_set t.filter.bits k ≡ true) ⊎ (puts l p k ≡ true)) v.grew.len (z k w)

  next-Inv : Inv n s next
  next-Inv =
      let grows = Moves-Grows v.ready m in
      let news = Moves-set v.ready (v.knows i) m in
      record {
        ready = Grows-IsReady t.filter f grows v.ready;
        grew = Grows-trans s.filter t.filter f v.grew grows;
        knows =
            update_each (Knows f) t.pc i p (Moves-Knows v.ready m (v.knows i))
              (λ j. Grows-Knows t.filter f (t.pc j) grows (v.knows j));
        sets = λ k e. next-sets k (next-bits news k e);
        someone = next-someone (next-flag news);
        counts = omega (arith, v.counts, Moves-reports m, total-update n t.pc i p lt);
      }

-- The step that the scheduler picked is the one that `Moves` describes.
pub move-eq-Moves :
    {f f' : BloomFilter} {p p' : Pc} → IsReady f → move f p ≡ some (f', p') → Moves f p f' p'
move-eq-Moves {f} {f'} {p} {p'} r runs =
    let (g, q, e, m) = move-Moves f r p in
    let same = some_inj (sym e ∙ runs) in
    subst (λ (x : BloomFilter × Pc). Moves f p (x.0) (x.1)) same m

pub Reach-Inv :
    {n : ℕ} {s t : System}
    → IsReady s.filter
    → ((i : ℕ) → IsCall (s.pc i))
    → Reach n s t
    → Inv n s t
Reach-Inv {n} {s} r calls start = Inv-start n s r calls
Reach-Inv {n} {s} r calls (later before (pick i f p lt runs)) =
    let v = Reach-Inv r calls before in next-Inv v i lt (move-eq-Moves v.ready runs)

-- Any number of threads share a filter that is ready, each at the beginning of a call of `add` or
-- `contains`, and take their atomic steps in any order. In every state that they reach: no step
-- of any thread panics; the filter contains each hash whose `add` has returned, and each hash that
-- it contained at the start; a `contains` that returned true was right; the size has grown by the
-- number of calls of `add` that returned true; and a bit that is set was set at the start or is a
-- probe of a hash that one of the threads adds.
pub Reach-contains :
    {n : ℕ} {s t : System}
    → IsReady s.filter
    → ((i : ℕ) → IsCall (s.pc i))
    → Reach n s t
    → ((i : ℕ) → Moved t.filter (t.pc i) (move t.filter (t.pc i)))
      × ((i h : ℕ) (is_new : Bool) → t.pc i ≡ added h is_new → contains t.filter h ≡ some true)
      × ((i h : ℕ) → t.pc i ≡ answered h true → contains t.filter h ≡ some true)
      × ((h : ℕ) → contains s.filter h ≡ some true → contains t.filter h ≡ some true)
      × (t.filter.size ≡ s.filter.size + total n t.pc)
      × ((k : ℕ)
          → bit_set t.filter.bits k ≡ true
          → (bit_set s.filter.bits k ≡ true)
            ⊎ ((i : ℕ) × (i < n) × (puts (length s.filter.bits) (t.pc i) k ≡ true)))
Reach-contains {n} {s} {t} r calls steps =
    let v = Reach-Inv r calls steps in
    (
      λ i. move-Moves t.filter v.ready (t.pc i),
      λ i h is_new e.
          contains-holds t.filter h v.ready ∙ ap some (subst (Knows t.filter) e (v.knows i)),
      λ i h e. contains-holds t.filter h v.ready ∙ ap some (subst (Knows t.filter) e (v.knows i)),
      λ h e.
          contains-holds t.filter h v.ready
          ∙ ap some (
              Grows-holds s.filter t.filter h v.grew
                (some_inj (sym (contains-holds s.filter h r) ∙ e))),
      v.counts,
      v.sets,
    )
