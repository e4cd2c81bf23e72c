-- ===== src/Estimator/Idle.antt =====
-- An estimator (app/vmestimator/estimator.go) that gets no more series, turn by turn of `runRotation`.
use mathlib.Core.Path.{subst}
use native.Mathlib.Nat.{mod-eq_of_lt, mod_self, zero-add}
use vmestimator.Base.{
  ℕ, zero, suc, ◌+◌, ◌%◌, ◌≤◌, ◌<◌, ◌≡◌, ◌≢◌, refl, sym, ap, ◌∙◌, inl, inr, arith, Text, nat_eq,
  ◌==◌, Option, some, ◌>>=◌, List, [], ◌∷◌, length, get_elem?, set, sum, All, Bool-cases, ==_sound,
  some_inj, get_elem?-lt, lt-get_elem?, get_elem?-set_self, get_elem?-set_ne, length-set,
  All-of_get_elem?, >>=-eq-some,
}
use vmestimator.Sketch.{Hll, HllLaws}
use vmestimator.Estimator.GroupSize.{GroupSize, rotate_locked}
use vmestimator.Estimator.Bucket.{Bucket, rotate_by_kind, rotate_bucket}
use vmestimator.Estimator.State.{Estimator, with_bucket, rotate_at}
use vmestimator.Estimator.Tracked.{tracked, tracked-nil}
use vmestimator.Estimator.Bounds.{IsSound, rotate_at-IsSound}

module _ {S : Type 0} ⦃hll : Hll S⦄ where
  -- The loop of `runRotation` for `ticks` ticks, when nothing else happens.
  pub turns : ℕ → ℕ → Estimator S → Option (Estimator S × ℕ)
  turns zero i e = some (e, i)
  turns (suc ticks) i e = rotate_at e i >>= λ r. turns ticks r.1 r.0

  -- A bucket with groups after its turn.
  abbrev aged : Bucket S → Bucket S
  aged b = record b { prev_groups = b.groups; groups = [] }

  rotate_by_kind-aged :
      (l : List Text) (b b' : Bucket S) (gs gs' : GroupSize S)
      → l ≢ []
      → rotate_by_kind l b gs ≡ some (b', gs')
      → b' ≡ aged b
  unfolding rotate_by_kind
  rotate_by_kind-aged [] b b' gs gs' ne e = absurd (ne refl)
  rotate_by_kind-aged (k ∷ l) b b' gs gs' ne e =
      let (gs1, counted, made) = >>=-eq-some (rotate_locked gs b.idx (length b.groups)) _ e in
      sym (ap (λ p. p.0) (some_inj made))

  with_bucket-aged :
      (e e' : Estimator S) (i : ℕ) (b : Bucket S)
      → get_elem? e.buckets i ≡ some b
      → b.group_by ≢ []
      → with_bucket e i rotate_bucket ≡ some e'
      → (e'.buckets ≡ set e.buckets i (aged b)) × (e'.group_by ≡ e.group_by)
  unfolding with_bucket rotate_bucket
  with_bucket-aged e e' i b at ne runs =
      let (c, there, e1) = >>=-eq-some (get_elem? e.buckets i) _ runs in
      let same : c ≡ b = some_inj (sym there ∙ at) in
      let (p, turned, e2) = >>=-eq-some (rotate_bucket c e.group_size) _ e1 in
      let old : p.0 ≡ aged b =
        subst (λ (x : Bucket S). p.0 ≡ aged x) same
          (rotate_by_kind-aged c.group_by c p.0 e.group_size p.1
            (subst (λ (x : Bucket S). x.group_by ≢ []) (sym same) ne) turned) in
      (
        sym (ap (λ (x : Estimator S). x.buckets) (some_inj e2)) ∙ ap (set e.buckets i) old,
        sym (ap (λ (x : Estimator S). x.group_by) (some_inj e2)),
      )

  -- From one state of the buckets to the next: those from index `i` on have had their turn.
  record IsPassed (i : ℕ) (e e' : Estimator S) : Type 0 where
    len : length e'.buckets ≡ length e.buckets
    turned :
        (k : ℕ) (b : Bucket S)
        → i ≤ k
        → get_elem? e.buckets k ≡ some b
        → get_elem? e'.buckets k ≡ some (aged b)
    before : (k : ℕ) → k < i → get_elem? e'.buckets k ≡ get_elem? e.buckets k

  module _ (laws : HllLaws hll) where
    turn_lem :
        (i : ℕ) (e : Estimator S)
        → IsSound e
        → e.group_by ≢ []
        → i < length e.buckets
        → (e' : Estimator S) × (b : Bucket S) × (rotate_at e i
            ≡ some (e', (i + 1) % length e.buckets))
          × IsSound e'
          × (get_elem? e.buckets i ≡ some b)
          × (e'.buckets ≡ set e.buckets i (aged b))
          × (e'.group_by ≡ e.group_by)
    unfolding rotate_at
    turn_lem i e v ne lt =
        let (b, at) = get_elem?-lt e.buckets i lt in
        let (e', runs, ok, bound, size) = rotate_at-IsSound laws e i v lt in
        let (x, turned, made) = >>=-eq-some (with_bucket e i rotate_bucket) _ runs in
        let same : x ≡ e' = ap (λ p. p.0) (some_inj made) in
        let bs =
          with_bucket-aged e e' i b at (λ none_by. ne (sym (v.kind i b at) ∙ none_by))
            (turned ∙ ap some same) in
        (e', b, runs, ok, at, bs.0, bs.1)

    -- The turn of the bucket `i`, and then those of the buckets behind it.
    then_rest :
        (i : ℕ) (e e1 e' : Estimator S) (b : Bucket S)
        → get_elem? e.buckets i ≡ some b
        → e1.buckets ≡ set e.buckets i (aged b)
        → IsPassed (i + 1) e1 e'
        → IsPassed i e e'
    then_rest i e e1 e' b at bs rest = record {
      len = rest.len ∙ ap length bs ∙ length-set e.buckets i (aged b);
      turned = λ k c le there. elim (Bool-cases (i == k)) [
        | inl same ↦
            subst (λ m. get_elem? e.buckets m ≡ some c → get_elem? e'.buckets m ≡ some (aged c))
              (==_sound i k same)
              (λ there'.
                rest.before i (omega arith)
                ∙ ap (λ xs. get_elem? xs i) bs
                ∙ get_elem?-set_self e.buckets i (aged b) (lt-get_elem? e.buckets i at)
                ∙ ap (λ x. some (aged x)) (some_inj (sym at ∙ there')))
              there
        | inr other ↦ rest.turned k c (ground arith) (
            ap (λ xs. get_elem? xs k) bs
            ∙ get_elem?-set_ne e.buckets i k (aged b) (ground arith)
            ∙ there)
      ];
      before = λ k lt.
          rest.before k (omega arith)
          ∙ ap (λ xs. get_elem? xs k) bs
          ∙ get_elem?-set_ne e.buckets i k (aged b) (ground arith);
    }

    turns-suc :
        (ticks i j : ℕ) (e e1 : Estimator S) (r : Option (Estimator S × ℕ))
        → rotate_at e i ≡ some (e1, j)
        → turns ticks j e1 ≡ r
        → turns (suc ticks) i e ≡ r
    unfolding turns
    turns-suc ticks i j e e1 r turn rest = rw turn rest

    pass_lem :
        (left i : ℕ) (e : Estimator S)
        → IsSound e
        → e.group_by ≢ []
        → suc left + i ≡ length e.buckets
        → (e' : Estimator S) × (turns (suc left) i e ≡ some (e', 0))
          × IsSound e'
          × IsPassed i e e'
          × (e'.group_by ≡ e.group_by)
    unfolding turns
    pass_lem zero i e v ne fits =
        let (e1, b, runs, ok, at, bs, same) = turn_lem i e v ne (omega (arith, fits)) in
        let len = ap length bs ∙ length-set e.buckets i (aged b) in
        let last : (i + 1) % length e.buckets ≡ 0 =
          ap (λ n. (i + 1) % n) (let it : length e.buckets ≡ i + 1 = omega (arith, fits) in it)
          ∙ mod_self (i + 1) in
        (
          e1,
          turns-suc 0 i 0 e e1 _ (runs ∙ ap (λ j. some (e1, j)) last) refl,
          ok,
          then_rest i e e1 e1 b at bs (record {
            len = refl;
            turned = λ k c le there.
                absurd (omega (arith, le, lt-get_elem? e1.buckets k there, len, fits));
            before = λ k lt. refl;
          }),
          same,
        )
    pass_lem (suc left) i e v ne fits =
        let (e1, b, runs, ok, at, bs, same) = turn_lem i e v ne (omega (arith, fits)) in
        let len = ap length bs ∙ length-set e.buckets i (aged b) in
        let next : (i + 1) % length e.buckets ≡ i + 1 = mod-eq_of_lt (omega (arith, fits)) in
        let (e', more, ok', rest, same') =
          pass_lem left (i + 1) e1 ok (λ none_by. ne (sym same ∙ none_by))
            (omega (arith, fits, len)) in
        (
          e',
          turns-suc (suc left) i (i + 1) e e1 _ (runs ∙ ap (λ j. some (e1, j)) next) more,
          ok',
          then_rest i e e1 e' b at bs rest,
          same' ∙ same,
        )

    turns-add :
        (m n i j : ℕ) (e e1 : Estimator S) (r : Option (Estimator S × ℕ))
        → turns m i e ≡ some (e1, j)
        → turns n j e1 ≡ r
        → turns (m + n) i e ≡ r
    unfolding turns
    turns-add zero n i j e e1 r first more =
        let same = some_inj first in
        ap (λ k. turns k i e) (zero-add n) ∙ subst (λ p. turns n p.1 p.0 ≡ r) (sym same) more
    turns-add (suc m) n i j e e1 r first more =
        let (p, turn, rest) = >>=-eq-some (rotate_at e i) _ first in
        let step : suc m + n ≡ suc (m + n) = omega arith in
        ap (λ k. turns k i e) step
        ∙ turns-suc (m + n) i p.1 e p.0 r turn (turns-add m n p.1 j p.0 e1 r rest more)

    -- All of an estimator's buckets are empty.
    pub record IsIdle (e : Estimator S) : Type 0 where
      pub buckets :
          (k : ℕ) (b : Bucket S)
          → get_elem? e.buckets k ≡ some b
          → (b.groups ≡ []) × (b.prev_groups ≡ [])
      pub size : e.group_size.size ≡ 0

    sum_zero : (xs : List ℕ) → All (λ x. x ≡ 0) xs → sum xs ≡ 0
    sum_zero [] z = refl
    sum_zero (x ∷ xs) z = omega (arith, z.0, sum_zero xs z.1)

    pub empty-IsIdle :
        (e : Estimator S)
        → IsSound e
        → ((k : ℕ) (b : Bucket S)
            → get_elem? e.buckets k ≡ some b
            → (b.groups ≡ []) × (b.prev_groups ≡ []))
        → IsIdle e
    empty-IsIdle e v none_left = record {
      buckets = none_left;
      size =
          v.balanced.total
          ∙ sum_zero e.group_size.bucket_sizes (
              All-of_get_elem? (λ x. x ≡ 0) e.group_size.bucket_sizes
                λ k x at.
                  let (b, here) =
                    get_elem?-lt e.buckets k
                      (omega (arith, lt-get_elem? e.group_size.bucket_sizes k at, v.shares)) in
                  let empty = none_left k b here in
                  some_inj (sym at ∙ (v.each k b here).share) ∙ no_groups b empty.0 empty.1);
    }
      where
        no_groups :
            (b : Bucket S) → b.groups ≡ [] → b.prev_groups ≡ [] → tracked b.groups b.prev_groups ≡ 0
        no_groups b p q = rw (p, q) (tracked-nil [])

    emptied :
        (e e1 e2 : Estimator S)
        → IsPassed 0 e e1
        → IsPassed 0 e1 e2
        → (k : ℕ) (b : Bucket S) → get_elem? e2.buckets k ≡ some b
        → (b.groups ≡ []) × (b.prev_groups ≡ [])
    emptied e e1 e2 first second k b at =
        let (b0, here) =
          get_elem?-lt e.buckets k
            (omega (arith, lt-get_elem? e2.buckets k at, first.len, second.len)) in
        let then_b =
          second.turned k (aged b0) (omega arith) (first.turned k b0 (omega arith) here) in
        let same : aged (aged b0) ≡ b = some_inj (sym then_b ∙ at) in
        subst (λ (x : Bucket S). (x.groups ≡ []) × (x.prev_groups ≡ [])) same (refl, refl)

    -- A sound estimator with `group_by` that gets no more series forgets all groups: after two
    -- rounds of turns, from the first bucket on, no bucket has a group of the current or of the
    -- last period, and the number of groups is zero.
    pub turns-IsIdle :
        (e : Estimator S)
        → IsSound e
        → e.group_by ≢ []
        → (e' : Estimator S) × (turns (length e.buckets + length e.buckets) 0 e ≡ some (e', 0))
          × IsSound e'
          × IsIdle e'
    turns-IsIdle e v ne = by_count (length e.buckets) refl
      where
        by_count :
            (n : ℕ)
            → n ≡ length e.buckets
            → (e' : Estimator S) × (turns (n + n) 0 e ≡ some (e', 0)) × IsSound e' × IsIdle e'
        by_count zero none_there = absurd (omega (arith, v.some_bucket, none_there))
        by_count (suc left) count =
            let (e1, runs, ok, first, by) = pass_lem left 0 e v ne (omega (arith, count)) in
            let (e2, runs', ok', second, by') =
              pass_lem left 0 e1 ok (λ none_by. ne (sym by ∙ none_by))
                (omega (arith, count, first.len)) in
            (
              e2,
              turns-add (suc left) (suc left) 0 0 e e1 _ runs runs',
              ok',
              empty-IsIdle e2 ok' λ k b at. emptied e e1 e2 first second k b at,
            )
