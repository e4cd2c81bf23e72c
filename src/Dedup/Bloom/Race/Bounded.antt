-- ===== src/Dedup/Bloom/Race/Bounded.antt =====
-- How many steps the threads of a Bloom filter can take (app/vmestimator/deduplicator.go): a failed
-- compare-and-swap means that another thread has set a bit, and there are only so many bits.
use mathlib.Core.Path.{subst}
use vmestimator.Base.{
  ◌⊎◌, ℕ, suc, ◌+◌, ◌*◌, ◌<◌, ◌≤◌, ◌≡◌, refl, true, false, arith, length, some, nat_eq, inl, inr,
}
use vmestimator.Dedup.Bloom.{BloomFilter}
use vmestimator.Dedup.Bloom.Bits.{bit_set}
use vmestimator.Dedup.Bloom.Laws.{IsReady}
use vmestimator.Dedup.Bloom.Probes.{position, position-lt}
use vmestimator.Dedup.Bloom.Race.{Pc, move, System, update, pick, Reach, start, later, IsCall}
use vmestimator.Dedup.Bloom.Race.Moves.{
  at, marked, Moves, load, leave, seen, won, lost, hit, miss, found, rests, stays,
}
use vmestimator.Dedup.Bloom.Race.Before.{Moves-Grows, marked-Grows, marked_self}
use vmestimator.Dedup.Bloom.Race.Invariant.{Knows}
use vmestimator.Dedup.Bloom.Race.Safety.{Reach-Inv, move-eq-Moves}
use vmestimator.Dedup.Bloom.Race.Weights.{
  returned, weight, work, credit, credit-le, credit-lt, credit-bound, weight-bits, weight-le,
  work-le, work-update, work-calls,
}

Moves-weight :
    {f f' : BloomFilter} {p p' : Pc}
    → Moves f p f' p'
    → Knows f p
    → returned p ≡ false
    → weight f p' + 1 ≤ weight f p
unfolding weight
Moves-weight (load lt e) k y = ground (arith, e)
Moves-weight (leave le) k y = omega arith
Moves-weight (seen e n) (lt, k, was) y = omega (arith, lt, n)
Moves-weight (won e n) (lt, k, was) y = omega (arith, lt, n)
Moves-weight (lost ne) (lt, k, was) y = ground (arith, lt)
Moves-weight (hit lt e n) k y = omega (arith, lt, n)
Moves-weight (miss lt e) k y = omega arith
Moves-weight (found le) k y = omega arith
Moves-weight rests k y = cc
Moves-weight stays k y = cc

abbrev SetsOne : BloomFilter → BloomFilter → Type 0
SetsOne f f' =
    (j : ℕ) × (j < length f.bits * 64) × (bit_set f.bits j ≡ false) × (bit_set f'.bits j ≡ true)

Moves-SetsOne :
    {f f' : BloomFilter} {p p' : Pc}
    → IsReady f
    → Moves f p f' p'
    → (f'.bits ≡ f.bits) ⊎ SetsOne f f'
Moves-SetsOne r (load lt e) = inl refl
Moves-SetsOne r (leave le) = inl refl
Moves-SetsOne r (seen e n) = inl refl
Moves-SetsOne {f} r (won {h} {i} e n) = inr (
  at f h i,
  position-lt (length f.bits) h i r,
  e,
  subst (λ l. bit_set (marked f h i).bits (position l h i) ≡ true) (marked-Grows f h i r).len
      (marked_self f h i r),
)
Moves-SetsOne r (lost e) = inl refl
Moves-SetsOne r (hit lt e n) = inl refl
Moves-SetsOne r (miss lt e) = inl refl
Moves-SetsOne r (found le) = inl refl
Moves-SetsOne r rests = inl refl
Moves-SetsOne r stays = inl refl

-- What is left to do for `n` threads, at most.
abbrev pub left : ℕ → System → ℕ
left n s = credit (n * 2) (length s.filter.bits * 64) s.filter + work n s.filter s.pc

-- `k` steps of threads that have not returned lead from `s` to the state.
pub data Busy (n : ℕ) (s : System) : ℕ → System → Type 0 where
  begin : Busy n s 0 s
  step :
      {k : ℕ} {t : System} (i : ℕ) (f : BloomFilter) (p : Pc)
      → Busy n s k t
      → i < n
      → returned (t.pc i) ≡ false
      → move t.filter (t.pc i) ≡ some (f, p)
      → Busy n s (suc k) (record { filter = f; pc = update t.pc i p })

Busy-Reach : {n : ℕ} {s : System} {k : ℕ} {t : System} → Busy n s k t → Reach n s t
Busy-Reach begin = start
Busy-Reach (step i f p before lt y runs) = later (Busy-Reach before) (pick i f p lt runs)

left-step :
    (n : ℕ) (t : System) (i : ℕ) (f : BloomFilter) (p : Pc)
    → IsReady t.filter
    → Knows t.filter (t.pc i)
    → i < n
    → returned (t.pc i) ≡ false
    → Moves t.filter (t.pc i) f p
    → left n (record { filter = f; pc = update t.pc i p }) + 1 ≤ left n t
left-step n t i f p r k lt y m =
    let grows = Moves-Grows r m in
    let own = Moves-weight m k y in
    let here = work-update t.filter n t.pc i p lt in
    let pc = update t.pc i p in
    elim (Moves-SetsOne r m) [
      | inl same ↦
          let others =
            work-le t.filter f 0 (λ q. omega (arith, weight-bits t.filter f q same)) n pc in
          let bits = credit-le (n * 2) t.filter f grows (length t.filter.bits * 64) in
          rw grows.len (omega (arith, own, here, others, bits))
      | inr (j, in_range, no_bit, bit) ↦
          let others = work-le t.filter f 2 (weight-le t.filter f) n pc in
          let bits =
            credit-lt (n * 2) t.filter f grows (length t.filter.bits * 64) j in_range no_bit bit in
          rw grows.len (omega (arith, own, here, others, bits))
    ]

Busy-left :
    {n : ℕ} {s : System} {k : ℕ} {t : System}
    → IsReady s.filter
    → ((i : ℕ) → IsCall (s.pc i))
    → Busy n s k t
    → k + left n t ≤ left n s
Busy-left r c begin = omega arith
Busy-left {n} r c (step {t} i f p before lt y runs) =
    let v = Reach-Inv r c (Busy-Reach before) in
    let less = left-step n t i f p v.ready (v.knows i) lt y (move-eq-Moves v.ready runs) in
    omega (arith, Busy-left r c before, less)

-- When `n` threads share a filter of `w` words that is ready, each at the beginning of a call, they
-- take no more than 128 * n * w + 9 * n steps in all before every one of them has returned, in
-- whatever order they take them: the loop that repeats a failed compare-and-swap ends.
pub Busy-bound :
    {n : ℕ} {s : System} {k : ℕ} {t : System}
    → IsReady s.filter
    → ((i : ℕ) → IsCall (s.pc i))
    → Busy n s k t
    → k ≤ length s.filter.bits * 64 * (n * 2) + n * 9
Busy-bound {n} {s} r c busy = omega (
  arith,
  Busy-left r c busy,
  credit-bound (n * 2) (length s.filter.bits * 64) s.filter,
  work-calls s.filter n s.pc c,
)
