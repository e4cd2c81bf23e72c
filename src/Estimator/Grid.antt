-- ===== src/Estimator/Grid.antt =====
-- The grid of ticks of `runRotation` (app/vmestimator/estimator.go).
use native.Mathlib.Nat.{mod-lt, div-add-mod, mul-suc, div-eq_of_lt}
use vmestimator.Base.{
  ℕ, zero, suc, ◌+◌, ◌-◌, ◌*◌, ◌/◌, ◌%◌, ◌<◌, ◌≡◌, refl, ap, inl, inr, arith, ◌==◌, nat_eq, none,
  some, Bool-cases,
}
use vmestimator.Estimator.State.{bucket_period, wait_ns}

-- The goroutine waits less than a period, for the next point of the grid: a multiple of the period
-- since the epoch, or not at all when it is there.
wait_ns-aligned :
    (p now : ℕ)
    → (w : ℕ) × (wait_ns (suc p) now ≡ some w) × (w < suc p) × ((q : ℕ) × (now + w ≡ suc p * q))
unfolding wait_ns
wait_ns-aligned p now =
    let r : ℕ = now % suc p in
    let q : ℕ = now / suc p in
    let small : r < suc p = mod-lt now (omega arith) in
    let parts : suc p * q + r ≡ now = div-add-mod now (suc p) in
    elim (Bool-cases (suc p - r == suc p)) [
      | inl there ↦
          let zero_rest : r ≡ 0 = ground (arith, small) in
          (0, rw there refl, omega arith, (q, omega (arith, parts, zero_rest)))
      | inr ahead ↦
          let some_rest : 0 < r = ground arith in
          let next : suc p * suc q ≡ suc p * q + suc p = mul-suc (suc p) q in
          (
            suc p - r,
            rw ahead refl,
            omega (arith, some_rest),
            (suc q, omega (arith, parts, next, small)),
          )
    ]

-- The period is 0, and the goroutine panics, when half the interval is shorter than the number of
-- buckets in nanoseconds.
bucket_period_short :
    (interval buckets now : ℕ)
    → interval / 2 < buckets
    → (period : ℕ) × (bucket_period interval buckets ≡ some period) × (wait_ns period now ≡ none)
unfolding bucket_period wait_ns
bucket_period_short interval zero now short = absurd (omega arith)
bucket_period_short interval (suc n) now short =
    let none_left : interval / 2 / suc n ≡ 0 = div-eq_of_lt short in (0, ap some none_left, refl)
