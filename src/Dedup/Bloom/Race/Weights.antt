-- ===== src/Dedup/Bloom/Race/Weights.antt =====
-- What the threads of a Bloom filter have left to do (app/vmestimator/deduplicator.go): the steps of
-- each, and the bits that can still make a compare-and-swap fail.
use vmestimator.Base.{
  ℕ, zero, suc, ◌+◌, ◌-◌, ◌*◌, ◌<◌, ◌≤◌, ◌≡◌, refl, Bool, true, false, arith, ap, ◌==◌, nat_eq,
  nat_beq_iff, if◌then◌else◌, Bool-cases, inl, inr,
}
use vmestimator.Dedup.Bloom.{BloomFilter}
use vmestimator.Dedup.Bloom.Bits.{bit_set}
use vmestimator.Dedup.Bloom.Race.{
  Pc, probing, loaded, added, asking, answered, update, IsCall, an_add, a_contains,
}
use vmestimator.Dedup.Bloom.Race.Moves.{word_at}
use vmestimator.Dedup.Bloom.Race.Before.{Grows}

abbrev pub returned : Pc → Bool
returned (added h b) = true
returned (answered h b) = true
returned (probing h i b) = false
returned (loaded h i b w) = false
returned (asking h i) = false

-- The steps that a thread still has to take while no other thread sets a bit. A compare-and-swap
-- that is bound to fail costs two.
unfoldable pub weight : BloomFilter → Pc → ℕ
weight f (probing h i b) = 2 * (4 - i) + 1
weight f (loaded h i b w) = 2 * (4 - i) + (if word_at f h i == w then 0 else 2)
weight f (added h b) = 0
weight f (asking h i) = 4 - i + 1
weight f (answered h b) = 0

unfoldable pub work : ℕ → BloomFilter → (ℕ → Pc) → ℕ
work zero f pc = 0
work (suc n) f pc = work n f pc + weight f (pc n)

-- `d` for each position below `k` that is not set.
unfoldable pub credit : ℕ → ℕ → BloomFilter → ℕ
credit d zero f = 0
credit d (suc k) f = credit d k f + (if bit_set f.bits k then 0 else d)

module _ (d : ℕ) (f f' : BloomFilter) (g : Grows f f') where
  pub credit-le : (k : ℕ) → credit d k f' ≤ credit d k f
  unfolding credit
  credit-le zero = omega arith
  credit-le (suc k) = ground (arith, credit-le k, g.more k)

  pub credit-lt :
      (k j : ℕ)
      → j < k
      → bit_set f.bits j ≡ false
      → bit_set f'.bits j ≡ true
      → credit d k f' + d ≤ credit d k f
  unfolding credit
  credit-lt zero j lt no_bit bit = absurd (omega arith)
  credit-lt (suc k) j lt no_bit bit = elim (Bool-cases (j == k)) [
    | inl same ↦
        let e = (nat_beq_iff j k).0 same in
        ground (arith, e, credit-le k, ap (bit_set f.bits) e, ap (bit_set f'.bits) e)
    | inr other ↦ ground (arith, credit-lt k j, g.more k)
  ]

pub credit-bound : (d k : ℕ) (f : BloomFilter) → credit d k f ≤ k * d
unfolding credit
credit-bound d zero f = omega arith
credit-bound d (suc k) f = ground (arith, credit-bound d k f)

pub weight-bits : (f f' : BloomFilter) (p : Pc) → f'.bits ≡ f.bits → weight f' p ≡ weight f p
unfolding weight
weight-bits f f' (probing h i b) e = refl
weight-bits f f' (loaded h i b w) e = rw e refl
weight-bits f f' (added h b) e = refl
weight-bits f f' (asking h i) e = refl
weight-bits f f' (answered h b) e = refl

pub weight-le : (f f' : BloomFilter) (p : Pc) → weight f' p ≤ weight f p + 2
unfolding weight
weight-le f f' (probing h i b) = omega arith
weight-le f f' (loaded h i b w) = ground arith
weight-le f f' (added h b) = omega arith
weight-le f f' (asking h i) = omega arith
weight-le f f' (answered h b) = omega arith

module _ (f f' : BloomFilter) (e : ℕ) (each : (p : Pc) → weight f' p ≤ weight f p + e) where
  pub work-le : (n : ℕ) (pc : ℕ → Pc) → work n f' pc ≤ work n f pc + n * e
  unfolding work
  work-le zero pc = omega arith
  work-le (suc n) pc = ground (arith, work-le n pc, each (pc n))

work-update_of_le :
    (f : BloomFilter) (n : ℕ) (pc : ℕ → Pc) (i : ℕ) (p : Pc)
    → n ≤ i
    → work n f (update pc i p) ≡ work n f pc
unfolding work update
work-update_of_le f zero pc i p le = refl
work-update_of_le f (suc n) pc i p le = ground (arith, work-update_of_le f n pc i p)

pub work-update :
    (f : BloomFilter) (n : ℕ) (pc : ℕ → Pc) (i : ℕ) (p : Pc)
    → i < n
    → work n f (update pc i p) + weight f (pc i) ≡ work n f pc + weight f p
unfolding work update
work-update f zero pc i p lt = absurd (omega arith)
work-update f (suc n) pc i p lt = elim (Bool-cases (i == n)) [
  | inl same ↦ rw ((nat_beq_iff i n).0 same) (ground (arith, work-update_of_le f n pc n p))
  | inr other ↦ ground (arith, work-update f n pc i p)
]

call-weight : (f : BloomFilter) {p : Pc} → IsCall p → weight f p ≤ 9
unfolding weight
call-weight f (an_add h) = omega arith
call-weight f (a_contains h) = omega arith

pub work-calls :
    (f : BloomFilter) (n : ℕ) (pc : ℕ → Pc) → ((i : ℕ) → IsCall (pc i)) → work n f pc ≤ n * 9
unfolding work
work-calls f zero pc c = omega arith
work-calls f (suc n) pc c = omega (arith, work-calls f n pc c, call-weight f (c n))
