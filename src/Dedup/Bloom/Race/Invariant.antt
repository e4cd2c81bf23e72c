-- ===== src/Dedup/Bloom/Race/Invariant.antt =====
-- What holds of each thread of a Bloom filter (app/vmestimator/deduplicator.go) in every state that
-- the threads can reach.
use vmestimator.Base.{
  ℕ, zero, suc, ◌%◌, ◌<◌, ◌≡◌, refl, Bool, true, false, arith, ◌==◌, nat_eq, length, ◌⊎◌, inl, inr,
  Bool-cases, nat_beq_iff, ==_refl,
}
use vmestimator.Words.{bit_at}
use vmestimator.Dedup.Bloom.{BloomFilter, hashes_count}
use vmestimator.Dedup.Bloom.Bits.{bit_set}
use vmestimator.Dedup.Bloom.Probes.{probed, position}
use vmestimator.Dedup.Bloom.Laws.{IsReady, holds}
use vmestimator.Dedup.Bloom.Race.{
  Pc, probing, loaded, added, asking, answered, IsCall, an_add, a_contains,
}
use vmestimator.Dedup.Bloom.Race.Moves.{
  at, Moves, load, leave, seen, won, lost, hit, miss, found, rests, stays, word_at,
}
use vmestimator.Dedup.Bloom.Race.Before.{
  Before, Before-holds, Before-zero, Before-next, Grows, Grows-Before, Grows-holds, counted-Grows,
  marked-Grows, marked-bit_set, marked_self,
}

-- What a thread has made sure of, by where it stands.
abbrev pub Knows : BloomFilter → Pc → Type 0
Knows f (probing h i b) = Before f h i
Knows f (loaded h i b w) =
    (i < 4)
    × Before f h i
    × ((bit_at w (at f h i % 64) == 1) ≡ true → bit_set f.bits (at f h i) ≡ true)
Knows f (added h b) = holds f h ≡ true
Knows f (asking h i) = Before f h i
Knows f (answered h true) = holds f h ≡ true
Knows f (answered h false) = Unit

pub IsCall-Knows : (f : BloomFilter) {p : Pc} → IsCall p → Knows f p
IsCall-Knows f (an_add h) = Before-zero f h
IsCall-Knows f (a_contains h) = Before-zero f h

pub Grows-Knows : (f f' : BloomFilter) (p : Pc) → Grows f f' → Knows f p → Knows f' p
Grows-Knows f f' (probing h i b) g k = Grows-Before f f' h i g k
Grows-Knows f f' (loaded h i b w) g (lt, k, was) =
    (lt, Grows-Before f f' h i g k, rw g.len (λ e. g.more (at f h i) (was e)))
Grows-Knows f f' (added h b) g k = Grows-holds f f' h g k
Grows-Knows f f' (asking h i) g k = Grows-Before f f' h i g k
Grows-Knows f f' (answered h true) g k = Grows-holds f f' h g k
Grows-Knows f f' (answered h false) g k = tt

load-set :
    (f : BloomFilter) (h i w : ℕ)
    → w ≡ word_at f h i
    → (bit_at w (at f h i % 64) == 1) ≡ true
    → bit_set f.bits (at f h i) ≡ true
unfolding bit_set
load-set f h i w e y = rw (← e) y

pub Moves-Knows :
    {f f' : BloomFilter} {p p' : Pc} → IsReady f → Moves f p f' p' → Knows f p → Knows f' p'
Moves-Knows {f} r (load {h} {i} lt e) k = (lt, k, load-set f h i _ e)
Moves-Knows {f} {f'} r (leave {h} {i} {b} le) k =
    Before-holds f' h i le (Grows-Before f f' h i (counted-Grows f b) k)
Moves-Knows {f} r (seen {h} {i} {j = j} e n) (lt, k, was) = Before-next f h i j n k (was e)
Moves-Knows {f} {f'} r (won {h} {i} {j = j} e n) (lt, k, was) =
    Before-next f' h i j n (Grows-Before f f' h i (marked-Grows f h i r) k) (marked_self f h i r)
Moves-Knows {f} r (lost e) (lt, k, was) = k
Moves-Knows {f} r (hit {h} {i} {j} lt e n) k = Before-next f h i j n k e
Moves-Knows {f} r (miss lt e) k = tt
Moves-Knows {f} r (found {h} {i} le) k = Before-holds f h i le k
Moves-Knows {f} r rests k = k
Moves-Knows {f} r stays k = k

-- The probes of the hash that a thread adds.
abbrev pub puts : ℕ → Pc → ℕ → Bool
puts n (probing h i b) k = probed hashes_count n h 0 k
puts n (loaded h i b w) k = probed hashes_count n h 0 k
puts n (added h b) k = probed hashes_count n h 0 k
puts n (asking h i) k = false
puts n (answered h b) k = false

-- The thread has set a bit.
abbrev pub flag : Pc → Bool
flag (probing h i b) = b
flag (loaded h i b w) = b
flag (added h b) = b
flag (asking h i) = false
flag (answered h b) = false

probed-position : (n h i : ℕ) → i < 4 → probed hashes_count n h 0 (position n h i) ≡ true
unfolding probed
probed-position n h zero lt = ground (arith, ==_refl (position n h 0))
probed-position n h (suc zero) lt = ground (arith, ==_refl (position n h 1))
probed-position n h (suc (suc zero)) lt = ground (arith, ==_refl (position n h 2))
probed-position n h (suc (suc (suc zero))) lt = ground (arith, ==_refl (position n h 3))
probed-position n h (suc (suc (suc (suc i)))) lt = absurd (omega arith)

pub Moves-puts :
    {f f' : BloomFilter} {p p' : Pc}
    → Moves f p f' p'
    → (n k : ℕ) → puts n p k ≡ true
    → puts n p' k ≡ true
Moves-puts (load lt e) n k y = y
Moves-puts (leave le) n k y = y
Moves-puts (seen e m) n k y = y
Moves-puts (won e m) n k y = y
Moves-puts (lost e) n k y = y
Moves-puts (hit lt e m) n k y = y
Moves-puts (miss lt e) n k y = y
Moves-puts (found le) n k y = y
Moves-puts rests n k y = y
Moves-puts stays n k y = y

pub Moves-flag : {f f' : BloomFilter} {p p' : Pc} → Moves f p f' p' → flag p ≡ true → flag p' ≡ true
Moves-flag (load lt e) y = y
Moves-flag (leave le) y = y
Moves-flag (seen e m) y = y
Moves-flag (won e m) y = refl
Moves-flag (lost e) y = y
Moves-flag (hit lt e m) y = y
Moves-flag (miss lt e) y = y
Moves-flag (found le) y = y
Moves-flag rests y = y
Moves-flag stays y = y

-- A bit that a step sets is a probe of the hash that the thread adds, and the thread knows it.
pub Moves-set :
    {f f' : BloomFilter} {p p' : Pc}
    → IsReady f
    → Knows f p
    → Moves f p f' p'
    → (f'.bits ≡ f.bits)
      ⊎ ((flag p' ≡ true)
          × ((k : ℕ)
              → bit_set f'.bits k ≡ true
              → (bit_set f.bits k ≡ true) ⊎ (puts (length f.bits) p' k ≡ true)))
Moves-set r kn (load lt e) = inl refl
Moves-set r kn (leave le) = inl refl
Moves-set r kn (seen e m) = inl refl
Moves-set {f} r kn (won {h} {i} e m) = inr (
  refl,
  λ k y. elim (Bool-cases (k == at f h i)) [
    | inl same ↦
        inr (rw ((nat_beq_iff k (at f h i)).0 same) (probed-position (length f.bits) h i kn.0))
    | inr other ↦ inl (ground (arith, marked-bit_set f h i k r))
  ],
)
Moves-set r kn (lost e) = inl refl
Moves-set r kn (hit lt e m) = inl refl
Moves-set r kn (miss lt e) = inl refl
Moves-set r kn (found le) = inl refl
Moves-set r kn rests = inl refl
Moves-set r kn stays = inl refl
