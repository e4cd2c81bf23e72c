-- ===== src/Dedup/Bloom/Race/Before.antt =====
-- What the threads of a Bloom filter (app/vmestimator/deduplicator.go) know of the bits while they
-- run: the probes that they are through with are set, and a set bit stays set.
use vmestimator.Base.{
  ℕ, zero, suc, ◌+◌, ◌<◌, ◌≤◌, ◌≡◌, refl, ◌∙◌, Bool, true, arith, ◌==◌, ◌||◌, nat_eq, List, length,
  inl, inr, length-set, ==_refl, Bool-cases,
}
use vmestimator.Dedup.Bloom.{BloomFilter, hashes_count}
use vmestimator.Dedup.Bloom.Bits.{bit_set, bit_set-set}
use vmestimator.Dedup.Bloom.Probes.{position, position-div-lt, all_set}
use vmestimator.Dedup.Bloom.Laws.{IsReady, holds}
use vmestimator.Dedup.Bloom.Race.{Pc, counted}
use vmestimator.Dedup.Bloom.Race.Moves.{
  at, marked, Moves, load, leave, seen, won, lost, hit, miss, found, rests, stays,
}

-- The probes of `h` before the `i`-th are set.
pub Before : BloomFilter → ℕ → ℕ → Type 0
Before f h i = (j : ℕ) → j < i → bit_set f.bits (at f h j) ≡ true

all_set-each :
    (rounds : ℕ) (bits : List ℕ) (h i : ℕ)
    → ((j : ℕ) → j < i + rounds → bit_set bits (position (length bits) h j) ≡ true)
    → all_set rounds bits h i ≡ true
unfolding all_set
all_set-each zero bits h i k = refl
all_set-each (suc rounds) bits h i k =
    ground (arith, k i, all_set-each rounds bits h (i + 1) (λ j lt. k j (omega arith)))

each-all_set :
    (rounds : ℕ) (bits : List ℕ) (h i j : ℕ)
    → all_set rounds bits h i ≡ true
    → i ≤ j
    → j < i + rounds
    → bit_set bits (position (length bits) h j) ≡ true
unfolding all_set
each-all_set zero bits h i j all lo hi = absurd (omega arith)
each-all_set (suc rounds) bits h i j all lo hi =
    ground (arith, each-all_set rounds bits h (i + 1) j)

pub Before-holds : (f : BloomFilter) (h i : ℕ) → 4 ≤ i → Before f h i → holds f h ≡ true
unfolding Before holds
Before-holds f h i enough k = all_set-each hashes_count f.bits h 0 (λ j lt. k j (omega arith))

pub holds-Before : (f : BloomFilter) (h : ℕ) → holds f h ≡ true → Before f h 4
unfolding Before holds
holds-Before f h all j lt = each-all_set hashes_count f.bits h 0 j all (omega arith) (omega arith)

pub holds-bit_set :
    (f : BloomFilter) (h j : ℕ) → holds f h ≡ true → j < 4 → bit_set f.bits (at f h j) ≡ true
unfolding Before
holds-bit_set f h j all lt = holds-Before f h all j lt

pub Before-zero : (f : BloomFilter) (h : ℕ) → Before f h 0
unfolding Before
Before-zero f h j lt = absurd (omega arith)

pub Before-next :
    (f : BloomFilter) (h i j : ℕ)
    → j ≡ i + 1
    → Before f h i
    → bit_set f.bits (at f h i) ≡ true
    → Before f h j
unfolding Before
Before-next f h i j e k now l lt = elim (Bool-cases (l == i)) [
  | inl same ↦ ground (arith, same, now)
  | inr other ↦ k l (ground arith)
]

-- What one step does to the bits.
pub record Grows (f f' : BloomFilter) : Type 0 where
  pub len : length f'.bits ≡ length f.bits
  pub more : (k : ℕ) → bit_set f.bits k ≡ true → bit_set f'.bits k ≡ true

pub Grows-refl : (f : BloomFilter) → Grows f f
Grows-refl f = record { len = refl; more = λ k e. e }

pub Grows-trans : (f g h : BloomFilter) → Grows f g → Grows g h → Grows f h
Grows-trans f g h a b = record { len = b.len ∙ a.len; more = λ k e. b.more k (a.more k e) }

pub Grows-IsReady : (f f' : BloomFilter) → Grows f f' → IsReady f → IsReady f'
Grows-IsReady f f' g r = rw g.len r

pub Grows-Before : (f f' : BloomFilter) (h i : ℕ) → Grows f f' → Before f h i → Before f' h i
unfolding Before
Grows-Before f f' h i g k j lt = rw g.len (g.more (at f h j) (k j lt))

pub Grows-holds : (f f' : BloomFilter) (h : ℕ) → Grows f f' → holds f h ≡ true → holds f' h ≡ true
Grows-holds f f' h g e =
    Before-holds f' h 4 (omega arith) (Grows-Before f f' h 4 g (holds-Before f h e))

pub marked-bit_set :
    (f : BloomFilter) (h i k : ℕ)
    → IsReady f
    → bit_set (marked f h i).bits k ≡ ((k == at f h i) || bit_set f.bits k)
marked-bit_set f h i k r = bit_set-set f.bits (at f h i) k (position-div-lt (length f.bits) h i r)

pub marked-Grows : (f : BloomFilter) (h i : ℕ) → IsReady f → Grows f (marked f h i)
marked-Grows f h i r = record {
  len = length-set f.bits _ _;
  more = λ k e. marked-bit_set f h i k r ∙ ground (arith, e);
}

pub marked_self :
    (f : BloomFilter) (h i : ℕ)
    → IsReady f
    → bit_set (marked f h i).bits (at (marked f h i) h i) ≡ true
marked_self f h i r =
    rw (marked-Grows f h i r).len
      (marked-bit_set f h i (at f h i) r ∙ ground (arith, ==_refl (at f h i)))

pub counted-Grows : (f : BloomFilter) (b : Bool) → Grows f (counted f b)
counted-Grows f b = record { len = refl; more = λ k e. e }

pub Moves-Grows : {f f' : BloomFilter} {p p' : Pc} → IsReady f → Moves f p f' p' → Grows f f'
Moves-Grows {f} r (load lt e) = Grows-refl f
Moves-Grows {f} r (leave {b} le) = counted-Grows f b
Moves-Grows {f} r (seen e n) = Grows-refl f
Moves-Grows {f} r (won {h} {i} e n) = marked-Grows f h i r
Moves-Grows {f} r (lost e) = Grows-refl f
Moves-Grows {f} r (hit lt e n) = Grows-refl f
Moves-Grows {f} r (miss lt e) = Grows-refl f
Moves-Grows {f} r (found le) = Grows-refl f
Moves-Grows {f} r rests = Grows-refl f
Moves-Grows {f} r stays = Grows-refl f
