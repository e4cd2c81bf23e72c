-- ===== src/Tests/Races.antt =====
-- Threads that share a Bloom filter, at concrete inputs.
use vmestimator.Base.{
  ℕ, suc, zero, ◌≡◌, refl, ◌*◌, ◌^◌, ◌+◌, ◌<◌, ◌⊎◌, ◌≤◌, arith, Bool, true, false, ◌>>=◌, none,
  some, List, [], ◌∷◌, Option,
}
use vmestimator.Dedup.Bloom.{add, contains}
use vmestimator.Dedup.Bloom.Bits.{bit_set}
use vmestimator.Dedup.Bloom.Race.{
  Pc, probing, added, asking, answered, System, play, move, run, IsCall, an_add, a_contains, Reach,
  update,
}
use vmestimator.Dedup.Bloom.Race.Moves.{Moved}
use vmestimator.Dedup.Bloom.Race.Invariant.{puts, flag}
use vmestimator.Dedup.Bloom.Race.Count.{total}
use vmestimator.Dedup.Bloom.Race.Safety.{Reach-contains}
use vmestimator.Dedup.Bloom.Race.Visible.{Reach-flag, Reach-answered}
use vmestimator.Dedup.Bloom.Race.Lone.{run-sequential}
use vmestimator.Dedup.Bloom.Race.Bounded.{Busy, begin, step, Busy-bound}
use vmestimator.Dedup.Bloom.Race.Schedule.{play-Reach}

-- Its probes fall on the bits 1, 6, 11 and 16.
abbrev hash : ℕ
hash = 5 * 2 ^ 32 + 1

-- Thread 0 asks for the hash, and all others add it.
abbrev crowd_pc : ℕ → Pc
crowd_pc zero = asking hash 0
crowd_pc (suc i) = probing hash 0 false

abbrev crowd : System
crowd = record { filter = record { size = 0; bits = 0 ∷ [] }; pc = crowd_pc }

crowd-IsCall : (i : ℕ) → IsCall (crowd.pc i)
crowd-IsCall zero = a_contains hash
crowd-IsCall (suc i) = an_add hash

abbrev or_crowd : Option System → System
or_crowd none = crowd
or_crowd (some s) = s

-- Threads 1 and 2 load the same word, and thread 2 loses its compare-and-swap; then both return.
abbrev both : List ℕ
both = 1 ∷ 2 ∷ 1 ∷ 2 ∷ 1 ∷ 2 ∷ 1 ∷ 2 ∷ 1 ∷ 2 ∷ 1 ∷ 2 ∷ 1 ∷ 2 ∷ 1 ∷ 2 ∷ 1 ∷ 2 ∷ 1 ∷ 2 ∷ 2 ∷ 2 ∷ []

abbrev raced : System
unfolding play update
raced = or_crowd (play 3 both crowd)

raced-Reach : Reach 3 crowd raced
unfolding play update
raced-Reach = play-Reach 3 both crowd raced refl

-- The two threads set two bits each, so both report the hash, and the size counts it twice.
abbrev shared : List ℕ
shared = 1 ∷ 1 ∷ 2 ∷ 2 ∷ 2 ∷ 2 ∷ 1 ∷ 1 ∷ 1 ∷ 1 ∷ 2 ∷ 2 ∷ 1 ∷ 1 ∷ 1 ∷ 2 ∷ 2 ∷ 2 ∷ []

raced_one : raced.pc 1 ≡ added hash true
unfolding play update
raced_one = refl

raced_two : raced.pc 2 ≡ added hash false
unfolding play update
raced_two = refl

shared_twice : (or_crowd (play 3 shared crowd)).filter.size ≡ 2
unfolding play update
shared_twice = refl

Reach-contains_example :
    ((i : ℕ) → Moved raced.filter (raced.pc i) (move raced.filter (raced.pc i)))
    × ((i h : ℕ) (is_new : Bool)
        → raced.pc i ≡ added h is_new
        → contains raced.filter h ≡ some true)
    × ((i h : ℕ) → raced.pc i ≡ answered h true → contains raced.filter h ≡ some true)
    × ((h : ℕ) → contains crowd.filter h ≡ some true → contains raced.filter h ≡ some true)
    × (raced.filter.size ≡ 0 + total 3 raced.pc)
    × ((k : ℕ)
        → bit_set raced.filter.bits k ≡ true
        → (bit_set crowd.filter.bits k ≡ true)
          ⊎ ((i : ℕ) × (i < 3) × (puts 1 (raced.pc i) k ≡ true)))
Reach-contains_example = Reach-contains (omega arith, omega arith) crowd-IsCall raced-Reach

Reach-flag_example : (j : ℕ) × (j < 3) × (flag (raced.pc j) ≡ true)
unfolding contains
Reach-flag_example =
    Reach-flag (omega arith, omega arith) crowd-IsCall raced-Reach 2 hash false raced_two refl

-- Thread 0 asks after the others have returned.
abbrev asked : System
unfolding play update
asked = or_crowd (play 3 (0 ∷ 0 ∷ 0 ∷ 0 ∷ 0 ∷ []) raced)

asked-Reach : Reach 3 raced asked
unfolding play update
asked-Reach = play-Reach 3 (0 ∷ 0 ∷ 0 ∷ 0 ∷ 0 ∷ []) raced asked refl

raced_zero : raced.pc 0 ≡ asking hash 0
unfolding play update
raced_zero = refl

asked_zero : asked.pc 0 ≡ answered hash true
unfolding play update
asked_zero = refl

Reach-answered_example : ◌≡◌ {A = Bool} true true
Reach-answered_example =
    Reach-answered (omega arith, omega arith) crowd-IsCall raced-Reach 2 0 hash false true raced_two
      raced_zero asked-Reach asked_zero

run-sequential_example :
    (run 9 crowd.filter (probing hash 0 false)
      ≡ (add crowd.filter hash >>= λ r. some (r.0, added hash (r.1))))
    × (run 5 crowd.filter (asking hash 0)
        ≡ (contains crowd.filter hash >>= λ b. some (crowd.filter, answered hash b)))
run-sequential_example = run-sequential crowd.filter hash (omega arith, omega arith)

-- Thread 1 takes a load and a compare-and-swap.
two_steps : Busy 3 crowd 2 (or_crowd (play 3 (1 ∷ 1 ∷ []) crowd))
unfolding play update move
two_steps = step 1 _ _ (step 1 _ _ begin (omega arith) refl refl) (omega arith) refl refl

Busy-bound_example : 2 ≤ (1 * 64 * (3 * 2) + 3 * 9)
Busy-bound_example = Busy-bound (omega arith, omega arith) crowd-IsCall two_steps
