-- ===== src/Dedup/Bloom/Race.antt =====
-- `add` and `contains` of the Bloom filter (app/vmestimator/deduplicator.go) as concurrent threads:
-- each atomic load, compare-and-swap and increment is one step, and the threads take their steps in
-- any order.
pub mod Moves
pub mod Before
pub mod Invariant
pub mod Count
pub mod Safety
pub mod Visible
pub mod Weights
pub mod Bounded
pub mod Lone
pub mod Schedule
use vmestimator.Base.{
  ℕ, zero, suc, ◌+◌, ◌/◌, ◌%◌, ◌<◌, bit_and, bit_or, ◌≡◌, Bool, true, false, ◌==◌, nat_eq, ltb,
  ◌>>=◌, Option, none, some, List, [], ◌∷◌, get_elem?, set, if◌then◌else◌,
}
use vmestimator.Words.{mask_of}
use vmestimator.Dedup.Bloom.{BloomFilter, index, hashes_count}

-- Where a thread stands, with the local variables that are live there.
pub data Pc : Type 0 where
  probing : (h i : ℕ) (is_new : Bool) → Pc  -- head of the `for` of `add`
  loaded : (h i : ℕ) (is_new : Bool) (w : ℕ) → Pc  -- head of its inner loop
  added : (h : ℕ) (is_new : Bool) → Pc  -- `add` has returned
  asking : (h i : ℕ) → Pc  -- head of the `for` of `contains`
  answered : (h : ℕ) (found : Bool) → Pc  -- `contains` has returned

abbrev pub counted : BloomFilter → Bool → BloomFilter
counted f is_new = record f { size = if is_new then f.size + 1 else f.size }

-- The index and the word of the `i`-th probe.
unfoldable pub probe : BloomFilter → ℕ → ℕ → Option (ℕ × ℕ)
unfolding index
probe f h i = do idx ← index f.bits h i; w ← get_elem? f.bits (idx / 64); some (idx, w)

-- One step of a thread, with what it leaves in the filter; `none` is a panic. A thread that has
-- returned stays where it is.
unfoldable pub move : BloomFilter → Pc → Option (BloomFilter × Pc)
unfolding probe
move f (probing h i is_new) =
    if ltb i hashes_count
    then (probe f h i >>= λ r. some (f, loaded h i is_new (r.1)))
    else some (counted f is_new, added h is_new)
move f (loaded h i is_new w) = probe f h i >>= λ r.
    let mask = mask_of (r.0 % 64) in
    some (
      if bit_and w mask == 0
      then (if r.1 == w
          then (record f { bits = set f.bits (r.0 / 64) (bit_or w mask) }, probing h (i + 1) true)
          else (f, probing h i is_new))
      else (f, probing h (i + 1) is_new))
move f (asking h i) =
    if ltb i hashes_count
    then (probe f h i >>= λ r.
        some (
          f,
          if bit_and (r.1) (mask_of (r.0 % 64)) == 0 then answered h false else asking h (i + 1),
        ))
    else some (f, answered h true)
move f (added h is_new) = some (f, added h is_new)
move f (answered h found) = some (f, answered h found)

-- The threads that share one filter; from the number of the threads on, an index names none.
pub record System : Type 0 where
  pub filter : BloomFilter
  pub pc : ℕ → Pc

unfoldable pub update : (ℕ → Pc) → ℕ → Pc → ℕ → Pc
update pc i p j = if i == j then p else pc j

pub data Step (n : ℕ) (s : System) : System → Type 0 where
  pick :
      (i : ℕ) (f : BloomFilter) (p : Pc)
      → i < n
      → move s.filter (s.pc i) ≡ some (f, p)
      → Step n s (record { filter = f; pc = update s.pc i p })

pub data Reach (n : ℕ) (s : System) : System → Type 0 where
  start : Reach n s s
  later : {t u : System} → Reach n s t → Step n t u → Reach n s u

-- A call at its beginning.
pub data IsCall : Pc → Type 0 where
  an_add : (h : ℕ) → IsCall (probing h 0 false)
  a_contains : (h : ℕ) → IsCall (asking h 0)

-- A thread alone, for at most `fuel` steps.
unfoldable pub run : ℕ → BloomFilter → Pc → Option (BloomFilter × Pc)
unfolding move
run zero f p = some (f, p)
run (suc fuel) f p = move f p >>= λ r. run fuel (r.0) (r.1)

-- The threads named in the list take a step each, one after the other.
unfoldable pub play : ℕ → List ℕ → System → Option System
unfolding move
play n [] s = some s
play n (i ∷ is) s =
    if ltb i n
    then (move s.filter (s.pc i) >>= λ r.
        play n is (record { filter = r.0; pc = update s.pc i (r.1) }))
    else none
