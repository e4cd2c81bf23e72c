-- ===== src/Dedup/Bloom/Race/Lone.antt =====
-- A thread of a Bloom filter (app/vmestimator/deduplicator.go) that runs alone.
use vmestimator.Base.{
  ℕ, zero, suc, ◌+◌, ◌<◌, ◌≤◌, ◌≡◌, refl, Bool, true, false, not, ◌&&◌, arith, List, ◌∙◌, some,
  none, Option, ◌>>=◌, nat_eq, ltb, lt→ltb, if◌then◌else◌, length-set, ==_refl,
}
use vmestimator.Dedup.Bloom.{BloomFilter, add, add_from, contains, hashes_count}
use vmestimator.Dedup.Bloom.Bits.{bit_set, unset_test}
use vmestimator.Dedup.Bloom.Laws.{IsReady, holds, contains-holds}
use vmestimator.Dedup.Bloom.Probes.{all_set, add_from-suc}
use vmestimator.Dedup.Bloom.Race.{Pc, probing, loaded, added, asking, answered, move, run, counted}
use vmestimator.Dedup.Bloom.Race.Moves.{at, word_at, marked, probe-at}

ltb-le : (a b : ℕ) → b ≤ a → ltb a b ≡ false
ltb-le a b h = ground arith

module _ (f : BloomFilter) (r : IsReady f) where
  move-probing :
      (h i : ℕ) (b : Bool) → i < 4 → move f (probing h i b) ≡ some (f, loaded h i b (word_at f h i))
  unfolding move
  move-probing h i b lt = rw (lt→ltb i 4 lt, probe-at f r h i) refl

  move-loaded :
      (h i : ℕ) (b : Bool)
      → move f (loaded h i b (word_at f h i))
        ≡ some (
            if bit_set f.bits (at f h i)
            then (f, probing h (i + 1) b)
            else (marked f h i, probing h (i + 1) true))
  unfolding move
  move-loaded h i b =
      rw (probe-at f r h i, unset_test f.bits (at f h i), ==_refl (word_at f h i))
        (by_flag (bit_set f.bits (at f h i)))
    where
      by_flag :
          (c : Bool)
          → ◌≡◌ {A = Option (BloomFilter × Pc)}
              (some (
                if not c then (marked f h i, probing h (i + 1) true) else (f, probing h (i + 1) b)))
              (some
                (if c then (f, probing h (i + 1) b) else (marked f h i, probing h (i + 1) true)))
      by_flag true = refl
      by_flag false = refl

  run_twice :
      (k h i : ℕ) (b : Bool)
      → i < 4
      → run (suc (suc k)) f (probing h i b) ≡ (
          if bit_set f.bits (at f h i)
          then run k f (probing h (i + 1) b)
          else run k (marked f h i) (probing h (i + 1) true))
  unfolding run
  run_twice k h i b lt =
      rw (move-probing h i b lt, move-loaded h i b) (by_flag (bit_set f.bits (at f h i)))
    where
      by_flag :
          (c : Bool)
          → ◌>>=◌ {A = BloomFilter × Pc}
              (some
                (if c then (f, probing h (i + 1) b) else (marked f h i, probing h (i + 1) true)))
              (λ r. run k (r.0) (r.1))
            ≡ (if c
                then run k f (probing h (i + 1) b)
                else run k (marked f h i) (probing h (i + 1) true))
      by_flag true = refl
      by_flag false = refl

-- What `add` leaves, from the result of its loop.
abbrev added_of : BloomFilter → ℕ → Option (List ℕ × Bool) → Option (BloomFilter × Pc)
added_of f h r = r >>= λ x. some (counted (record f { bits = x.0 }) (x.1), added h (x.1))

-- The steps of `rounds` rounds and of the return.
abbrev fuel_for : ℕ → ℕ
fuel_for zero = 1
fuel_for (suc rounds) = suc (suc (fuel_for rounds))

by_bit :
    (f : BloomFilter) (h i : ℕ) (x y : Option (BloomFilter × Pc)) (u v : Option (List ℕ × Bool))
    (c : Bool)
    → x ≡ added_of f h u
    → y ≡ added_of (marked f h i) h v
    → (if c then x else y) ≡ added_of f h (if c then u else v)
by_bit f h i x y u v true p q = p
by_bit f h i x y u v false p q = q

module _ (f : BloomFilter) (h i : ℕ) (b : Bool) where
  run-add_from_zero :
      4 ≤ i → run (fuel_for zero) f (probing h i b) ≡ added_of f h (some (f.bits, b))
  unfolding run move
  run-add_from_zero le = rw (ltb-le i 4 le) refl

run-add_from :
    (rounds : ℕ) (f : BloomFilter) (h i : ℕ) (b : Bool)
    → IsReady f
    → i + rounds ≡ 4
    → run (fuel_for rounds) f (probing h i b) ≡ added_of f h (add_from rounds f.bits h i b)
run-add_from zero f h i b r e = run-add_from_zero f h i b (omega arith) ∙ unfold add_from in refl
run-add_from (suc rounds) f h i b r e =
    rw (run_twice f r (fuel_for rounds) h i b (omega arith), add_from-suc f.bits h i r rounds b)
      (by_bit f h i _ _ _ _ (bit_set f.bits (at f h i))
        (run-add_from rounds f h (i + 1) b r (omega arith))
        (run-add_from rounds (marked f h i) h (i + 1) true (rw (length-set f.bits) r)
          (omega arith)))

abbrev counted_of : BloomFilter → List ℕ × Bool → Option (BloomFilter × Bool)
counted_of f p = some (counted (record f { bits = p.0 }) (p.1), p.1)

abbrev returned : ℕ → BloomFilter × Bool → Option (BloomFilter × Pc)
returned h r = some (r.0, added h (r.1))

bind_added :
    (f : BloomFilter) (h : ℕ) (x : Option (List ℕ × Bool))
    → added_of f h x ≡ (x >>= counted_of f >>= returned h)
bind_added f h none = refl
bind_added f h (some x) = refl

add_unfold :
    (f : BloomFilter) (h : ℕ) → add f h ≡ (add_from hashes_count f.bits h 0 false >>= counted_of f)
unfolding add
add_unfold f h = refl

module _ (f : BloomFilter) (r : IsReady f) where
  run-answered : (k h : ℕ) (b : Bool) → run k f (answered h b) ≡ some (f, answered h b)
  unfolding run move
  run-answered zero h b = refl
  run-answered (suc k) h b = run-answered k h b

  run_asking :
      (k h i : ℕ)
      → i < 4
      → run (suc k) f (asking h i) ≡ (
          if bit_set f.bits (at f h i)
          then run k f (asking h (i + 1))
          else some (f, answered h false))
  unfolding run move
  run_asking k h i lt =
      rw (lt→ltb i 4 lt, probe-at f r h i, unset_test f.bits (at f h i))
        (by_flag (bit_set f.bits (at f h i)))
    where
      by_flag :
          (c : Bool)
          → run k f (if not c then answered h false else asking h (i + 1))
            ≡ (if c then run k f (asking h (i + 1)) else some (f, answered h false))
      by_flag true = refl
      by_flag false = run-answered k h false

  run-found : (h i : ℕ) → 4 ≤ i → run 1 f (asking h i) ≡ some (f, answered h true)
  unfolding run move
  run-found h i le = rw (ltb-le i 4 le) refl

  run-all_set :
      (rounds h i : ℕ)
      → i + rounds ≡ 4
      → run (suc rounds) f (asking h i) ≡ some (f, answered h (all_set rounds f.bits h i))
  unfolding all_set
  run-all_set zero h i e = run-found h i (omega arith)
  run-all_set (suc rounds) h i e =
      run_asking (suc rounds) h i (omega arith)
      ∙ by_flag (bit_set f.bits (at f h i)) (run-all_set rounds h (i + 1) (omega arith))
    where
      by_flag :
          {x : Option (BloomFilter × Pc)} {y : Bool} (c : Bool)
          → x ≡ some (f, answered h y)
          → (if c then x else some (f, answered h false)) ≡ some (f, answered h (c && y))
      by_flag true e' = e'
      by_flag false e' = refl

-- A thread that runs alone on a filter that is ready does with its atomic steps what `add`, and
-- what `contains`, does in one step: it returns after at most nine steps, and needs no repetition
-- of a compare-and-swap.
pub run-sequential :
    (f : BloomFilter) (h : ℕ)
    → IsReady f
    → (run 9 f (probing h 0 false) ≡ (add f h >>= returned h))
      × (run 5 f (asking h 0) ≡ (contains f h >>= λ b. some (f, answered h b)))
run-sequential f h r = (
  run-add_from hashes_count f h 0 false r (omega arith)
      ∙ rw (add_unfold f h) (bind_added f h (add_from hashes_count f.bits h 0 false)),
  run-all_set f r hashes_count h 0 (omega arith) ∙ rw (contains-holds f h r) (unfold holds in refl),
)
