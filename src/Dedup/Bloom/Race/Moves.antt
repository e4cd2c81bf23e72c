-- ===== src/Dedup/Bloom/Race/Moves.antt =====
-- The steps of a thread of the Bloom filter (app/vmestimator/deduplicator.go), read against the set
-- of bit positions.
use mathlib.Core.Path.{subst}
use vmestimator.Base.{
  sym, ℕ, ◌+◌, ◌/◌, ◌%◌, ◌<◌, ◌≤◌, bit_and, bit_or, ◌≡◌, ◌≢◌, refl, Bool, true, false, not, arith,
  ◌==◌, nat_eq, ltb, Option, some, length, get_or, set, if◌then◌else◌, get_elem?-eq-get_or,
  nat_beq_iff,
}
use vmestimator.Words.{mask_of, bit_at}
use vmestimator.Dedup.Bloom.{BloomFilter, hashes_count}
use vmestimator.Dedup.Bloom.Bits.{bit_set, unset_test, bit_and-mask_of}
use vmestimator.Dedup.Bloom.Laws.{IsReady}
use vmestimator.Dedup.Bloom.Probes.{position, position-div-lt, index-position}
use vmestimator.Dedup.Bloom.Race.{
  Pc, probing, loaded, added, asking, answered, counted, probe, move,
}

abbrev pub at : BloomFilter → ℕ → ℕ → ℕ
at f h i = position (length f.bits) h i

abbrev pub word_at : BloomFilter → ℕ → ℕ → ℕ
word_at f h i = get_or f.bits (at f h i / 64) 0

abbrev pub marked : BloomFilter → ℕ → ℕ → BloomFilter
marked f h i = record f {
  bits = set f.bits (at f h i / 64) (bit_or (word_at f h i) (mask_of (at f h i % 64)));
}

-- What a step can do to the filter and to the thread.
pub data Moves (f : BloomFilter) : Pc → BloomFilter → Pc → Type 0 where
  load :
      {h i : ℕ} {b : Bool} {w : ℕ}
      → i < 4
      → w ≡ word_at f h i
      → Moves f (probing h i b) f (loaded h i b w)
  leave : {h i : ℕ} {b : Bool} → 4 ≤ i → Moves f (probing h i b) (counted f b) (added h b)
  seen :
      {h i : ℕ} {b : Bool} {w j : ℕ}
      → (bit_at w (at f h i % 64) == 1) ≡ true
      → j ≡ i + 1
      → Moves f (loaded h i b w) f (probing h j b)
  won :
      {h i : ℕ} {b : Bool} {w j : ℕ}
      → bit_set f.bits (at f h i) ≡ false
      → j ≡ i + 1
      → Moves f (loaded h i b w) (marked f h i) (probing h j true)
  lost :
      {h i : ℕ} {b : Bool} {w : ℕ} → word_at f h i ≢ w → Moves f (loaded h i b w) f (probing h i b)
  hit :
      {h i j : ℕ}
      → i < 4
      → bit_set f.bits (at f h i) ≡ true
      → j ≡ i + 1
      → Moves f (asking h i) f (asking h j)
  miss :
      {h i : ℕ}
      → i < 4
      → bit_set f.bits (at f h i) ≡ false
      → Moves f (asking h i) f (answered h false)
  found : {h i : ℕ} → 4 ≤ i → Moves f (asking h i) f (answered h true)
  rests : {h : ℕ} {b : Bool} → Moves f (added h b) f (added h b)
  stays : {h : ℕ} {b : Bool} → Moves f (answered h b) f (answered h b)

abbrev pub Moved : BloomFilter → Pc → Option (BloomFilter × Pc) → Type 0
Moved f p r = (f' : BloomFilter) × (p' : Pc) × (r ≡ some (f', p')) × Moves f p f' p'

bit_is : (w b : ℕ) → b < 64 → (bit_and w (mask_of b) == 0) ≡ false → (bit_at w b == 1) ≡ true
bit_is w b small e = ground (arith, bit_and-mask_of w b small)

module _ (f : BloomFilter) (r : IsReady f) where
  pub probe-at : (h i : ℕ) → probe f h i ≡ some (at f h i, word_at f h i)
  unfolding probe
  probe-at h i =
      rw
        (
          index-position f.bits h i r,
          get_elem?-eq-get_or f.bits (at f h i / 64) 0 (position-div-lt (length f.bits) h i r),
        )
        refl

  probing-Moves :
      (h i : ℕ) (b c : Bool)
      → ltb i hashes_count ≡ c
      → Moved f
          (probing h i b)
          (if c then some (f, loaded h i b (word_at f h i)) else some (counted f b, added h b))
  probing-Moves h i b true e = (f, loaded h i b (word_at f h i), refl, load (ground arith) refl)
  probing-Moves h i b false e = (counted f b, added h b, refl, leave (ground arith))

  asking-Moves :
      (h i : ℕ) (c d : Bool)
      → ltb i hashes_count ≡ c
      → not (bit_set f.bits (at f h i)) ≡ d
      → Moved f (asking h i) (
          if c
          then some (f, if d then answered h false else asking h (i + 1))
          else some (f, answered h true))
  asking-Moves h i true true e miss_it =
      (f, answered h false, refl, miss (ground arith) (ground arith))
  asking-Moves h i true false e hit_it =
      (f, asking h (i + 1), refl, hit (ground arith) (ground arith) refl)
  asking-Moves h i false d e any = (f, answered h true, refl, found (ground arith))

  loaded-Moves :
      (h i : ℕ) (b : Bool) (w : ℕ) (c d : Bool)
      → (bit_and w (mask_of (at f h i % 64)) == 0) ≡ c
      → (word_at f h i == w) ≡ d
      → Moved f (loaded h i b w) (
          some (
            if c
            then (if d
                then (
                  record f {
                    bits = set f.bits (at f h i / 64) (bit_or w (mask_of (at f h i % 64)));
                  },
                  probing h (i + 1) true,
                )
                else (f, probing h i b))
            else (f, probing h (i + 1) b)))
  loaded-Moves h i b w true true unset same =
      subst
        (λ (x : ℕ). Moved f (loaded h i b x) (
          some (
            record f { bits = set f.bits (at f h i / 64) (bit_or x (mask_of (at f h i % 64))) },
            probing h (i + 1) true,
          )))
        ((nat_beq_iff (word_at f h i) w).0 same)
        (
          marked f h i,
          probing h (i + 1) true,
          refl,
          won (ground (arith, unset_test f.bits (at f h i), (nat_beq_iff (word_at f h i) w).0 same))
              refl,
        )
  loaded-Moves h i b w true false unset other =
      (f, probing h i b, refl, lost (ground (arith, other)))
  loaded-Moves h i b w false d is_set any =
      (f, probing h (i + 1) b, refl, seen (bit_is w (at f h i % 64) (omega arith) is_set) refl)

  -- No step panics.
  pub move-Moves : (p : Pc) → Moved f p (move f p)
  unfolding move
  move-Moves (probing h i b) = rw (probe-at h i) (probing-Moves h i b _ refl)
  move-Moves (loaded h i b w) = rw (probe-at h i) (loaded-Moves h i b w _ _ refl refl)
  move-Moves (asking h i) =
      rw (probe-at h i) (asking-Moves h i _ _ refl (sym (unset_test f.bits (at f h i))))
  move-Moves (added h b) = (f, added h b, refl, rests)
  move-Moves (answered h b) = (f, answered h b, refl, stays)
