-- ===== src/Dedup/Bloom/Laws.antt =====
-- `contains`, `add` and the constructor of the Bloom filter (app/vmestimator/deduplicator.go).
use vmestimator.Base.{
  ℕ, zero, suc, ◌+◌, ◌*◌, ◌/◌, ◌%◌, ◌^◌, ◌<◌, ◌≡◌, refl, ap, ◌∙◌, Bool, true, false, not, ◌||◌,
  nat_eq, arith, some, List, length, replicate, if◌then◌else◌, length-replicate, get_or-replicate,
  ==_refl,
}
use vmestimator.Words.{u64}
use vmestimator.Words.Digits.{zero-bit_at}
use vmestimator.Dedup.Bloom.{BloomFilter, new_bits, new_bloom_filter, contains, add, hashes_count}
use vmestimator.Dedup.Bloom.Bits.{bit_set}
use vmestimator.Dedup.Bloom.Probes.{
  Fits, position, all_set, probed, contains_from-all_set, add_from-Adds,
}

abbrev pub IsReady : BloomFilter → Type 0
IsReady f = Fits (length f.bits)

-- All probes of `h` are set.
unfoldable pub holds : BloomFilter → ℕ → Bool
holds f h = all_set hashes_count f.bits h 0

pub contains-holds : (f : BloomFilter) (h : ℕ) → IsReady f → contains f h ≡ some (holds f h)
unfolding contains holds
contains-holds f h r = contains_from-all_set hashes_count f.bits h 0 r

-- The set of positions after the insertion of `h`.
abbrev pub Inserted : BloomFilter → ℕ → BloomFilter → Type 0
Inserted f h f' =
    (length f'.bits ≡ length f.bits)
    × ((j : ℕ)
        → bit_set f'.bits j ≡ (probed hashes_count (length f.bits) h 0 j || bit_set f.bits j))
    × (f'.size ≡ (if holds f h then f.size else f.size + 1))

pub add-Inserted :
    (f : BloomFilter) (h : ℕ)
    → IsReady f
    → (f' : BloomFilter) × (add f h ≡ some (f', not (holds f h))) × Inserted f h f'
unfolding add holds
add-Inserted f h r =
    let (bits', e, len, mem) = add_from-Adds hashes_count f.bits h 0 false r in
    (
      record {
        size = if not (all_set hashes_count f.bits h 0) then f.size + 1 else f.size;
        bits = bits';
      },
      rw e refl,
      (len, mem, ground arith),
    )

module _ (x y : List ℕ) (len : length y ≡ length x)
    (more : (j : ℕ) → bit_set x j ≡ true → bit_set y j ≡ true) where
  -- A set that grew still holds what it held.
  pub all_set_mono : (rounds g i : ℕ) → all_set rounds x g i ≡ true → all_set rounds y g i ≡ true
  unfolding all_set
  all_set_mono zero g i e = refl
  all_set_mono (suc rounds) g i e =
      rw len (ground (arith, more (position (length x) g i), all_set_mono rounds g (i + 1)))

all_set-probed :
    (rounds : ℕ) (y : List ℕ) (h i : ℕ)
    → ((j : ℕ) → probed rounds (length y) h i j ≡ true → bit_set y j ≡ true)
    → all_set rounds y h i ≡ true
unfolding all_set probed
all_set-probed zero y h i k = refl
all_set-probed (suc rounds) y h i k = ground (
  arith,
  k (position (length y) h i),
  ==_refl (position (length y) h i),
  all_set-probed rounds y h (i + 1) (λ j e. k j (ground (arith, e))),
)

module _ (f f' : BloomFilter) (h : ℕ) (ins : Inserted f h f') where
  -- What was inserted is held, and what was held stays held.
  pub holds-Inserted_self : holds f' h ≡ true
  unfolding holds
  holds-Inserted_self = all_set-probed hashes_count f'.bits h 0 (λ j e. ins.1 j ∙ rw (← ins.0, e))

  pub holds-Inserted_mono : (g : ℕ) → holds f g ≡ true → holds f' g ≡ true
  unfolding holds
  holds-Inserted_mono g =
      all_set_mono f.bits f'.bits ins.0 (λ j e. ground (arith, ins.1 j)) hashes_count g 0

-- Adding a hash never panics on a filter that is ready; afterwards the filter says that it contains
-- the hash, and it still contains every hash that it contained: there is no false negative.
-- The filter stays ready, and its size grows by one exactly when `add` reports a new hash, which it
-- does exactly when the filter did not contain it.
pub add-contains :
    (f : BloomFilter) (h : ℕ)
    → IsReady f
    → (f' : BloomFilter) × (is_new : Bool) × (add f h ≡ some (f', is_new))
      × (contains f' h ≡ some true)
      × ((g : ℕ) → contains f g ≡ some true → contains f' g ≡ some true)
      × (contains f h ≡ some (not is_new))
      × (f'.size ≡ (if is_new then f.size + 1 else f.size))
      × IsReady f'
add-contains f h r =
    let (f', e, ins) = add-Inserted f h r in
    let ready : IsReady f' = rw ins.0 r in
    (
      f',
      not (holds f h),
      e,
      ground (arith, contains-holds f' h ready, holds-Inserted_self f f' h ins),
      λ g c. ground (
        arith,
        contains-holds f g r,
        contains-holds f' g ready,
        holds-Inserted_mono f f' h ins g,
      ),
      ground (arith, contains-holds f h r),
      ground (arith, ins.2),
      ready,
    )

length-new_bits : (n : ℕ) → n < 2 ^ 59 → length (new_bits (u64 n)) ≡ (n * 16 + 63) / 64
unfolding new_bits
length-new_bits n q = rw length-replicate (omega arith)

bit_set-replicate : (n j : ℕ) → bit_set (replicate n 0) j ≡ false
unfolding bit_set
bit_set-replicate n j = rw (get_or-replicate {A = ℕ} n (j / 64) 0, zero-bit_at (j % 64))

holds-empty : (n h : ℕ) → holds (new_bloom_filter n) h ≡ false
unfolding new_bloom_filter new_bits holds all_set
holds-empty n h = simp bit_set-replicate

-- A new filter with room for 1 to 2 ^ 59 - 1 items has sixteen bits for each item, rounded up to
-- whole words, is ready, has size 0 and contains no hash.
pub new_bloom_filter-empty :
    (n : ℕ)
    → 0 < n
    → n < 2 ^ 59
    → IsReady (new_bloom_filter n)
      × ((new_bloom_filter n).size ≡ 0)
      × (length (new_bloom_filter n).bits ≡ (n * 16 + 63) / 64)
      × ((h : ℕ) → contains (new_bloom_filter n) h ≡ some false)
unfolding new_bloom_filter
new_bloom_filter-empty n p q =
    let words = length-new_bits n q in
    let ready : IsReady (new_bloom_filter n) = rw words (omega arith) in
    (
      ready,
      refl,
      words,
      λ h. contains-holds (new_bloom_filter n) h ready ∙ ap some (holds-empty n h),
    )
