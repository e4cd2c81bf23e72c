-- ===== src/Dedup/Bloom.antt =====
-- `deduplicatorBloomFilter` of app/vmestimator/deduplicator.go: a slice of 64-bit words, four probes
-- for each hash. `none` is a run-time panic: a remainder by zero or an index out of range.
-- Here the atomic operations of one call are one step, so that a compare-and-swap succeeds at once;
-- in Bloom/Race each is a step of its own.
pub mod Bits
pub mod Probes
pub mod Laws
pub mod Race
use vmestimator.Base.{
  ℕ, zero, suc, ◌+◌, ◌*◌, ◌/◌, ◌%◌, bit_and, bit_or, Bool, true, false, ◌==◌, nat_eq, ◌>>=◌, Option,
  none, some, List, length, get_elem?, set, replicate, if◌then◌else◌,
}
use vmestimator.Words.{u64, low_half, high_half, mask_of}

abbrev pub hashes_count : ℕ
hashes_count = 4

abbrev pub bits_per_item : ℕ
bits_per_item = 16

pub record BloomFilter : Type 0 where
  pub size : ℕ
  pub bits : List ℕ

unfoldable pub new_bits : ℕ → List ℕ
new_bits max_items =
    let bits_count = u64 (max_items * bits_per_item) in replicate (u64 (bits_count + 63) / 64) 0

unfoldable pub new_bloom_filter : ℕ → BloomFilter
unfolding new_bits
new_bloom_filter max_items = record { size = 0; bits = new_bits (u64 max_items) }

-- idx := (h1 + i*h2) % maxBits
unfoldable pub index : List ℕ → ℕ → ℕ → Option ℕ
index bits h i =
    let max_bits = u64 (length bits * 64) in
    if max_bits == 0 then none else some (u64 (low_half h + u64 (i * high_half h)) % max_bits)

-- The loop of `contains`, with the rounds left.
unfoldable pub contains_from : ℕ → List ℕ → ℕ → ℕ → Option Bool
unfolding index
contains_from zero bits h i = some true
contains_from (suc rounds) bits h i = do
  idx ← index bits h i
  w ← get_elem? bits (idx / 64)
  let rest = contains_from rounds bits h (i + 1)
  if bit_and w (mask_of (idx % 64)) == 0 then some false else rest

unfoldable pub contains : BloomFilter → ℕ → Option Bool
unfolding contains_from
contains f h = contains_from hashes_count f.bits h 0

-- The loop of `add`: the words, and whether a bit was set.
unfoldable pub add_from : ℕ → List ℕ → ℕ → ℕ → Bool → Option (List ℕ × Bool)
unfolding index
add_from zero bits h i is_new = some (bits, is_new)
add_from (suc rounds) bits h i is_new = do
  idx ← index bits h i
  w ← get_elem? bits (idx / 64)
  let mask = mask_of (idx % 64)
  let unset = bit_and w mask == 0
  add_from rounds (if unset then set bits (idx / 64) (bit_or w mask) else bits) h (i + 1)
      (if unset then true else is_new)

unfoldable pub add : BloomFilter → ℕ → Option (BloomFilter × Bool)
unfolding add_from
add f h = do
  (bits, is_new) ← add_from hashes_count f.bits h 0 false
  some (record { size = if is_new then f.size + 1 else f.size; bits = bits }, is_new)
