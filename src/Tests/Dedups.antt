-- ===== src/Tests/Dedups.antt =====
-- The theorems on the deduplicator at concrete inputs.
use vmestimator.Base.{
  ℕ, ◌≡◌, refl, ◌*◌, arith, Bool, true, false, not, nat_eq, some, List, [], ◌∷◌, replicate,
  All-replicate, if◌then◌else◌,
}
use vmestimator.Series.{TimeSerie}
use vmestimator.Dedup.{Deduplicator, filter, filter_batch, second}
use vmestimator.Dedup.Bloom.{BloomFilter, add, contains}
use vmestimator.Dedup.Bloom.Laws.{IsReady, add-contains}
use vmestimator.Dedup.Step.{IsValid, FitsBucket, seen}
use vmestimator.Dedup.Filter.{Filtered, filter-Filtered}
use vmestimator.Dedup.InPlace.{filter_batch-filter}
use vmestimator.Dedup.Rotation.{rotations, rotations-unseen}
use vmestimator.Tests.Samples.{batch}

-- Ten buckets of one word, each for one item.
abbrev one_word : BloomFilter
one_word = record { size = 0; bits = 0 ∷ [] }

abbrev small : Deduplicator
small = record {
  max_size = 10;
  interval = 60 * second;
  bucket_max_size = 1;
  bfs = replicate 10 one_word;
  passed_total = 0;
  dropped_total = 0;
}

small-IsValid : IsValid small
small-IsValid = record {
  ten = refl;
  share = omega arith;
  room = omega arith;
  bounded = omega arith;
  buckets = All-replicate (FitsBucket 1) 10 one_word fit;
}
  where
    fit : FitsBucket 1 one_word
    fit = ((omega arith, omega arith), omega arith)

filter-Filtered_example :
    (d' : Deduplicator) × (out : List TimeSerie) × (filter small batch [] ≡ some (d', out))
    × Filtered small batch d' out
filter-Filtered_example = filter-Filtered batch [] small small-IsValid

filter_batch-filter_example : filter_batch small batch ≡ filter small batch []
filter_batch-filter_example = filter_batch-filter small batch

add-contains_example :
    (f' : BloomFilter) × (is_new : Bool) × (add one_word 77 ≡ some (f', is_new))
    × (contains f' 77 ≡ some true)
    × ((g : ℕ) → contains one_word g ≡ some true → contains f' g ≡ some true)
    × (contains one_word 77 ≡ some (not is_new))
    × (f'.size ≡ (if is_new then 1 else 0))
    × IsReady f'
add-contains_example = add-contains one_word 77 (omega arith, omega arith)

rotations-unseen_example : seen (rotations 10 small 123) 77 ≡ some false
rotations-unseen_example = rotations-unseen small 123 77 small-IsValid (omega arith)
