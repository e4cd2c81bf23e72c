-- ===== src/Dedup.antt =====
-- The deduplicator (app/vmestimator/deduplicator.go). Durations and times are nanoseconds; sizes
-- are not negative (a negative `maxSize` is refused as 0 is). `none` is a panic. The two counters
-- of passed and dropped series, global in the program, are fields here.
pub mod Bloom
pub mod Step
pub mod Filter
pub mod InPlace
pub mod Rotation
use vmestimator.Base.{
  ℕ, zero, suc, ◌+◌, ◌*◌, ◌/◌, ◌%◌, Bool, true, false, ltb, leb, ◌==◌, nat_eq, ◌>>=◌, Option, none,
  some, List, [], ◌∷◌, ◌++◌, length, get_elem?, set, replicate, take, min, if◌then◌else◌,
}
use vmestimator.Series.{TimeSerie}
use Bloom.{BloomFilter, new_bloom_filter, contains, add, bits_per_item}

abbrev pub second : ℕ
second = 1_000_000_000

abbrev pub min_max_size : ℕ
min_max_size = 9999

abbrev pub min_interval : ℕ
min_interval = second * 30

abbrev pub buckets_count : ℕ
buckets_count = 10

pub record Deduplicator : Type 0 where
  pub max_size : ℕ
  pub interval : ℕ
  pub bucket_max_size : ℕ
  pub bfs : List BloomFilter
  pub passed_total : ℕ
  pub dropped_total : ℕ

unfoldable pub new_deduplicator : ℕ → ℕ → Option Deduplicator
new_deduplicator max_size interval =
    if leb max_size min_max_size
    then none
    else if leb interval min_interval
    then none
    else some (record {
      max_size = max_size;
      interval = interval;
      bucket_max_size = max_size / 10;
      bfs = replicate buckets_count (new_bloom_filter (max_size / 10));
      passed_total = 0;
      dropped_total = 0;
    })

-- if bfSize < int64(d.bucketMaxSize) { bf.add(h) }, in the bucket of the hash.
unfoldable pub remember : Deduplicator → BloomFilter → ℕ → Option (List BloomFilter)
remember d bf h =
    if ltb bf.size d.bucket_max_size
    then (add bf h >>= λ r. some (set d.bfs (h % 10) r.0))
    else some d.bfs

-- The body of the loop of `filter`: the new state, and whether the series is forwarded.
unfoldable pub filter_one : Deduplicator → TimeSerie → Option (Deduplicator × Bool)
unfolding remember
filter_one d ts = do
  bf ← get_elem? d.bfs (ts.fingerprint % 10)
  seen ← contains bf ts.fingerprint
  let pass = remember d bf ts.fingerprint >>= λ bfs.
      some (record d { bfs = bfs; passed_total = d.passed_total + 1 }, true)
  if seen then some (record d { dropped_total = d.dropped_total + 1 }, false) else pass

unfoldable pub filter :
    Deduplicator → List TimeSerie → List TimeSerie → Option (Deduplicator × List TimeSerie)
filter d [] dst = some (d, dst)
filter d (ts ∷ src) dst = do
  (d', forward) ← filter_one d ts
  filter d' src (if forward then dst ++ ts ∷ [] else dst)

-- The call `dedup.filter(tss, tss[:0])` of main.go: `dst` shares its array with `src`, so an
-- `append` writes into the array that the loop reads. `i` is the loop's index, `w` the length of
-- `dst`; the result is the array and that length.
unfoldable pub filter_in_place :
    ℕ → ℕ → ℕ → Deduplicator → List TimeSerie → Option (Deduplicator × ℕ × List TimeSerie)
filter_in_place zero i w d buf = some (d, w, buf)
filter_in_place (suc rounds) i w d buf = do
  ts ← get_elem? buf i
  (d', forward) ← filter_one d ts
  filter_in_place rounds (i + 1) (if forward then w + 1 else w) d'
      (if forward then set buf w ts else buf)

unfoldable pub filter_batch : Deduplicator → List TimeSerie → Option (Deduplicator × List TimeSerie)
unfolding filter_in_place
filter_batch d tss = do (d', w, buf) ← filter_in_place (length tss) 0 0 d tss; some (d', take w buf)

unfoldable pub reset : Deduplicator → Deduplicator
reset d = record d { bfs = replicate buckets_count (new_bloom_filter d.bucket_max_size) }

-- One pass of the loop of `runRotation` at a boundary: the bucket that it clears.
unfoldable pub rotation_index : Deduplicator → ℕ → ℕ
rotation_index d boundary = boundary / (d.interval / 10) % 10

unfoldable pub rotate : Deduplicator → ℕ → Deduplicator
unfolding rotation_index
rotate d boundary = record d {
  bfs = set d.bfs (rotation_index d boundary) (new_bloom_filter d.bucket_max_size);
}

unfoldable pub convert_max_size_bytes_to_items : ℕ → ℕ
convert_max_size_bytes_to_items bytes = bytes * 8 / bits_per_item

-- `allowed` is 5% of the memory that the runtime allows.
unfoldable pub resolve_max_size : ℕ → ℕ → ℕ → ℕ
unfolding convert_max_size_bytes_to_items
resolve_max_size size_bytes max_size allowed =
    let from_bytes = if ltb 0 size_bytes then convert_max_size_bytes_to_items size_bytes else 0 in
    if ltb 0 from_bytes
    then (if ltb 0 max_size then min from_bytes max_size else from_bytes)
    else if ltb 0 max_size
    then max_size
    else convert_max_size_bytes_to_items allowed
