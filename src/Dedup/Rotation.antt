-- ===== src/Dedup/Rotation.antt =====
-- The construction, the reset and the rotation of the deduplicator
-- (app/vmestimator/deduplicator.go).
use native.Mathlib.Nat.{add-div_right}
use vmestimator.Base.{
  ℕ, zero, suc, ◌+◌, ◌-◌, ◌/◌, ◌%◌, ◌^◌, ◌≤◌, ◌<◌, ◌≡◌, refl, ◌∙◌, ◌⊎◌, inl, inr, ◌↔◌, Bool, true,
  false, ◌==◌, nat_eq, arith, Option, none, some, List, length, get_elem?, set, replicate,
  if◌then◌else◌, ◌>>=◌, Bool-cases, All, All-set, All-replicate, get_elem?-set_self,
  get_elem?-set_ne, get_elem?-replicate, length-set, length-replicate, nat_beq_iff,
}
use vmestimator.Dedup.{
  Deduplicator, new_deduplicator, reset, rotate, rotation_index, min_max_size, min_interval,
  buckets_count,
}
use vmestimator.Dedup.Bloom.{BloomFilter, new_bloom_filter, contains}
use vmestimator.Dedup.Bloom.Laws.{new_bloom_filter-empty}
use vmestimator.Dedup.Step.{IsValid, FitsBucket, seen}

new-FitsBucket : (n : ℕ) → 0 < n → n < 2 ^ 59 → FitsBucket n (new_bloom_filter n)
new-FitsBucket n p q =
    let (ready, size, words, empty) = new_bloom_filter-empty n p q in (ready, omega arith)

cleared_bucket :
    (n h : ℕ) (bfs : List BloomFilter) (i : ℕ)
    → 0 < n
    → n < 2 ^ 59
    → get_elem? bfs i ≡ some (new_bloom_filter n)
    → (get_elem? bfs i >>= λ f. contains f h) ≡ some false
cleared_bucket n h bfs i p q e =
    let (ready, size, words, empty) = new_bloom_filter-empty n p q in rw e (empty h)

-- The filters of a new deduplicator, and of one that was reset.
abbrev new_filters : ℕ → List BloomFilter
new_filters n = replicate buckets_count (new_bloom_filter n)

new_filters-cleared :
    (n h : ℕ)
    → 0 < n
    → n < 2 ^ 59
    → (get_elem? (new_filters n) (h % 10) >>= λ f. contains f h) ≡ some false
new_filters-cleared n h p q =
    cleared_bucket n h (new_filters n) (h % 10) p q
      (get_elem?-replicate buckets_count (h % 10) (new_bloom_filter n) (omega arith))

new_filters-FitsBucket : (n : ℕ) → 0 < n → n < 2 ^ 59 → All (FitsBucket n) (new_filters n)
new_filters-FitsBucket n p q =
    All-replicate (FitsBucket n) buckets_count (new_bloom_filter n) (new-FitsBucket n p q)

rotation_index-lt : (d : Deduplicator) (boundary : ℕ) → rotation_index d boundary < 10
unfolding rotation_index
rotation_index-lt d boundary = omega arith

-- A size below 10000 or an interval of at most 30s makes the constructor panic.
pub new_deduplicator-none :
    (max_size interval : ℕ)
    → (new_deduplicator max_size interval ≡ none)
      ↔ ((max_size ≤ min_max_size) ⊎ (interval ≤ min_interval))
unfolding new_deduplicator
new_deduplicator-none max_size interval = ground arith

-- With a size from 10000 to 2 ^ 59 - 1 and an interval above 30s the constructor returns a valid
-- deduplicator that has seen nothing.
pub new_deduplicator-IsValid :
    (max_size interval : ℕ)
    → min_max_size < max_size
    → max_size < 2 ^ 59
    → min_interval < interval
    → (d : Deduplicator) × (new_deduplicator max_size interval ≡ some d)
      × IsValid d
      × ((h : ℕ) → seen d h ≡ some false)
unfolding new_deduplicator seen
new_deduplicator-IsValid max_size interval big small long =
    let n : ℕ = max_size / 10 in
    (
      record {
        max_size = max_size;
        interval = interval;
        bucket_max_size = n;
        bfs = new_filters n;
        passed_total = 0;
        dropped_total = 0;
      },
      ground arith,
      record {
        ten = length-replicate buckets_count (new_bloom_filter n);
        share = refl;
        room = omega arith;
        bounded = omega arith;
        buckets = new_filters-FitsBucket n (omega arith) (omega arith);
      },
      λ h. new_filters-cleared n h (omega arith) (omega arith),
    )

-- A reset keeps the deduplicator valid, with its limits and counters, and forgets every series.
pub reset-IsValid :
    (d : Deduplicator)
    → IsValid d
    → IsValid (reset d)
      × ((h : ℕ) → seen (reset d) h ≡ some false)
      × ((reset d).bucket_max_size ≡ d.bucket_max_size)
      × ((reset d).passed_total ≡ d.passed_total)
      × ((reset d).dropped_total ≡ d.dropped_total)
unfolding reset seen
reset-IsValid d v = (
  record {
    ten = length-replicate buckets_count (new_bloom_filter d.bucket_max_size);
    share = v.share;
    room = v.room;
    bounded = v.bounded;
    buckets = new_filters-FitsBucket d.bucket_max_size v.room v.bounded;
  },
  λ h. new_filters-cleared d.bucket_max_size h v.room v.bounded,
  refl,
  refl,
  refl,
)

-- A rotation at a boundary keeps the deduplicator valid, forgets the series of the one bucket whose
-- turn it is, and leaves what it says of all others as it was.
pub rotate-seen :
    (d : Deduplicator) (boundary : ℕ)
    → IsValid d
    → IsValid (rotate d boundary)
      × ((h : ℕ)
          → seen (rotate d boundary) h
            ≡ (if h % 10 == rotation_index d boundary then some false else seen d h))
unfolding rotate seen
rotate-seen d boundary v =
    let n = d.bucket_max_size in
    let i = rotation_index d boundary in
    let in_range : i < length d.bfs = rw v.ten (rotation_index-lt d boundary) in
    (
      record {
        ten = length-set d.bfs i (new_bloom_filter n) ∙ v.ten;
        share = v.share;
        room = v.room;
        bounded = v.bounded;
        buckets =
            All-set (FitsBucket n) d.bfs i (new_bloom_filter n) v.buckets
              (new-FitsBucket n v.room v.bounded);
      },
      λ h. elim (Bool-cases (h % 10 == i)) [
        | inl same ↦ rw same (
            cleared_bucket n h (set d.bfs i (new_bloom_filter n)) (h % 10) v.room v.bounded (
              rw ((nat_beq_iff (h % 10) i).0 same)
                (get_elem?-set_self d.bfs i (new_bloom_filter n) in_range)))
        | inr other ↦
            rw (other, get_elem?-set_ne d.bfs i (h % 10) (new_bloom_filter n) (ground arith))
      ],
    )

-- A boundary one tenth of the interval later is the turn of the next of the ten buckets.
pub rotation_index-next :
    (d : Deduplicator) (boundary : ℕ)
    → 10 ≤ d.interval
    → rotation_index d (boundary + d.interval / 10) ≡ (rotation_index d boundary + 1) % 10
unfolding rotation_index
rotation_index-next d boundary h =
    omega (arith, add-div_right boundary {k = d.interval / 10} (omega arith))

-- The rotations at the `n` boundaries that follow one another from `boundary` on.
abbrev pub rotations : ℕ → Deduplicator → ℕ → Deduplicator
rotations zero d boundary = d
rotations (suc n) d boundary = rotations n (rotate d boundary) (boundary + d.interval / 10)

rotations_forgotten :
    (n : ℕ) (d : Deduplicator) (boundary h : ℕ)
    → IsValid d
    → seen d h ≡ some false
    → seen (rotations n d boundary) h ≡ some false
rotations_forgotten zero d boundary h v e = e
rotations_forgotten (suc n) d boundary h v e =
    let (v', s) = rotate-seen d boundary v in
    rotations_forgotten n (rotate d boundary) (boundary + d.interval / 10) h v'
      (s h ∙ rw e (if_same (h % 10 == rotation_index d boundary)))
  where
    if_same : (b : Bool) → ◌≡◌ {A = Option Bool} (if b then some false else some false) (some false)
    if_same true = refl
    if_same false = refl

rotation_index-rotate :
    (d : Deduplicator) (boundary b : ℕ) → rotation_index (rotate d boundary) b ≡ rotation_index d b
unfolding rotate rotation_index
rotation_index-rotate d boundary b = refl

interval-rotate : (d : Deduplicator) (boundary : ℕ) → (rotate d boundary).interval ≡ d.interval
unfolding rotate
interval-rotate d boundary = refl

-- The bucket whose turn is the `k`-th from here is forgotten after more than `k` rotations.
rotations_turn :
    (n k : ℕ) (d : Deduplicator) (boundary h : ℕ)
    → IsValid d
    → 10 ≤ d.interval
    → k < n
    → (rotation_index d boundary + k) % 10 ≡ h % 10
    → seen (rotations n d boundary) h ≡ some false
rotations_turn zero k d boundary h v long lt turn = absurd (omega arith)
rotations_turn (suc n) zero d boundary h v long lt turn =
    let (v', s) = rotate-seen d boundary v in
    let mine : (h % 10 == rotation_index d boundary) ≡ true =
      ground (arith, rotation_index-lt d boundary) in
    rotations_forgotten n (rotate d boundary) (boundary + d.interval / 10) h v' (s h ∙ rw mine)
rotations_turn (suc n) (suc k) d boundary h v long lt turn =
    rotations_turn n k (rotate d boundary) (boundary + d.interval / 10) h
      (rotate-seen d boundary v).0 (rw (interval-rotate d boundary) long) (omega arith)
      (omega (
        arith,
        rotation_index-rotate d boundary (boundary + d.interval / 10),
        rotation_index-next d boundary long,
      ))

-- Ten rotations one tenth of the interval apart, from any boundary on, forget every series: nothing
-- is remembered longer than the interval.
pub rotations-unseen :
    (d : Deduplicator) (boundary h : ℕ)
    → IsValid d
    → 10 ≤ d.interval
    → seen (rotations 10 d boundary) h ≡ some false
rotations-unseen d boundary h v long =
    rotations_turn 10 ((h % 10 + 10 - rotation_index d boundary) % 10) d boundary h v long
      (omega arith) (omega (arith, rotation_index-lt d boundary))
