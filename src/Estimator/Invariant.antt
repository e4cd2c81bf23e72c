-- ===== src/Estimator/Invariant.antt =====
-- The invariant of one bucket beside the shared `groupSize`, and what an operation on one bucket
-- must do so that the invariant of the whole estimator holds afterwards.
use vmestimator.Base.{ℕ, ◌≤◌, ◌<◌, ◌≡◌, ◌≢◌, some, [], length, get_elem?, sum, IsUnique, nat_eq}
use vmestimator.Estimator.GroupSize.{GroupSize}
use vmestimator.Estimator.Bucket.{Bucket}
use vmestimator.Estimator.Tracked.{tracked}

-- The total is the sum of the shares, and within the limit.
pub record IsBalanced {S : Type 0} (gs : GroupSize S) : Type 0 where
  pub total : gs.size ≡ sum gs.bucket_sizes
  pub bounded : gs.size ≤ gs.limit

-- The bucket at index `i`: its share is the number of groups that it holds.
pub record IsCounted {S : Type 0} (gs : GroupSize S) (i : ℕ) (b : Bucket S) : Type 0 where
  pub at : b.idx ≡ i
  pub share : get_elem? gs.bucket_sizes i ≡ some (tracked b.groups b.prev_groups)
  pub slot : i < length gs.reject_sketches
  pub unique : IsUnique b.groups
  pub unique_prev : IsUnique b.prev_groups
  pub precise : (4 ≤ b.precision) × (b.precision ≤ 18)
  pub sketched : b.group_by ≡ [] → (sk : S) × (b.sketch ≡ some sk)

-- A step of the bucket at index `i`, seen from the shared state.
pub record IsStep {S : Type 0} (i : ℕ) (b b' : Bucket S) (gs gs' : GroupSize S) : Type 0 where
  pub balanced : IsBalanced gs'
  pub counted : IsCounted gs' i b'
  pub others : (j : ℕ) → i ≢ j → get_elem? gs'.bucket_sizes j ≡ get_elem? gs.bucket_sizes j
  pub sizes : length gs'.bucket_sizes ≡ length gs.bucket_sizes
  pub rejects : length gs'.reject_sketches ≡ length gs.reject_sketches
  pub limit : gs'.limit ≡ gs.limit
  pub group_by : b'.group_by ≡ b.group_by
