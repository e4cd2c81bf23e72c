-- ===== src/Export/Pool.antt =====
-- `sketchesPool` of app/vmestimator/snapshot.go: sketches that are reset and used again while the
-- snapshots of an estimator are made. The last element of a Go slice is the first of the list.
-- `none` is a panic.
use vmestimator.Base.{
  ℕ, zero, suc, Bool, true, false, Option, some, ◌>>=◌, List, [], ◌∷◌, if◌then◌else◌,
}
use vmestimator.Sketch.{Hll}

pub record SketchesPool (S : Type 0) : Type 0 where
  pub precision : ℕ
  pub sparse_sks : List S
  pub dense_sks : List S

module _ {S : Type 0} ⦃hll : Hll S⦄ where
  -- The loop of `newSketchesPool`.
  unfoldable pub fill : ℕ → ℕ → Option (List S)
  fill precision zero = some []
  fill precision (suc left) = do
    sk ← hll.new_sketch precision true
    rest ← fill precision left
    some (sk ∷ rest)

  unfoldable pub new_sketches_pool : ℕ → ℕ → Option (SketchesPool S)
  unfolding fill
  new_sketches_pool precision size = fill precision size >>= λ sks.
      some (record { precision = precision; sparse_sks = sks; dense_sks = [] })

  -- The last sketch of a free list, and the others; a new one where the list is empty.
  unfoldable pub pop : ℕ → Bool → List S → Option (S × List S)
  pop precision sparse [] = hll.new_sketch precision sparse >>= λ sk. some (sk, [])
  pop precision sparse (sk ∷ sks) = some (sk, sks)

  unfoldable pub get_sparse : SketchesPool S → Option (S × SketchesPool S)
  unfolding pop
  get_sparse p =
      pop p.precision true p.sparse_sks >>= λ r. some (r.0, record p { sparse_sks = r.1 })

  unfoldable pub get_dense : SketchesPool S → Option (S × SketchesPool S)
  unfolding pop
  get_dense p = pop p.precision false p.dense_sks >>= λ r. some (r.0, record p { dense_sks = r.1 })

  unfoldable pub get_for_merge : SketchesPool S → S → Option (S × SketchesPool S)
  unfolding get_sparse get_dense
  get_for_merge p other = if hll.is_sparse other then get_sparse p else get_dense p

  unfoldable pub put : SketchesPool S → S → SketchesPool S
  put p sk =
      let sk' = hll.reset sk in
      if hll.is_sparse sk'
      then record p { sparse_sks = sk' ∷ p.sparse_sks }
      else record p { dense_sks = sk' ∷ p.dense_sks }
