-- ===== src/Export/PoolLaws.antt =====
-- What the pool of sketches (app/vmestimator/snapshot.go) hands out.
use vmestimator.Base.{
  ℕ, zero, suc, ◌≤◌, ◌≡◌, refl, ◌∙◌, Bool, true, false, inl, inr, some, List, [], ◌∷◌, All,
  Bool-cases,
}
use vmestimator.Sketch.{Hll, HllLaws, HllRegisters, HllBlanks}
use vmestimator.Export.Pool.{
  SketchesPool, fill, new_sketches_pool, pop, get_sparse, get_dense, get_for_merge, put,
}

module _ {S : Type 0} ⦃hll : Hll S⦄ (laws : HllLaws hll) (regs : HllRegisters hll)
    (blanks : HllBlanks hll regs) (p : ℕ) where
  pub record IsBlank (sk : S) : Type 0 where
    pub precise : laws.precision sk ≡ p
    pub empty : (j : ℕ) → regs.register sk j ≡ 0

  -- Every sketch in the pool is as good as new.
  pub record IsClean (pool : SketchesPool S) : Type 0 where
    pub same : pool.precision ≡ p
    pub sparse : All IsBlank pool.sparse_sks
    pub dense : All IsBlank pool.dense_sks

  module _ (low : 4 ≤ p) (high : p ≤ 18) where
    made : (sparse : Bool) → (sk : S) × (hll.new_sketch p sparse ≡ some sk) × IsBlank sk
    made sparse =
        let (sk, e, q) = laws.new_sketch_lem p sparse low high in
        (sk, e, record { precise = q; empty = λ j. blanks.register-new_sketch p sparse sk j e })

    fill-All : (size : ℕ) → (sks : List S) × (fill p size ≡ some sks) × All IsBlank sks
    unfolding fill
    fill-All zero = ([], refl, tt)
    fill-All (suc left) =
        let (sk, e, blank) = made true in
        let (rest, f, all) = fill-All left in (sk ∷ rest, rw (e, f), (blank, all))

    pub new_sketches_pool-IsClean :
        (size : ℕ) → (pool : SketchesPool S) × (new_sketches_pool p size ≡ some pool) × IsClean pool
    unfolding new_sketches_pool
    new_sketches_pool-IsClean size =
        let (sks, e, all) = fill-All size in
        (
          record { precision = p; sparse_sks = sks; dense_sks = [] },
          rw e,
          record { same = refl; sparse = all; dense = tt },
        )

    pop-IsBlank :
        (sparse : Bool) (sks : List S)
        → All IsBlank sks
        → (sk : S) × (rest : List S) × (pop p sparse sks ≡ some (sk, rest))
          × IsBlank sk
          × All IsBlank rest
    unfolding pop
    pop-IsBlank sparse [] all = let (sk, e, blank) = made sparse in (sk, [], rw e, blank, tt)
    pop-IsBlank sparse (sk ∷ sks) all = (sk, sks, refl, all.0, all.1)

    pub get_for_merge-IsBlank :
        (pool : SketchesPool S) (other : S)
        → IsClean pool
        → (sk : S) × (pool' : SketchesPool S) × (get_for_merge pool other ≡ some (sk, pool'))
          × IsBlank sk
          × IsClean pool'
    unfolding get_for_merge get_sparse get_dense
    get_for_merge-IsBlank pool other v = elim (Bool-cases (hll.is_sparse other)) [
      | inl e ↦
          let (sk, rest, popped, blank, all) = pop-IsBlank true pool.sparse_sks v.sparse in
          (
            sk,
            record pool { sparse_sks = rest },
            rw (e, v.same, popped),
            blank,
            record { same = v.same; sparse = all; dense = v.dense },
          )
      | inr e ↦
          let (sk, rest, popped, blank, all) = pop-IsBlank false pool.dense_sks v.dense in
          (
            sk,
            record pool { dense_sks = rest },
            rw (e, v.same, popped),
            blank,
            record { same = v.same; sparse = v.sparse; dense = all },
          )
    ]

  pub put-IsClean :
      (pool : SketchesPool S) (sk : S)
      → IsClean pool
      → laws.precision sk ≡ p
      → IsClean (put pool sk)
  unfolding put
  put-IsClean pool sk v e = elim (Bool-cases (hll.is_sparse (hll.reset sk))) [
    | inl s ↦ rw s (record { same = v.same; sparse = (cleared, v.sparse); dense = v.dense })
    | inr s ↦ rw s (record { same = v.same; sparse = v.sparse; dense = (cleared, v.dense) })
  ]
    where
      cleared : IsBlank (hll.reset sk)
      cleared = record { precise = laws.precision-reset sk ∙ e; empty = blanks.register-reset sk }
