-- ===== src/Estimator/Tracked.antt =====
-- How many groups a bucket (app/vmestimator/estimator.go) holds in its current and its previous map
-- together.
use vmestimator.Base.{
  ℕ, ◌+◌, ◌≤◌, ◌≡◌, refl, true, false, nat_eq, arith, [], ◌∷◌, length, Dict, has, insert, IsUnique,
  has-insert, length-insert, if◌then◌else◌, lookup,
}

module _ {ℓ} {V : Type ℓ} where
  -- The keys of the second map that the first lacks.
  unfoldable pub absent : Dict ℕ V → Dict ℕ V → ℕ
  absent groups [] = 0
  absent groups ((k, v) ∷ prev) = (if has k groups then 0 else 1) + absent groups prev

  unfoldable pub tracked : Dict ℕ V → Dict ℕ V → ℕ
  tracked groups prev = length groups + absent groups prev

  absent-nil : (prev : Dict ℕ V) → absent [] prev ≡ length prev
  unfolding absent lookup
  absent-nil [] = refl
  absent-nil ((k, v) ∷ prev) = omega (arith, absent-nil prev)

  pub tracked-nil : (groups : Dict ℕ V) → tracked groups [] ≡ length groups
  unfolding tracked absent
  tracked-nil groups = omega arith

  -- A key that the second map lacks counts in the first alone.
  absent-insert_new :
      (k : ℕ) (v : V) (groups prev : Dict ℕ V)
      → has k prev ≡ false
      → absent (insert k v groups) prev ≡ absent groups prev
  unfolding absent lookup
  absent-insert_new k v groups [] h = refl
  absent-insert_new k v groups ((j, w) ∷ prev) h =
      ground (arith, has-insert k j v groups, absent-insert_new k v groups prev)

  absent-insert_old :
      (k : ℕ) (v : V) (groups prev : Dict ℕ V)
      → has k groups ≡ true
      → absent (insert k v groups) prev ≡ absent groups prev
  unfolding absent
  absent-insert_old k v groups [] h = refl
  absent-insert_old k v groups ((j, w) ∷ prev) h =
      ground (arith, has-insert k j v groups, absent-insert_old k v groups prev h)

  -- A key of the second map that the first gets is no longer absent.
  absent-insert_known :
      (k : ℕ) (v : V) (groups prev : Dict ℕ V)
      → IsUnique prev
      → has k prev ≡ true
      → has k groups ≡ false
      → absent (insert k v groups) prev + 1 ≡ absent groups prev
  unfolding absent lookup
  absent-insert_known k v groups [] u h n = cc
  absent-insert_known k v groups ((j, w) ∷ prev) u h n = ground (
    arith,
    has-insert k j v groups,
    absent-insert_known k v groups prev u.1,
    absent-insert_new k v groups prev,
  )

  module _ (k : ℕ) (v : V) (groups prev : Dict ℕ V) where
    pub tracked-insert_old :
        has k groups ≡ true → tracked (insert k v groups) prev ≡ tracked groups prev
    unfolding tracked
    tracked-insert_old h =
        ground (arith, length-insert k v groups, absent-insert_old k v groups prev h)

    pub tracked-insert_known :
        IsUnique prev
        → has k prev ≡ true
        → has k groups ≡ false
        → tracked (insert k v groups) prev ≡ tracked groups prev
    unfolding tracked
    tracked-insert_known u h n =
        ground (arith, length-insert k v groups, absent-insert_known k v groups prev u h n)

    pub tracked-insert_new :
        has k prev ≡ false
        → has k groups ≡ false
        → tracked (insert k v groups) prev ≡ tracked groups prev + 1
    unfolding tracked
    tracked-insert_new h n =
        ground (arith, length-insert k v groups, absent-insert_new k v groups prev h)

  pub tracked-rotate : (groups : Dict ℕ V) → tracked [] groups ≡ length groups
  unfolding tracked
  tracked-rotate groups = omega (arith, absent-nil groups)

  pub length-le-tracked : (groups prev : Dict ℕ V) → length groups ≤ tracked groups prev
  unfolding tracked
  length-le-tracked groups prev = omega arith
