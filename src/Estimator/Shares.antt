-- ===== src/Estimator/Shares.antt =====
-- The operations of `groupSize` (app/vmestimator/estimator.go) on a balanced state: the share of one
-- bucket and the total move together.
use vmestimator.Base.{
  ℕ, ◌+◌, ◌-◌, ◌≤◌, ◌<◌, ◌≡◌, refl, sym, inl, inr, Option, none, some, List, length, get_elem?,
  get_or, set, sum, true, false, nat_eq, arith, sum-set, lt-get_elem?, get_elem?-lt, leb, ltb,
  Bool-cases, get_elem?-eq-get_or, set-get_elem?, ap,
}
use vmestimator.Sketch.{Hll, HllLaws}
use vmestimator.Estimator.GroupSize.{GroupSize, reject, allow_insert_locked, rotate_locked}
use vmestimator.Estimator.Invariant.{IsBalanced}

sum_share : (xs : List ℕ) (i v n : ℕ) → get_elem? xs i ≡ some n → sum (set xs i v) + n ≡ sum xs + v
sum_share xs i v n e = omega (arith, sum-set xs i v (lt-get_elem? xs i e), share)
  where
    share : get_or xs i 0 ≡ n
    share = let p = get_elem?-eq-get_or xs i 0 (lt-get_elem? xs i e) in cc

-- A new share of bucket `i`, with the total moved by as much.
module _ {S : Type 0} (gs : GroupSize S) (i n : ℕ) (bal : IsBalanced gs) where
  pub IsBalanced-up :
      get_elem? gs.bucket_sizes i ≡ some n
      → gs.size < gs.limit
      → IsBalanced (record gs { bucket_sizes = set gs.bucket_sizes i (n + 1); size = gs.size + 1 })
  IsBalanced-up e room = record {
    total = omega (arith, bal.total, sum_share gs.bucket_sizes i (n + 1) n e);
    bounded = omega arith;
  }

  pub IsBalanced-down :
      {rejects : List (Option S)} (m : ℕ)
      → get_elem? gs.bucket_sizes i ≡ some n
      → m ≤ n
      → IsBalanced (record gs {
        bucket_sizes = set gs.bucket_sizes i (n - (n - m));
        size = gs.size - (n - m);
        reject_sketches = rejects;
      })
  IsBalanced-down m e le = record {
    total = omega (arith, bal.total, sum_share gs.bucket_sizes i (n - (n - m)) n e);
    bounded = omega (arith, bal.bounded);
  }

module _ {S : Type 0} ⦃hll : Hll S⦄ (laws : HllLaws hll) where
  -- The reject sketch with the key, by what was there.
  pub data Notes (key : ℕ) : Option S → S → Type 0 where
    begun : (sk : S) → hll.new_sketch 10 true ≡ some sk → Notes key none (hll.insert_hash sk key)
    more : (sk : S) → Notes key (some sk) (hll.insert_hash sk key)

  pub reject_lem :
      (gs : GroupSize S) (i key : ℕ)
      → i < length gs.reject_sketches
      → (sk : S) × (reject gs i key
          ≡ some (record gs { reject_sketches = set gs.reject_sketches i (some sk) }))
        × ((slot : Option S) × (get_elem? gs.reject_sketches i ≡ some slot) × Notes key slot sk)
  unfolding reject
  reject_lem gs i key h = let (slot, e) = get_elem?-lt gs.reject_sketches i h in by_slot slot e
    where
      by_slot :
          (slot : Option S)
          → get_elem? gs.reject_sketches i ≡ some slot
          → (sk : S) × (reject gs i key
              ≡ some (record gs { reject_sketches = set gs.reject_sketches i (some sk) }))
            × ((o : Option S) × (get_elem? gs.reject_sketches i ≡ some o) × Notes key o sk)
      by_slot none e =
          let (sk, made, p) = laws.new_sketch_lem 10 true (omega arith) (omega arith) in
          (hll.insert_hash sk key, rw (e, made), (none, e, begun sk made))
      by_slot (some sk) e = (hll.insert_hash sk key, rw e, (some sk, e, more sk))

  pub allow_full :
      (gs : GroupSize S) (i key : ℕ) (gs' : GroupSize S)
      → gs.limit ≤ gs.size
      → reject gs i key ≡ some gs'
      → allow_insert_locked gs i key ≡ some (gs', false)
  unfolding allow_insert_locked
  allow_full gs i key gs' full e = let t : leb gs.limit gs.size ≡ true = ground arith in rw (t, e)

  pub allow_room :
      (gs : GroupSize S) (i key n : ℕ)
      → gs.size < gs.limit
      → get_elem? gs.bucket_sizes i ≡ some n
      → allow_insert_locked gs i key
        ≡ some
            (record gs { bucket_sizes = set gs.bucket_sizes i (n + 1); size = gs.size + 1 }, true)
  unfolding allow_insert_locked
  allow_room gs i key n room e = let t : leb gs.limit gs.size ≡ false = ground arith in rw (t, e)

  pub rotate_locked_lem :
      (gs : GroupSize S) (i n m : ℕ)
      → IsBalanced gs
      → get_elem? gs.bucket_sizes i ≡ some n
      → i < length gs.reject_sketches
      → m ≤ n
      → (gs' : GroupSize S) × (rotate_locked gs i m ≡ some gs')
        × IsBalanced gs'
        × (gs'.bucket_sizes ≡ set gs.bucket_sizes i m)
        × (gs'.reject_sketches ≡ set gs.reject_sketches i none)
        × (gs'.limit ≡ gs.limit)
  unfolding rotate_locked
  rotate_locked_lem gs i n m bal e slot le =
      let (sk, f) = get_elem?-lt gs.reject_sketches i slot in
      elim (Bool-cases (ltb m n)) [
        | inl less ↦ (
          record gs {
            bucket_sizes = set gs.bucket_sizes i (n - (n - m));
            size = gs.size - (n - m);
            reject_sketches = set gs.reject_sketches i none;
          },
          rw (e, f, less),
          IsBalanced-down gs i n bal m e le,
          ap (λ (t : ℕ). set gs.bucket_sizes i t) (omega arith),
          refl,
          refl,
        )
        | inr equal ↦
            let same : n ≡ m = ground arith in
            (
              record gs { reject_sketches = set gs.reject_sketches i none },
              rw (e, f, equal),
              record { total = bal.total; bounded = bal.bounded },
              sym (set-get_elem? gs.bucket_sizes i m (rw (← same) e)),
              refl,
              refl,
            )
      ]
