-- ===== src/Export/KeyLists.antt =====
-- The keys of a bucket and their batches in an export (app/vmestimator/estimator.go).
use vmestimator.Base.{
  ℕ, zero, suc, ◌-◌, ◌≤◌, ◌≡◌, refl, ap, ◌∙◌, arith, Bool, true, false, not, ◌||◌, ◌&&◌, ◌==◌,
  nat_eq, nat_beq_iff, ==_refl, List, [], ◌∷◌, ◌++◌, length, take, drop, Dict, lookup, has, keys,
  All, if◌then◌else◌,
}
use vmestimator.Estimator.Bucket.{Bucket}
use vmestimator.Export.{without, bucket_keys, batches, batch_size}
use vmestimator.Export.Keys.{among}

-- Whether a key is in one of the batches.
abbrev pub among_any : ℕ → List (List ℕ) → Bool
among_any k [] = false
among_any k (b ∷ bs) = among k b || among_any k bs

among-append : (k : ℕ) (xs ys : List ℕ) → among k (xs ++ ys) ≡ (among k xs || among k ys)
among-append k [] ys = refl
among-append k (x ∷ xs) ys = ground (arith, among-append k xs ys)

among-take-drop :
    (n k : ℕ) (xs : List ℕ) → (among k (take n xs) || among k (drop n xs)) ≡ among k xs
among-take-drop zero k xs = refl
among-take-drop (suc n) k [] = refl
among-take-drop (suc n) k (x ∷ xs) = ground (arith, among-take-drop n k xs)

length-drop : (n : ℕ) (xs : List ℕ) → length (drop n xs) ≡ length xs - n
length-drop zero xs = omega arith
length-drop (suc n) [] = omega arith
length-drop (suc n) (x ∷ xs) = omega (arith, length-drop n xs)

module _ (P : ℕ → Type 0) where
  All-among : (xs : List ℕ) → ((k : ℕ) → among k xs ≡ true → P k) → All P xs
  All-among [] h = tt
  All-among (x ∷ xs) h =
      (h x (ground (arith, ==_refl x)), All-among xs (λ k e. h k (ground (arith, e))))

  All-take : (n : ℕ) (xs : List ℕ) → All P xs → All P (take n xs)
  All-take zero xs h = tt
  All-take (suc n) [] h = tt
  All-take (suc n) (x ∷ xs) h = (h.0, All-take n xs h.1)

  All-drop : (n : ℕ) (xs : List ℕ) → All P xs → All P (drop n xs)
  All-drop zero xs h = h
  All-drop (suc n) [] h = tt
  All-drop (suc n) (x ∷ xs) h = All-drop n xs h.1

  pub All-batches : (rounds : ℕ) (xs : List ℕ) → All P xs → All (All P) (batches rounds xs)
  unfolding batches
  All-batches zero xs h = tt
  All-batches (suc rounds) [] h = tt
  All-batches (suc rounds) (x ∷ xs) h = (
    All-take batch_size (x ∷ xs) h,
    All-batches rounds (drop batch_size (x ∷ xs)) (All-drop batch_size (x ∷ xs) h),
  )

-- As many rounds as keys are enough for all keys.
pub among-batches :
    (rounds k : ℕ) (xs : List ℕ) → length xs ≤ rounds → among_any k (batches rounds xs) ≡ among k xs
unfolding batches
among-batches zero k [] h = refl
among-batches zero k (x ∷ xs) h = absurd (omega arith)
among-batches (suc rounds) k [] h = refl
among-batches (suc rounds) k (x ∷ xs) h =
    ap (λ b. among k (take batch_size (x ∷ xs)) || b)
      (among-batches rounds k (drop batch_size (x ∷ xs))
        (omega (arith, length-drop batch_size (x ∷ xs))))
    ∙ among-take-drop batch_size k (x ∷ xs)

without_step :
    (k x : ℕ) (l : List ℕ) (gone : Bool) (hk r : Bool)
    → among k l ≡ (not hk && r)
    → ((x == k) ≡ true → gone ≡ hk)
    → among k (if gone then l else x ∷ l) ≡ (not hk && ((x == k) || r))
without_step k x l true hk r e f = ground arith
without_step k x l false hk r e f = ground arith

module _ {V : Type 0} where
  among-keys : (k : ℕ) (m : Dict ℕ V) → among k (keys m) ≡ has k m
  unfolding lookup
  among-keys k [] = refl
  among-keys k ((j, v) ∷ m) = ground (arith, among-keys k m)

  among-without :
      (k : ℕ) (m : Dict ℕ V) (ks : List ℕ) → among k (without m ks) ≡ (not (has k m) && among k ks)
  among-without k m [] = ground arith
  among-without k m (x ∷ ks) =
      without_step k x (without m ks) (has x m) (has k m) (among k ks) (among-without k m ks)
        (λ same. ap (λ i. has i m) ((nat_beq_iff x k).0 same))

module _ {S : Type 0} (b : Bucket S) where
  among-bucket_keys : (k : ℕ) → among k (bucket_keys b) ≡ (has k b.groups || has k b.prev_groups)
  unfolding bucket_keys
  among-bucket_keys k =
      among-append k (keys b.groups) (without b.groups (keys b.prev_groups))
      ∙ ground (
        arith,
        among-keys k b.groups,
        among-keys k b.prev_groups,
        among-without k b.groups (keys b.prev_groups),
      )

  bucket_keys-Has : All (λ k. (has k b.groups || has k b.prev_groups) ≡ true) (bucket_keys b)
  bucket_keys-Has = All-among _ (bucket_keys b) (λ k e. rw (among-bucket_keys k) at e)

  -- The batches of a bucket's keys: keys that it has, and all of them.
  pub batches-bucket_keys :
      All
        (All (λ k. (has k b.groups || has k b.prev_groups) ≡ true))
        (batches (length (bucket_keys b)) (bucket_keys b))
      × ((k : ℕ)
          → among_any k (batches (length (bucket_keys b)) (bucket_keys b))
            ≡ (has k b.groups || has k b.prev_groups))
  batches-bucket_keys = (
    All-batches _ (length (bucket_keys b)) (bucket_keys b) bucket_keys-Has,
    λ k.
        among-batches (length (bucket_keys b)) k (bucket_keys b) (omega arith)
        ∙ among-bucket_keys k,
  )
