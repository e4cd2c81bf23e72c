-- ===== src/Dedup/InPlace.antt =====
-- main.go calls `dedup.filter(tss, tss[:0])`: the destination shares its array with the batch that
-- the loop still reads.
use vmestimator.Base.{
  ℕ, ◌+◌, ◌≡◌, refl, sym, ap, ◌∙◌, inl, inr, Bool, true, false, arith, Option, some, List, [], ◌∷◌,
  ◌++◌, length, get_elem?, set, take, if◌then◌else◌, ◌>>=◌, Option-cases, length-append,
  append_assoc,
}
use vmestimator.Series.{TimeSerie}
use vmestimator.Dedup.{Deduplicator, filter_one, filter, filter_in_place, filter_batch}

take-length : (out rest : List TimeSerie) → take (length out) (out ++ rest) ≡ out
take-length [] rest = refl
take-length (x ∷ out) rest = ap (◌∷◌ x) (take-length out rest)

get_elem?-length :
    (xs : List TimeSerie) (ts : TimeSerie) (rest : List TimeSerie)
    → get_elem? (xs ++ ts ∷ rest) (length xs) ≡ some ts
get_elem?-length [] ts rest = refl
get_elem?-length (x ∷ xs) ts rest = get_elem?-length xs ts rest

-- The entries between the destination and the loop's index, after one more was kept.
pushed : List TimeSerie → TimeSerie → List TimeSerie
pushed [] ts = []
pushed (j ∷ junk) ts = junk ++ ts ∷ []

length-pushed : (junk : List TimeSerie) (ts : TimeSerie) → length (pushed junk ts) ≡ length junk
unfolding pushed
length-pushed [] ts = refl
length-pushed (j ∷ junk) ts = omega (arith, length-append junk (ts ∷ []))

set-pushed :
    (out junk : List TimeSerie) (ts : TimeSerie) (src : List TimeSerie)
    → set (out ++ (junk ++ ts ∷ src)) (length out) ts ≡ (out ++ ts ∷ []) ++ (pushed junk ts ++ src)
unfolding pushed
set-pushed [] [] ts src = refl
set-pushed [] (j ∷ junk) ts src = ap (◌∷◌ ts) (sym (append_assoc junk (ts ∷ []) src))
set-pushed (x ∷ out) junk ts src = ap (◌∷◌ x) (set-pushed out junk ts src)

-- What the caller reads back: the first `w` entries of the array.
abbrev read_back :
    Option (Deduplicator × ℕ × List TimeSerie) → Option (Deduplicator × List TimeSerie)
read_back r = r >>= λ (d, w, buf). some (d, take w buf)

module _ (ts : TimeSerie) (src out junk : List TimeSerie) (i w : ℕ) (buf : List TimeSerie)
    (b : buf ≡ out ++ (junk ++ ts ∷ src)) (e : i ≡ length (out ++ junk)) (f : w ≡ length out) where
  -- After one round the array again is the destination, a rest and the batch not read yet.
  kept :
      (forward : Bool)
      → (junk' : List TimeSerie) × ((if forward then set buf w ts else buf)
          ≡ (if forward then out ++ ts ∷ [] else out) ++ (junk' ++ src))
        × (i + 1 ≡ length ((if forward then out ++ ts ∷ [] else out) ++ junk'))
        × ((if forward then w + 1 else w) ≡ length (if forward then out ++ ts ∷ [] else out))
  kept true = (
    pushed junk ts,
    rw (b, f) (set-pushed out junk ts src),
    omega (
      arith,
      length-append out junk,
      length-append (out ++ ts ∷ []) (pushed junk ts),
      length-append out (ts ∷ []),
      length-pushed junk ts,
    ),
    omega (arith, length-append out (ts ∷ [])),
  )
  kept false = (
    junk ++ ts ∷ [],
    b ∙ ap (◌++◌ out) (sym (append_assoc junk (ts ∷ []) src)),
    omega (
      arith,
      length-append out junk,
      length-append out (junk ++ ts ∷ []),
      length-append junk (ts ∷ []),
    ),
    f,
  )

filter_in_place-filter :
    (src out junk : List TimeSerie) (d : Deduplicator) (i w : ℕ) (buf : List TimeSerie)
    → buf ≡ out ++ (junk ++ src)
    → i ≡ length (out ++ junk)
    → w ≡ length out
    → read_back (filter_in_place (length src) i w d buf) ≡ filter d src out
unfolding filter_in_place filter
filter_in_place-filter [] out junk d i w buf b e f =
    ap (λ (t : List TimeSerie). some (d, t)) (rw (b, f) (take-length out (junk ++ [])))
filter_in_place-filter (ts ∷ src) out junk d i w buf b e f =
    rw at (elim (Option-cases (filter_one d ts)) [
      | inl panics ↦ rw panics
      | inr ((d', forward), runs) ↦
          let (junk', p, q, r) = kept ts src out junk i w buf b e f forward in
          rw runs (filter_in_place-filter src _ junk' d' (i + 1) _ _ p q r)
    ])
  where
    at : get_elem? buf i ≡ some ts
    at = rw (b, e, ← append_assoc out junk (ts ∷ src)) (get_elem?-length (out ++ junk) ts src)

-- Filtering a batch in place gives what filtering it into a new slice gives, panics included.
pub filter_batch-filter :
    (d : Deduplicator) (tss : List TimeSerie) → filter_batch d tss ≡ filter d tss []
unfolding filter_batch
filter_batch-filter d tss = filter_in_place-filter tss [] [] d 0 0 tss refl refl refl
