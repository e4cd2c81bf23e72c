-- ===== src/Dedup/Filter.antt =====
-- `deduplicator.filter` (app/vmestimator/deduplicator.go) over a whole batch.
use vmestimator.Base.{
  ℕ, ◌+◌, ◌≡◌, refl, ap, ◌∙◌, ◌⊎◌, inl, inr, Bool, true, false, not, arith, Option, some, List, [],
  ◌∷◌, ◌++◌, length, if◌then◌else◌, All, append_assoc, append-nil, All-map,
}
use vmestimator.Series.{TimeSerie}
use vmestimator.Dedup.{Deduplicator, filter}
use vmestimator.Dedup.Step.{IsValid, Handled, filter_one-Handled, seen, full, seen-total}

-- A selection of entries of a list, in their order.
pub data Selects : List TimeSerie → List TimeSerie → Type 0 where
  done : Selects [] []
  keep : {ts : TimeSerie} {xs ys : List TimeSerie} → Selects xs ys → Selects (ts ∷ xs) (ts ∷ ys)
  skip : {ts : TimeSerie} {xs ys : List TimeSerie} → Selects xs ys → Selects (ts ∷ xs) ys

-- The series is remembered, or its bucket takes no more.
abbrev pub Noted : Deduplicator → TimeSerie → Type 0
Noted d ts = (seen d ts.fingerprint ≡ some true) ⊎ (full d ts.fingerprint ≡ some true)

pub record Filtered (d : Deduplicator) (src : List TimeSerie) (d' : Deduplicator)
    (out : List TimeSerie) : Type 0 where
  pub valid : IsValid d'
  pub selects : Selects src out
  pub passed : d'.passed_total ≡ d.passed_total + length out
  pub dropped : d'.dropped_total + length out ≡ d.dropped_total + length src
  pub keeps_seen : (h : ℕ) → seen d h ≡ some true → seen d' h ≡ some true
  pub keeps_full : (h : ℕ) → full d h ≡ some true → full d' h ≡ some true
  pub noted : All (Noted d') src
  pub unseen : All (λ ts. seen d ts.fingerprint ≡ some false) out

-- What a later state has not seen an earlier one had not seen.
unseen_before :
    (d d' : Deduplicator) (h : ℕ)
    → IsValid d
    → (seen d h ≡ some true → seen d' h ≡ some true)
    → seen d' h ≡ some false
    → seen d h ≡ some false
unseen_before d d' h v keeps f = split (seen-total d h v)
  where
    split : (b : Bool) × (seen d h ≡ some b) → seen d h ≡ some false
    split (true, e) = cc (keeps e)
    split (false, e) = e

Noted-mono :
    (d d' : Deduplicator) (ts : TimeSerie)
    → ((h : ℕ) → seen d h ≡ some true → seen d' h ≡ some true)
    → ((h : ℕ) → full d h ≡ some true → full d' h ≡ some true)
    → Noted d ts
    → Noted d' ts
Noted-mono d d' ts s f (inl e) = inl (s ts.fingerprint e)
Noted-mono d d' ts s f (inr e) = inr (f ts.fingerprint e)

module _ (d d₁ : Deduplicator) (ts : TimeSerie) (v : IsValid d) where
  unseen_tail :
      {forward : Bool} {src : List TimeSerie} {d' : Deduplicator} {out : List TimeSerie}
      → Handled d ts d₁ forward
      → Filtered d₁ src d' out
      → All (λ x. seen d x.fingerprint ≡ some false) out
  unseen_tail {out = out} one rest =
      All-map (λ x. unseen_before d d₁ x.fingerprint v (one.keeps_seen x.fingerprint)) out
        rest.unseen

  Filtered-cons :
      (forward : Bool) (src : List TimeSerie) (d' : Deduplicator) (out : List TimeSerie)
      → Handled d ts d₁ forward
      → Filtered d₁ src d' out
      → Filtered d (ts ∷ src) d' (if forward then ts ∷ out else out)
  Filtered-cons true src d' out one rest = record {
    valid = rest.valid;
    selects = keep rest.selects;
    passed = omega arith;
    dropped = omega arith;
    keeps_seen = λ h s. rest.keeps_seen h (one.keeps_seen h s);
    keeps_full = λ h s. rest.keeps_full h (one.keeps_full h s);
    noted = (Noted-mono d₁ d' ts rest.keeps_seen rest.keeps_full one.noted, rest.noted);
    unseen = (one.fresh, unseen_tail one rest);
  }
  Filtered-cons false src d' out one rest = record {
    valid = rest.valid;
    selects = skip rest.selects;
    passed = omega arith;
    dropped = omega arith;
    keeps_seen = λ h s. rest.keeps_seen h (one.keeps_seen h s);
    keeps_full = λ h s. rest.keeps_full h (one.keeps_full h s);
    noted = (Noted-mono d₁ d' ts rest.keeps_seen rest.keeps_full one.noted, rest.noted);
    unseen = unseen_tail one rest;
  }

Filtered-nil : (d : Deduplicator) → IsValid d → Filtered d [] d []
Filtered-nil d v = record {
  valid = v;
  selects = done;
  passed = omega arith;
  dropped = omega arith;
  keeps_seen = λ h s. s;
  keeps_full = λ h s. s;
  noted = tt;
  unseen = tt;
}

appended :
    (forward : Bool) (dst : List TimeSerie) (ts : TimeSerie) (out : List TimeSerie)
    → (if forward then dst ++ ts ∷ [] else dst) ++ out ≡ dst ++ (if forward then ts ∷ out else out)
appended true dst ts out = append_assoc dst (ts ∷ []) out
appended false dst ts out = refl

-- On a valid deduplicator the filter of a batch never panics. It appends to `dst` a selection of
-- the batch in its order. Each forwarded series was unseen before the call; each series of the
-- batch is afterwards either seen or in a bucket that takes no more items; what was seen stays
-- seen; and the passed counter grows by the series forwarded, the dropped counter by the others.
pub filter-Filtered :
    (src dst : List TimeSerie) (d : Deduplicator)
    → IsValid d
    → (d' : Deduplicator) × (out : List TimeSerie) × (filter d src dst ≡ some (d', dst ++ out))
      × Filtered d src d' out
unfolding filter
filter-Filtered [] dst d v = (d, [], rw append-nil, Filtered-nil d v)
filter-Filtered (ts ∷ src) dst d v =
    let (d₁, forward, e, one) = filter_one-Handled d ts v in
    let (d', out, e', rest) =
      filter-Filtered src (if forward then dst ++ ts ∷ [] else dst) d₁ one.valid in
    (
      d',
      (if forward then ts ∷ out else out),
      rw e (e' ∙ ap (λ (t : List TimeSerie). some (d', t)) (appended forward dst ts out)),
      Filtered-cons d d₁ ts v forward src d' out one rest,
    )

dropped_of_seen :
    (forward : Bool) (o : Option Bool) → o ≡ some true → o ≡ some (not forward) → forward ≡ false
dropped_of_seen true o e f = cc
dropped_of_seen false o e f = refl

-- A batch of which all is seen is dropped whole.
filter-seen :
    (src : List TimeSerie) (d : Deduplicator)
    → IsValid d
    → All (λ ts. seen d ts.fingerprint ≡ some true) src
    → (d' : Deduplicator) × (filter d src [] ≡ some (d', []))
unfolding filter
filter-seen [] d v s = (d, refl)
filter-seen (ts ∷ src) d v s =
    let (d₁, forward, e, one) = filter_one-Handled d ts v in
    let stays = All-map (λ x. one.keeps_seen x.fingerprint) src s.1 in
    let (d', e') = filter-seen src d₁ one.valid stays in
    let dropped : forward ≡ false = dropped_of_seen forward _ s.0 one.fresh in
    (d', rw (e, dropped) e')

still_seen :
    (d : Deduplicator) (src : List TimeSerie)
    → All (Noted d) src
    → All (λ ts. full d ts.fingerprint ≡ some false) src
    → All (λ ts. seen d ts.fingerprint ≡ some true) src
still_seen d [] n r = tt
still_seen d (ts ∷ src) n r = (not_full n.0 r.0, still_seen d src n.1 r.1)
  where
    not_full : Noted d ts → full d ts.fingerprint ≡ some false → seen d ts.fingerprint ≡ some true
    not_full (inl s) e = s
    not_full (inr f) e = cc

-- A batch repeated at once: if after the first time no bucket of its series is full, the second
-- time all of it is dropped.
pub filter-filter_again :
    (src : List TimeSerie) (d : Deduplicator)
    → IsValid d
    → (d' : Deduplicator) × (out : List TimeSerie) × (filter d src [] ≡ some (d', out))
      × (All (λ ts. full d' ts.fingerprint ≡ some false) src
          → (d'' : Deduplicator) × (filter d' src [] ≡ some (d'', [])))
filter-filter_again src d v =
    let (d', out, e, f) = filter-Filtered src [] d v in
    (d', out, e, λ room. filter-seen src d' f.valid (still_seen d' src f.noted room))
