-- ===== src/Dedup/Step.antt =====
-- One series through `deduplicator.filter` (app/vmestimator/deduplicator.go).
use vmestimator.Base.{
  ℕ, ◌+◌, ◌/◌, ◌%◌, ◌^◌, ◌≤◌, ◌<◌, ◌≡◌, refl, ◌∙◌, ◌⊎◌, inl, inr, Bool, true, false, not, ltb, leb,
  ◌==◌, nat_eq, arith, Option, some, length, get_elem?, set, if◌then◌else◌, ◌>>=◌, Bool-cases, All,
  All-get_elem?, All-set, get_elem?-lt, get_elem?-set_self, get_elem?-set_ne, length-set,
}
use vmestimator.Series.{TimeSerie}
use vmestimator.Dedup.{Deduplicator, filter_one, buckets_count}
use vmestimator.Dedup.Bloom.{BloomFilter, contains}
use vmestimator.Dedup.Bloom.Laws.{IsReady, add-contains, contains-holds, holds}

abbrev pub FitsBucket : ℕ → BloomFilter → Type 0
FitsBucket limit f = IsReady f × (f.size ≤ limit)

pub record IsValid (d : Deduplicator) : Type 0 where
  pub ten : length d.bfs ≡ buckets_count
  pub share : d.bucket_max_size ≡ d.max_size / 10
  pub room : 0 < d.bucket_max_size
  pub bounded : d.bucket_max_size < 2 ^ 59
  pub buckets : All (FitsBucket d.bucket_max_size) d.bfs

-- Whether the deduplicator takes the fingerprint for one that it has seen.
unfoldable pub seen : Deduplicator → ℕ → Option Bool
seen d h = get_elem? d.bfs (h % 10) >>= λ f. contains f h

-- Whether the bucket of the fingerprint takes no more items.
unfoldable pub full : Deduplicator → ℕ → Option Bool
full d h = get_elem? d.bfs (h % 10) >>= λ f. some (leb d.bucket_max_size f.size)

pub bucket-FitsBucket :
    (d : Deduplicator) (h : ℕ)
    → IsValid d
    → (f : BloomFilter) × (get_elem? d.bfs (h % 10) ≡ some f) × FitsBucket d.bucket_max_size f
bucket-FitsBucket d h v =
    let (f, e) = get_elem?-lt d.bfs (h % 10) (rw v.ten (omega arith)) in
    (f, e, All-get_elem? (FitsBucket d.bucket_max_size) d.bfs (h % 10) v.buckets e)

-- What the handling of one series guarantees.
pub record Handled (d : Deduplicator) (ts : TimeSerie) (d' : Deduplicator) (forward : Bool)
    : Type 0 where
  pub valid : IsValid d'
  pub fresh : seen d ts.fingerprint ≡ some (not forward)
  pub keeps_seen : (h : ℕ) → seen d h ≡ some true → seen d' h ≡ some true
  pub keeps_full : (h : ℕ) → full d h ≡ some true → full d' h ≡ some true
  pub noted : (seen d' ts.fingerprint ≡ some true) ⊎ (full d' ts.fingerprint ≡ some true)
  pub passed : d'.passed_total ≡ d.passed_total + (if forward then 1 else 0)
  pub dropped : d'.dropped_total ≡ d.dropped_total + (if forward then 0 else 1)
  pub same_limits : (d'.max_size ≡ d.max_size) × (d'.bucket_max_size ≡ d.bucket_max_size)
  pub same_interval : d'.interval ≡ d.interval

module _ (d : Deduplicator) (ts : TimeSerie) (v : IsValid d) (f : BloomFilter)
    (at : get_elem? d.bfs (ts.fingerprint % 10) ≡ some f)
    (fits : FitsBucket d.bucket_max_size f) where
  dropped-Handled :
      contains f ts.fingerprint ≡ some true
      → Handled d ts (record d { dropped_total = d.dropped_total + 1 }) false
  unfolding seen full
  dropped-Handled c = record {
    valid = record {
      ten = v.ten;
      share = v.share;
      room = v.room;
      bounded = v.bounded;
      buckets = v.buckets;
    };
    fresh = rw (at, c);
    keeps_seen = λ h s. s;
    keeps_full = λ h s. s;
    noted = inl (rw (at, c));
    passed = omega arith;
    dropped = refl;
    same_limits = (refl, refl);
    same_interval = refl;
  }

  passed_full-Handled :
      contains f ts.fingerprint ≡ some false
      → d.bucket_max_size ≤ f.size
      → Handled d ts (record d { passed_total = d.passed_total + 1 }) true
  unfolding seen full
  passed_full-Handled c h = record {
    valid = record {
      ten = v.ten;
      share = v.share;
      room = v.room;
      bounded = v.bounded;
      buckets = v.buckets;
    };
    fresh = rw (at, c);
    keeps_seen = λ h s. s;
    keeps_full = λ h s. s;
    noted = inr (rw at (ground arith));
    passed = refl;
    dropped = omega arith;
    same_limits = (refl, refl);
    same_interval = refl;
  }

  module _ (f' : BloomFilter) (fits' : FitsBucket d.bucket_max_size f') (grows : f.size ≤ f'.size)
      (more : (g : ℕ) → contains f g ≡ some true → contains f' g ≡ some true) where
    abbrev grown : Deduplicator
    grown = record d { bfs = set d.bfs (ts.fingerprint % 10) f'; passed_total = d.passed_total + 1 }

    in_range : ts.fingerprint % 10 < length d.bfs
    in_range = rw v.ten (omega arith)

    grown-bucket :
        (h : ℕ) (P : Option BloomFilter → Type 0)
        → P (get_elem? d.bfs (h % 10))
        → (P (some f) → P (some f'))
        → P (get_elem? grown.bfs (h % 10))
    grown-bucket h P old step = elim (Bool-cases (h % 10 == ts.fingerprint % 10)) [
      | inl same ↦
          let e : h % 10 ≡ ts.fingerprint % 10 = ground arith in
          rw (e, get_elem?-set_self d.bfs (ts.fingerprint % 10) f' in_range)
            (step (rw (← at) (rw (← e) old)))
      | inr other ↦ rw (get_elem?-set_ne d.bfs (ts.fingerprint % 10) (h % 10) f' (ground arith)) old
    ]

    grown-Handled :
        contains f ts.fingerprint ≡ some false
        → contains f' ts.fingerprint ≡ some true
        → Handled d ts grown true
    unfolding seen full
    grown-Handled c c' = record {
      valid = record {
        ten = length-set d.bfs (ts.fingerprint % 10) f' ∙ v.ten;
        share = v.share;
        room = v.room;
        bounded = v.bounded;
        buckets = All-set (FitsBucket d.bucket_max_size) d.bfs _ f' v.buckets fits';
      };
      fresh = rw (at, c);
      keeps_seen = λ h s. grown-bucket h (λ o. (o >>= λ b. contains b h) ≡ some true) s (more h);
      keeps_full = λ h s.
          grown-bucket h (λ o. (o >>= λ b. some (leb d.bucket_max_size b.size)) ≡ some true) s
            (λ e. ground arith);
      noted = inl (rw (get_elem?-set_self d.bfs (ts.fingerprint % 10) f' in_range) c');
      passed = refl;
      dropped = omega arith;
      same_limits = (refl, refl);
      same_interval = refl;
    }

module _ (d : Deduplicator) (ts : TimeSerie) (v : IsValid d) where
  abbrev Goes : Type 0
  Goes =
      (d' : Deduplicator) × (forward : Bool) × (filter_one d ts ≡ some (d', forward))
      × Handled d ts d' forward

  goes_with :
      (f : BloomFilter)
      → get_elem? d.bfs (ts.fingerprint % 10) ≡ some f
      → FitsBucket d.bucket_max_size f
      → (b : Bool) → contains f ts.fingerprint ≡ some b
      → Goes
  unfolding filter_one
  goes_with f at fits true c = (_, false, rw (at, c), dropped-Handled d ts v f at fits c)
  goes_with f at fits false c = elim (Bool-cases (ltb f.size d.bucket_max_size)) [
    | inr no_room ↦
        (_, true, rw (at, c, no_room), passed_full-Handled d ts v f at fits c (ground arith))
    | inl space ↦
        let (f', is_new, added, self, more, before, size, ready) =
          add-contains f ts.fingerprint fits.0 in
        let fits' : FitsBucket d.bucket_max_size f' = (ready, ground arith) in
        let grows : f.size ≤ f'.size = ground arith in
        (
          grown d ts v f at fits f' fits' grows more,
          true,
          rw (at, c, space, added),
          grown-Handled d ts v f at fits f' fits' grows more c self,
        )
  ]

  -- On a valid deduplicator no series makes the filter panic, and it is handled as said above.
  pub filter_one-Handled : Goes
  filter_one-Handled =
      let (f, at, fits) = bucket-FitsBucket d ts.fingerprint v in
      goes_with f at fits _ (contains-holds f ts.fingerprint fits.0)

pub seen-total : (d : Deduplicator) (h : ℕ) → IsValid d → (b : Bool) × (seen d h ≡ some b)
unfolding seen
seen-total d h v =
    let (f, at, fits) = bucket-FitsBucket d h v in (holds f h, rw at (contains-holds f h fits.0))
