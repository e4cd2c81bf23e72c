-- ===== src/Server/Started.antt =====
-- What the program starts with, and where its life leads from there (app/vmestimator/main.go).
use mathlib.Core.Path.{subst}
use native.Mathlib.Decide.{dec_lt}
use vmestimator.Base.{
  ℕ, ◌^◌, ◌≤◌, ◌<◌, ◌≡◌, refl, sym, inl, inr, ◌⊎◌, arith, Bool, true, false, Text, ltb, leb,
  list_eq, nat_eq, Option, none, some, List, [], ◌∷◌, length, get_elem?, All, lookup, Bool-cases,
  Option-cases, ◌∙◌,
}
use vmestimator.Sketch.{Hll, HllLaws}
use vmestimator.Dedup.{Deduplicator, new_deduplicator, min_max_size, min_interval}
use vmestimator.Dedup.Rotation.{new_deduplicator-IsValid, new_deduplicator-none}
use vmestimator.Filter.{Parsed}
use vmestimator.Config.{EstimatorConfig}
use vmestimator.Config.Prepare.{IsNormal}
use vmestimator.Estimator.State.{Created, created, refused, panics}
use vmestimator.Reload.{
  System, Loaded, unchanged, rejected, panicked, swapped, load_config, plan_streams, apply_plan,
  make, Planned, planned, failed, crashed, with_made, made_or,
}
use vmestimator.Reload.Matched.{Matches, done, Matches-IsSound}
use vmestimator.Reload.Refused.{load_config-IsRefused}
use vmestimator.Estimator.Refusals.{Refuses}
use vmestimator.Reload.Streams.{IsLoaded, load_config-IsLoaded}
use vmestimator.Reload.Prepared.{read_config-IsNormal}
use vmestimator.Reload.Watch.{Settings, Read, got, bad, read_config, Watcher}
use vmestimator.Parser.Fields.{Field}
use vmestimator.Parser.Total.{Shrinks}
use vmestimator.Server.{write_request}
use vmestimator.Server.Writes.{IsSafe, IsStart, IsValidIf, Writes}
use vmestimator.Server.Life.{Reaches, Reaches-IsSafe, Renewed-IsValidIf}
use vmestimator.Server.Startup.{
  Started, running, fatal, StopReason, small_size, short_interval, not_read, not_loaded, with_dedup,
  made_dedup, blank_system, first, after_first, loaded_first, start_up,
}
use vmestimator.Server.Startup

not_le : (a b : ℕ) → b < a → leb a b ≡ false
not_le a b lt = ground arith

module _ {S : Type 0} ⦃hll : Hll S⦄ (laws : HllLaws hll) (sort : List Text → List Text)
    (duration_string : ℕ → Text) (parse : Text → Parsed)
    (compile_regexp : Text → Option (Text → Bool)) (cpus : ℕ)
    (deep_equal : EstimatorConfig → EstimatorConfig → Bool)
    (sound : (a b : EstimatorConfig) → deep_equal a b ≡ true → a ≡ b) where
  abbrev load : System S → List EstimatorConfig → Loaded S
  load = load_config sort duration_string parse compile_regexp cpus deep_equal

  -- The first load of one stream or more changes something.
  load-blank_system :
      (d : Option Deduplicator) (streams : List EstimatorConfig)
      → load (blank_system d) streams ≡ unchanged
      → streams ≡ []
  unfolding load_config plan_streams apply_plan lookup
  load-blank_system d [] e = refl
  load-blank_system d (ec ∷ ecs) e =
      by_made (make sort duration_string parse compile_regexp cpus deep_equal ec) _ e
    where
      by_made :
          (c : Created S) (rest : Planned S)
          → apply_plan (blank_system d) (made_or c (λ x. with_made x rest)) ≡ unchanged
          → ec ∷ ecs ≡ []
      by_made (created x) (planned p) y = cc
      by_made (created x) (failed why) y = cc
      by_made (created x) crashed y = cc
      by_made (refused why) rest y = cc
      by_made panics rest y = cc

  -- What the program can start with.
  abbrev pub IsStarted : ℕ → ℕ → Read → Started S → Type 0
  IsStarted interval max_size file (running w) =
      IsSafe w.system
      × ((settings : Settings) × (file ≡ got settings)
          × (w.hash ≡ settings.hash)
          × Matches sort duration_string cpus w.system.estimators settings.streams)
  IsStarted interval max_size file (fatal small_size) = (0 < interval) × (max_size ≤ min_max_size)
  IsStarted interval max_size file (fatal short_interval) =
      (0 < interval) × (interval < min_interval)
  IsStarted interval max_size file (fatal (not_read why)) = file ≡ bad why
  IsStarted interval max_size file (fatal (not_loaded why)) =
      (settings : Settings) × (file ≡ got settings)
      × (i : ℕ) × (ec : EstimatorConfig) × (get_elem? settings.streams i ≡ some ec)
      × Refuses parse compile_regexp ec why
  IsStarted interval max_size file Startup.panics =
      (interval ≡ min_interval) × (min_max_size < max_size)

  module _ (interval max_size : ℕ) where
    after_first-IsStarted :
        (d : Option Deduplicator) (settings : Settings) (r : Loaded S)
        → IsValidIf d
        → length settings.streams ≤ 2 ^ 31
        → All IsNormal settings.streams
        → load (blank_system d) settings.streams ≡ r
        → IsLoaded laws sort duration_string parse compile_regexp cpus deep_equal sound
            (blank_system d)
            settings.streams
            r
        → IsStarted interval max_size (got settings) (after_first d settings.hash r)
    after_first-IsStarted d settings unchanged v few n e h =
        let empty = load-blank_system d settings.streams e in
        (
          record { sound = tt; few = omega arith; dedup = v },
          (settings, refl, refl, subst (Matches sort duration_string cpus []) (sym empty) done),
        )
    after_first-IsStarted d settings (rejected why) v few n e h =
        let (i, ec, at, refuses) =
          load_config-IsRefused laws sort duration_string parse compile_regexp cpus deep_equal
            (blank_system d) settings.streams why n e in
        (settings, refl, i, ec, at, refuses)
    after_first-IsStarted d settings panicked v few n e h = absurd h
    after_first-IsStarted d settings (swapped sys) v few n e (pairs, renewed) =
        let ok = Matches-IsSound sort duration_string cpus sys.estimators settings.streams pairs in
        (
          record {
            sound = ok.0;
            few = omega (arith, ok.1);
            dedup = Renewed-IsValidIf d sys.dedup v renewed;
          },
          (settings, refl, refl, pairs),
        )

    loaded_first-IsStarted :
        (d : Option Deduplicator) (file : Read)
        → IsValidIf d
        → ((settings : Settings) → file ≡ got settings → All IsNormal settings.streams)
        → ((settings : Settings) → file ≡ got settings → length settings.streams ≤ 2 ^ 31)
        → IsStarted interval max_size file (loaded_first load d file)
    loaded_first-IsStarted d (bad why) v normal few = refl
    loaded_first-IsStarted d (got settings) v normal few =
        after_first-IsStarted d settings _ v (few settings refl) (normal settings refl) refl (
          load_config-IsLoaded laws sort duration_string parse compile_regexp cpus deep_equal sound
            (blank_system d) settings.streams (normal settings refl) tt)

    -- The checks of the flags, for whatever follows them.
    with_dedup-IsStarted :
        (file : Read) (next : Option Deduplicator → Started S)
        → max_size < 2 ^ 59
        → ((d : Option Deduplicator) → IsValidIf d → IsStarted interval max_size file (next d))
        → IsStarted interval max_size file (with_dedup interval max_size next)
    unfolding with_dedup
    with_dedup-IsStarted file next small h = elim (Bool-cases (ltb 0 interval)) [
      | inr off ↦ rw off (h none tt)
      | inl on ↦ elim (Bool-cases (leb max_size min_max_size)) [
        | inl little ↦ rw (on, little) (ground (arith, on), ground (arith, little))
        | inr enough ↦ elim (Bool-cases (ltb interval min_interval)) [
          | inl short ↦ rw (on, enough, short) (ground (arith, on), ground (arith, short))
          | inr long ↦ rw (on, enough, long) (made (ground (arith, enough)) (ground (arith, long)))
        ]
      ]
    ]
      where
        exactly :
            max_size ≤ min_max_size ⊎ interval ≤ min_interval
            → min_max_size < max_size
            → min_interval ≤ interval
            → interval ≡ min_interval
        exactly a b c = omega arith

        valid :
            (d : Deduplicator)
            → min_max_size < max_size
            → min_interval ≤ interval
            → new_deduplicator max_size interval ≡ some d
            → IsValidIf (some d)
        valid d enough long it = elim (dec_lt min_interval interval) [
          | yes more ↦
              let (d', same, v, unseen) =
                new_deduplicator-IsValid max_size interval enough small more in
              subst IsValidIf (sym same ∙ it) v
          | no not_more ↦
              cc (rw ((new_deduplicator-none max_size interval).1 (inr (omega arith))) at it)
        ]

        made :
            min_max_size < max_size
            → min_interval ≤ interval
            → IsStarted interval max_size file
                (made_dedup (new_deduplicator max_size interval) next)
        made enough long = elim (Option-cases (new_deduplicator max_size interval)) [
          | inl refused_it ↦
              rw refused_it (
                exactly ((new_deduplicator-none max_size interval).0 refused_it) enough long,
                enough,
              )
          | inr (d, it) ↦ rw it (h (some d) (valid d enough long it))
        ]

  with_dedup-panics :
      (interval max_size : ℕ) (next : Option Deduplicator → Started S)
      → interval ≡ min_interval
      → min_max_size < max_size
      → with_dedup interval max_size next ≡ Startup.panics
  unfolding with_dedup
  with_dedup-panics interval max_size next e enough =
      let it : new_deduplicator max_size interval ≡ none =
        (new_deduplicator-none max_size interval).1 (inr (omega (arith, e))) in
      rw (it, e, not_le max_size min_max_size enough) refl

  module _ (interval max_size : ℕ) (small : max_size < 2 ^ 59) (sum64 : Text → ℕ)
      (read_file : Text → Option Text) (unmarshal : Text → Option (List EstimatorConfig))
      (has_nodes : Bool) (path : Text) where
    abbrev file : Read
    file = read_config sort duration_string cpus sum64 read_file unmarshal has_nodes path

    module _
        (few : (settings : Settings) → file ≡ got settings → length settings.streams ≤ 2 ^ 31) where
      -- With a size below 2 ^ 59 and a configuration of at most 2 ^ 31 streams, the program starts
      -- with a safe state that has one estimator for each stream of the file, in their order, and with
      -- the file's hash; or it stops with a message: the size is at most 9999 or the interval below 30s
      -- while the interval is positive, the file was not read, or a stream of the file is refused
      -- for the reason that the message gives: it has more than five keys, a reserved key, or a filter
      -- that does not compile. It panics
      -- exactly if the interval is 30s and the size is above 9999.
      pub start_up-IsStarted :
          IsStarted interval max_size file (start_up load interval max_size file)
          × (interval ≡ min_interval
              → min_max_size < max_size
              → start_up load interval max_size file ≡ Startup.panics)
      unfolding start_up
      start_up-IsStarted = (
        with_dedup-IsStarted interval max_size file (λ d. loaded_first load d file) small
            (λ d v.
              loaded_first-IsStarted interval max_size d file v
                (read_config-IsNormal sort duration_string cpus sum64 unmarshal read_file has_nodes
                  path)
                few),
        with_dedup-panics interval max_size (λ d. loaded_first load d file),
      )

      -- Once the program has started, with a size below 2 ^ 59 and a configuration of at most 2 ^ 31
      -- streams, its state stays safe through every sequence of write requests, resets, reloads,
      -- scrapes, turns of the estimators and turns of the deduplicator: each estimator is sound, so
      -- that it holds no more groups than its limit, and the deduplicator is valid. A write request
      -- that follows, with any bytes, ends without a panic.
      pub start_up-Reaches :
          (next_field : Text → Option (Field × Text)) (is_zstd : Text → Bool)
          (zstd snappy : Text → Option Text) (max_request : ℕ)
          → Shrinks next_field
          → (w : Watcher S) (sys : System S) → start_up load interval max_size file ≡ running w
          → Reaches next_field sum64 is_zstd zstd snappy max_request sort duration_string parse
              compile_regexp cpus deep_equal w.system sys
          → IsSafe sys
            × ((starts : ℕ → ℕ) (start : ℕ) (body : Option Text)
                → IsStart start sys
                → Writes laws sum64 starts start sys (
                    write_request next_field sum64 starts start is_zstd zstd snappy max_request body
                      sys))
      start_up-Reaches next_field is_zstd zstd snappy max_request shrinks w sys runs steps =
          let (safe, more) = subst (IsStarted interval max_size file) runs start_up-IsStarted.0 in
          Reaches-IsSafe next_field sum64 is_zstd zstd snappy max_request sort duration_string parse
            compile_regexp cpus deep_equal laws shrinks sound safe steps
