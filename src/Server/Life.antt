-- ===== src/Server/Life.antt =====
-- The life of the server: its write and reset requests, its reloads, its
-- scrapes, the turns of its estimators and
-- of its deduplicator, one whole after the other.
use mathlib.Core.Path.{subst}
use vmestimator.Base.{
  ℕ, suc, ◌^◌, ◌≤◌, ◌<◌, ◌≡◌, refl, sym, ap, ◌∙◌, inl, inr, arith, Bool, true, Text, Option, none,
  some, List, [], ◌∷◌, length, get_elem?, set, All, All-set, All-get_elem?, length-set,
  Option-cases, some_inj,
}
use vmestimator.Sketch.{Hll, HllLaws}
use vmestimator.Dedup
use vmestimator.Dedup.{Deduplicator}
use vmestimator.Dedup.Rotation.{reset-IsValid, rotate-seen}
use vmestimator.Filter.{Parsed}
use vmestimator.Config
use vmestimator.Config.{EstimatorConfig, prepare}
use vmestimator.Config.Prepare.{prepare-IsNormal}
use vmestimator.Estimator.State.{Estimator, reset, rotate_at}
use vmestimator.Estimator.Bounds.{IsSound, rotate_at-IsSound}
use vmestimator.Estimator.Resets.{reset-some}
use vmestimator.Parser.{Body, handled}
use vmestimator.Parser.Fields.{Field}
use vmestimator.Parser.Total.{Shrinks}
use vmestimator.Reload.{System, swapped, load_config}
use vmestimator.Reload.Matched.{Matches-IsSound}
use vmestimator.Reload.Streams.{Renewed, IsLoaded, load_config-IsLoaded}
use vmestimator.Scrape.{Cached, Fetched, write_cardinality_metrics}
use vmestimator.Churn.{Ratio}
use vmestimator.Server.{reset_estimators, reset_system, write_request}
use vmestimator.Server.Writes.{
  IsSafe, IsStart, IsValidIf, Writes, stores, nothing, rejects, write_request-Writes,
}

pub Renewed-IsValidIf :
    (old new : Option Deduplicator) → IsValidIf old → Renewed old new → IsValidIf new
Renewed-IsValidIf none new v same = subst IsValidIf (sym same) tt
Renewed-IsValidIf (some d) new v (inl same) = subst IsValidIf (sym same) v
Renewed-IsValidIf (some d) new v (inr cleared) = subst IsValidIf (sym cleared) (reset-IsValid d v).0

module _ {S : Type 0} ⦃hll : Hll S⦄ (next_field : Text → Option (Field × Text)) (sum64 : Text → ℕ)
    (is_zstd : Text → Bool) (zstd snappy : Text → Option Text) (max_size : ℕ)
    (sort : List Text → List Text) (duration_string : ℕ → Text) (parse : Text → Parsed)
    (compile_regexp : Text → Option (Text → Bool)) (cpus : ℕ)
    (deep_equal : EstimatorConfig → EstimatorConfig → Bool) where
  -- What may happen to the server, with the random numbers of a write request.
  pub data Step (sys : System S) : System S → Type 0 where
    wrote :
        {sys' : System S} (starts : ℕ → ℕ) (start : ℕ) (body : Option Text)
        → IsStart start sys
        → write_request next_field sum64 starts start is_zstd zstd snappy max_size body sys
          ≡ handled (some sys')
        → Step sys sys'
    was_reset : {sys' : System S} → reset_system sys ≡ some sys' → Step sys sys'
    loaded :
        {sys' : System S} (streams streams' : List EstimatorConfig)
        → prepare sort duration_string cpus streams ≡ Config.ok streams'
        → length streams' ≤ 2 ^ 31
        → load_config sort duration_string parse compile_regexp cpus deep_equal sys streams'
          ≡ swapped sys'
        → Step sys sys'
    turned :
        (k i next : ℕ) (e e' : Estimator S)
        → get_elem? sys.estimators k ≡ some e
        → i < length e.buckets
        → rotate_at e i ≡ some (e', next)
        → Step sys (record sys { estimators = set sys.estimators k e' })
    dedup_turned :
        (boundary : ℕ) (d : Deduplicator)
        → sys.dedup ≡ some d
        → Step sys (record sys { dedup = some (Dedup.rotate d boundary) })
    scraped :
        (quote : Text → Text) (print_number : ℕ → Text) (print_ratio : Ratio → Text)
        (flag ttl since_now now done_at : ℕ) (fetched : Option (Fetched S)) (text : Text)
        (c : Cached S)
        → write_cardinality_metrics quote print_number print_ratio duration_string sort flag ttl
            since_now now done_at sys.estimators fetched
            (record { churn = sys.churn; cached_at = sys.cached_at; text = text })
          ≡ some c
        → Step sys (record sys { churn = c.churn; cached_at = c.cached_at })

  pub data Reaches : System S → System S → Type 0 where
    here : {sys : System S} → Reaches sys sys
    then : {sys mid sys' : System S} → Step sys mid → Reaches mid sys' → Reaches sys sys'

  reset_estimators-some :
      (laws : HllLaws hll) (es es' : List (Estimator S))
      → All IsSound es
      → reset_estimators es ≡ some es'
      → All IsSound es' × (length es' ≡ length es)
  unfolding reset_estimators
  reset_estimators-some laws [] es' ok runs =
      subst (λ xs. All IsSound xs × (length xs ≡ 0)) (some_inj runs) (tt, refl)
  reset_estimators-some laws (e ∷ es) es' ok runs = elim (Option-cases (reset e)) [
    | inl panic ↦ cc (rw panic at runs)
    | inr (r, one) ↦ elim (Option-cases (reset_estimators es)) [
      | inl panic ↦ cc (rw (one, panic) at runs)
      | inr (rs, more) ↦
          let rest = reset_estimators-some laws es rs ok.1 more in
          subst (λ (xs : List (Estimator S)). All IsSound xs × (length xs ≡ length (e ∷ es)))
            (some_inj (rw (one, more) at runs))
            (((reset-some laws e r ok.0 one).0, rest.0), ap suc rest.1)
    ]
  ]

  module _ (laws : HllLaws hll) (shrinks : Shrinks next_field)
      (sound : (a b : EstimatorConfig) → deep_equal a b ≡ true → a ≡ b) where
    wrote-IsSafe :
        (starts : ℕ → ℕ) (start : ℕ) (sys sys' : System S) (r : Body (Option (System S)))
        → IsSafe sys
        → Writes laws sum64 starts start sys r
        → r ≡ handled (some sys')
        → IsSafe sys'
    wrote-IsSafe starts start sys sys' r h (stores tss x says) e =
        let same : x ≡ sys' = cc in subst IsSafe same says.safe
    wrote-IsSafe starts start sys sys' r h nothing e =
        let same : sys ≡ sys' = cc in subst IsSafe same h
    wrote-IsSafe starts start sys sys' r h (rejects why) e = cc

    reset-IsSafe : (sys sys' : System S) → IsSafe sys → reset_system sys ≡ some sys' → IsSafe sys'
    unfolding reset_system
    reset-IsSafe sys sys' h runs = elim (Option-cases (reset_estimators sys.estimators)) [
      | inl panic ↦ cc (rw panic at runs)
      | inr (es, all) ↦
          let kept = reset_estimators-some laws sys.estimators es h.sound all in
          subst IsSafe (some_inj (rw all at runs))
            (record { sound = kept.0; few = omega (arith, kept.1, h.few); dedup = h.dedup })
    ]

    loaded-IsSafe :
        (sys sys' : System S) (streams streams' : List EstimatorConfig)
        → IsSafe sys
        → prepare sort duration_string cpus streams ≡ Config.ok streams'
        → length streams' ≤ 2 ^ 31
        → load_config sort duration_string parse compile_regexp cpus deep_equal sys streams'
          ≡ swapped sys'
        → IsSafe sys'
    loaded-IsSafe sys sys' streams streams' h prepared few runs =
        let normal = (prepare-IsNormal sort duration_string cpus streams streams' prepared).1 in
        let (pairs, renewed) =
          subst
            (IsLoaded laws sort duration_string parse compile_regexp cpus deep_equal sound sys
              streams')
            runs
            (load_config-IsLoaded laws sort duration_string parse compile_regexp cpus deep_equal
              sound sys streams' normal h.sound) in
        let ok = Matches-IsSound sort duration_string cpus sys'.estimators streams' pairs in
        record {
          sound = ok.0;
          few = omega (arith, ok.1);
          dedup = Renewed-IsValidIf sys.dedup sys'.dedup h.dedup renewed;
        }

    Step-IsSafe : {sys sys' : System S} → IsSafe sys → Step sys sys' → IsSafe sys'
    Step-IsSafe {sys} {sys'} h (wrote starts start body at runs) =
        wrote-IsSafe starts start sys sys' _ h
          (write_request-Writes laws sum64 starts start next_field shrinks is_zstd zstd snappy
            max_size body sys h at)
          runs
    Step-IsSafe {sys} {sys'} h (was_reset runs) = reset-IsSafe sys sys' h runs
    Step-IsSafe {sys} {sys'} h (loaded streams streams' prepared few runs) =
        loaded-IsSafe sys sys' streams streams' h prepared few runs
    Step-IsSafe {sys} h (turned k i next e e' at lt runs) =
        let (x, turn, ok, next_lt, size) =
          rotate_at-IsSound laws e i (All-get_elem? IsSound sys.estimators k h.sound at) lt in
        let same : x ≡ e' = ap (λ p. p.0) (some_inj (sym turn ∙ runs)) in
        record {
          sound = All-set IsSound sys.estimators k e' h.sound (subst IsSound same ok);
          few = omega (arith, h.few, length-set sys.estimators k e');
          dedup = h.dedup;
        }
    Step-IsSafe {sys} h (dedup_turned boundary d at) = record {
      sound = h.sound;
      few = h.few;
      dedup = (rotate-seen d boundary (subst IsValidIf at h.dedup)).0;
    }
    Step-IsSafe h
          (scraped quote print_number print_ratio flag ttl since_now now done_at fetched text c
            runs) =
        record { sound = h.sound; few = h.few; dedup = h.dedup }

    -- Whatever sequence of write requests, resets, reloads, scrapes, turns of the estimators and turns
    -- of the deduplicator has led from a safe state of the server, its state is safe: each estimator is
    -- sound, so that it holds no more groups than its limit, and the deduplicator is valid. A write
    -- request that follows, with any bytes, ends without a panic.
    pub Reaches-IsSafe :
        {sys sys' : System S}
        → IsSafe sys
        → Reaches sys sys'
        → IsSafe sys'
          × ((starts : ℕ → ℕ) (start : ℕ) (body : Option Text)
              → IsStart start sys'
              → Writes laws sum64 starts start sys' (
                  write_request next_field sum64 starts start is_zstd zstd snappy max_size body
                    sys'))
    Reaches-IsSafe {sys} h here = (
      h,
      λ starts start body at.
          write_request-Writes laws sum64 starts start next_field shrinks is_zstd zstd snappy
            max_size body sys h at,
    )
    Reaches-IsSafe h (then step rest) = Reaches-IsSafe (Step-IsSafe h step) rest
