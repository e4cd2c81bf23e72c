-- ===== src/Estimator/Refusals.antt =====
-- Which configurations `newEstimator` (app/vmestimator/estimator.go) refuses, in words of the
-- configuration.
use vmestimator.Base.{
  ℕ, zero, suc, ◌≡◌, refl, ◌⊎◌, inl, inr, ◌≤◌, ◌<◌, Bool, true, false, ◌||◌, Text, codes, nat_eq,
  list_eq, ◌==◌, ==_sound, ==_refl, Option, some, List, [], ◌∷◌, length, get_elem?, Bool-cases,
  some_inj, sym, arith,
}
use mathlib.Core.Path.{subst}
use vmestimator.Filter
use vmestimator.Filter.{Parsed, CompiledFilter, compile_filters}
use vmestimator.Config.{EstimatorConfig}
use vmestimator.Estimator.State.{
  CreateError, too_many_keys, reserved_key, bad_filter, has_reserved_key,
}

abbrev pub IsReserved : Text → Type 0
IsReserved k = (k ≡ codes "__global__") ⊎ (k ≡ codes "__group__")

abbrev pub IsFree : List Text → Type 0
IsFree ks = (i : ℕ) (k : Text) → get_elem? ks i ≡ some k → ¬ IsReserved k

pub has_reserved_key-IsReserved :
    (ks : List Text)
    → has_reserved_key ks ≡ true
    → (i : ℕ) × (k : Text) × (get_elem? ks i ≡ some k) × IsReserved k
unfolding has_reserved_key
has_reserved_key-IsReserved [] e = cc
has_reserved_key-IsReserved (k ∷ ks) e = elim (Bool-cases (k == codes "__global__")) [
  | inl global ↦ (zero, k, refl, inl (==_sound k _ global))
  | inr not_global ↦ elim (Bool-cases (k == codes "__group__")) [
    | inl group ↦ (zero, k, refl, inr (==_sound k _ group))
    | inr not_group ↦
        let (i, j, at, reserved) =
          has_reserved_key-IsReserved ks (rw (not_global, not_group) at e) in
        (suc i, j, at, reserved)
  ]
]

IsReserved-true :
    (k : Text) (b : Bool)
    → IsReserved k
    → ((k == codes "__global__") || ((k == codes "__group__") || b)) ≡ true
IsReserved-true k b (inl e) = rw (e, ==_refl (codes "__global__")) refl
IsReserved-true k b (inr e) = rw e refl

pub has_reserved_key-IsFree : (ks : List Text) → has_reserved_key ks ≡ false → IsFree ks
unfolding has_reserved_key
has_reserved_key-IsFree [] e i k at reserved = cc
has_reserved_key-IsFree (j ∷ ks) e zero k at reserved =
    cc (IsReserved-true j (has_reserved_key ks) (subst IsReserved (some_inj (sym at)) reserved), e)
has_reserved_key-IsFree (j ∷ ks) e (suc i) k at reserved =
    has_reserved_key-IsFree ks (ground (arith, e)) i k at reserved

module _ (parse : Text → Parsed) (compile_regexp : Text → Option (Text → Bool))
    (cfg : EstimatorConfig) where
  -- The reasons, in the order in which they are tested.
  pub data Refuses : CreateError → Type 0 where
    over_five : 5 < length cfg.group_by → Refuses too_many_keys
    reserved :
        (i : ℕ) (k : Text)
        → length cfg.group_by ≤ 5
        → get_elem? cfg.group_by i ≡ some k
        → IsReserved k
        → Refuses reserved_key
    not_compiled :
        (why : Filter.CompileError)
        → length cfg.group_by ≤ 5
        → IsFree cfg.group_by
        → compile_filters compile_regexp parse cfg.filter ≡ Filter.err why
        → Refuses (bad_filter why)

  -- No reason to refuse, with what the filter compiles to.
  pub record IsAcceptable (cf : CompiledFilter) : Type 0 where
    pub few : length cfg.group_by ≤ 5
    pub free : IsFree cfg.group_by
    pub compiled : compile_filters compile_regexp parse cfg.filter ≡ Filter.ok cf
