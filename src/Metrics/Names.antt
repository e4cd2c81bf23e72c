-- ===== src/Metrics/Names.antt =====
-- The names of the labels that show the values of the keys (app/vmestimator/snapshot.go).
use vmestimator.Base.{
  ◌≡◌, ◌≢◌, refl, sym, ◌∙◌, inl, inr, Text, codes, ◌==◌, nat_eq, list_eq, ◌++◌, Bool-cases,
  ==_sound,
}
use vmestimator.Metrics.{by_name}

abbrev by : Text → Text
by k = codes "by_" ++ k

by_inj : (k j : Text) → by k ≡ by j → k ≡ j
by_inj k j e = cc

-- The name of a key, by what the key is.
data Named (k : Text) : Type 0 where
  name_key : k ≡ codes "__name__" → by_name k ≡ by (codes "_name__") → Named k
  label_key : k ≡ codes "__label__" → by_name k ≡ by (codes "_label__") → Named k
  plain_key : by_name k ≡ by k → Named k

named : (k : Text) → Named k
unfolding by_name
named k = elim (Bool-cases (k == codes "__name__")) [
  | inl n ↦ name_key (==_sound k (codes "__name__") n) (rw n refl)
  | inr other ↦ elim (Bool-cases (k == codes "__label__")) [
    | inl l ↦ label_key (==_sound k (codes "__label__") l) (rw (other, l) refl)
    | inr plain ↦ plain_key (rw (other, plain) refl)
  ]
]

-- The keys of a stream have names of their own, unless one of them is `_name__` or `_label__`.
pub by_name_injective :
    (k j : Text)
    → k ≢ codes "_name__"
    → k ≢ codes "_label__"
    → j ≢ codes "_name__"
    → j ≢ codes "_label__"
    → by_name k ≡ by_name j
    → k ≡ j
by_name_injective k j kn kl jn jl e = go (named k) (named j)
  where
    go : Named k → Named j → k ≡ j
    go (name_key p q) (name_key r s) = p ∙ sym r
    go (name_key p q) (label_key r s) = cc
    go (name_key p q) (plain_key s) = absurd (jn (sym (by_inj _ _ (sym q ∙ e ∙ s))))
    go (label_key p q) (name_key r s) = cc
    go (label_key p q) (label_key r s) = p ∙ sym r
    go (label_key p q) (plain_key s) = absurd (jl (sym (by_inj _ _ (sym q ∙ e ∙ s))))
    go (plain_key q) (name_key r s) = absurd (kn (by_inj _ _ (sym q ∙ e ∙ s)))
    go (plain_key q) (label_key r s) = absurd (kl (by_inj _ _ (sym q ∙ e ∙ s)))
    go (plain_key q) (plain_key s) = by_inj _ _ (sym q ∙ e ∙ s)
