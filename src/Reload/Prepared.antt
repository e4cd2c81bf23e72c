-- ===== src/Reload/Prepared.antt =====
-- What a configuration that was read is known to be (`readConfig` of app/vmestimator/config.go).
use mathlib.Core.Path.{subst}
use vmestimator.Base.{
  ℕ, ◌≡◌, ◌≢◌, refl, ap, Bool, Text, ◌==◌, list_eq, nat_eq, Option, none, some, List, [], All,
  Bool-cases, inl, inr, ==_of_ne,
}
use vmestimator.Config
use vmestimator.Config.{EstimatorConfig, prepare, Prepared}
use vmestimator.Config.Prepare.{IsNormal, prepare-IsNormal}
use vmestimator.Reload.Watch.{Settings, Read, got, bad, read_config, opened, decoded, prepared_as}

abbrev settings_or : Read → Settings → Settings
settings_or (got settings) other = settings
settings_or (bad why) other = other

settings_inj : {a b : Settings} → got a ≡ got b → a ≡ b
settings_inj {a} e = ap (λ r. settings_or r a) e

module _ (sort : List Text → List Text) (duration_string : ℕ → Text) (cpus : ℕ) (sum64 : Text → ℕ)
    (unmarshal : Text → Option (List EstimatorConfig)) where
  -- The settings are those of some streams that `prepare` accepted.
  pub record IsPrepared (settings : Settings) : Type 0 where
    pub content : Text
    pub raw : List EstimatorConfig
    pub decoded_as : unmarshal content ≡ some raw
    pub prepared : prepare sort duration_string cpus raw ≡ Config.ok settings.streams

  module _ (read_file : Text → Option Text) where
    prepared-IsPrepared :
        (content : Text) (raw : List EstimatorConfig) (settings : Settings)
        (r : Prepared (List EstimatorConfig))
        → unmarshal content ≡ some raw
        → prepare sort duration_string cpus raw ≡ r
        → prepared_as sort duration_string cpus sum64 read_file unmarshal content r ≡ got settings
        → IsPrepared settings
    prepared-IsPrepared content raw settings (Config.err why) d p y = cc
    prepared-IsPrepared content raw settings (Config.ok streams) d p y =
        subst IsPrepared (settings_inj y)
          (record { content = content; raw = raw; decoded_as = d; prepared = p })

    decoded-IsPrepared :
        (content : Text) (settings : Settings) (r : Option (List EstimatorConfig))
        → unmarshal content ≡ r
        → decoded sort duration_string cpus sum64 read_file unmarshal content r ≡ got settings
        → IsPrepared settings
    decoded-IsPrepared content settings none d y = cc
    decoded-IsPrepared content settings (some raw) d y =
        prepared-IsPrepared content raw settings _ d refl y

    opened-IsPrepared :
        (settings : Settings) (file : Option Text)
        → opened sort duration_string cpus sum64 read_file unmarshal file ≡ got settings
        → IsPrepared settings
    opened-IsPrepared settings none y = cc
    opened-IsPrepared settings (some content) y = decoded-IsPrepared content settings _ refl y

    pub read_config-IsPrepared :
        (has_nodes : Bool) (path : Text) (settings : Settings)
        → path ≢ []
        → read_config sort duration_string cpus sum64 read_file unmarshal has_nodes path
          ≡ got settings
        → IsPrepared settings
    unfolding read_config
    read_config-IsPrepared has_nodes path settings ne e =
        opened-IsPrepared settings (read_file path) (rw (==_of_ne path [] ne) at e)

    -- Its streams are normal; without a path there are none.
    pub read_config-IsNormal :
        (has_nodes : Bool) (path : Text) (settings : Settings)
        → read_config sort duration_string cpus sum64 read_file unmarshal has_nodes path
          ≡ got settings
        → All IsNormal settings.streams
    unfolding read_config
    read_config-IsNormal has_nodes path settings e = elim (Bool-cases (path == [])) [
      | inl no_path ↦ elim (Bool-cases has_nodes) [
        | inl nodes ↦
            subst (λ (x : Settings). All IsNormal x.streams)
              (settings_inj (rw (no_path, nodes) at e)) tt
        | inr none_there ↦ cc (rw (no_path, none_there) at e)
      ]
      | inr a_path ↦
          let p = opened-IsPrepared settings (read_file path) (rw a_path at e) in
          (prepare-IsNormal sort duration_string cpus p.raw settings.streams p.prepared).1
    ]
