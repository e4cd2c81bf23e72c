-- ===== src/Server/Watched.antt =====
-- The rounds of the reloader as steps of the server's life (app/vmestimator/config.go).
use vmestimator.Base.{
  ℕ, ◌+◌, ◌^◌, ◌≤◌, ◌≡◌, ◌≢◌, refl, arith, Bool, true, false, Text, ltb, ◌==◌, list_eq, nat_eq,
  Option, some, ◌>>=◌, List, [], ◌∷◌, length, if◌then◌else◌,
}
use vmestimator.Sketch.{Hll, HllLaws}
use vmestimator.Filter.{Parsed}
use vmestimator.Config.{EstimatorConfig}
use vmestimator.Config.Prepare.{prepare-IsNormal}
use vmestimator.Reload.{System, Loaded, unchanged, rejected, panicked, swapped, load_config}
use vmestimator.Reload.Streams.{IsLoaded, load_config-IsLoaded}
use vmestimator.Reload.Watch.{
  Settings, Read, got, bad, read_config, Watcher, after_load, failed_round, reload_round,
}
use vmestimator.Parser.Fields.{Field}
use vmestimator.Parser.Total.{Shrinks}
use vmestimator.Server.Writes.{IsSafe}
use vmestimator.Server.Life.{loaded, Reaches, Reaches-IsSafe, here}
use vmestimator.Reload.Prepared.{IsPrepared, read_config-IsPrepared}
use vmestimator.Server.Watching.{Event, stop, signal, tick, watch}

module _ {S : Type 0} ⦃hll : Hll S⦄ (laws : HllLaws hll) (next_field : Text → Option (Field × Text))
    (shrinks : Shrinks next_field) (sum64 : Text → ℕ) (is_zstd : Text → Bool)
    (zstd snappy : Text → Option Text) (max_size : ℕ) (sort : List Text → List Text)
    (duration_string : ℕ → Text) (parse : Text → Parsed)
    (compile_regexp : Text → Option (Text → Bool)) (cpus : ℕ)
    (deep_equal : EstimatorConfig → EstimatorConfig → Bool)
    (sound : (a b : EstimatorConfig) → deep_equal a b ≡ true → a ≡ b)
    (unmarshal : Text → Option (List EstimatorConfig)) (has_nodes : Bool) (path : Text) where
  abbrev IsReached : System S → System S → Type 0
  IsReached sys sys' =
      Reaches next_field sum64 is_zstd zstd snappy max_size sort duration_string parse
        compile_regexp cpus deep_equal sys sys'

  abbrev load : System S → List EstimatorConfig → Loaded S
  load = load_config sort duration_string parse compile_regexp cpus deep_equal

  -- A round that reads the file at the path.
  abbrev pub round : (Text → Option Text) → Watcher S → Option (Watcher S)
  round read_file w =
      reload_round load
        (read_config sort duration_string cpus sum64 read_file unmarshal has_nodes path) w

  module _ (a_path : path ≢ [])
      (few : (content : Text) (streams : List EstimatorConfig)
        → unmarshal content ≡ some streams
        → length streams ≤ 2 ^ 31) where
    -- What a round leaves: a state that the server's life can lead to.
    abbrev Goes : Watcher S → Option (Watcher S) → Type 0
    Goes w r = (w' : Watcher S) × (r ≡ some w') × IsReached w.system w'.system

    after_load-Goes :
        (w : Watcher S) (settings : Settings) (r : Loaded S)
        → IsPrepared sort duration_string cpus sum64 unmarshal settings
        → load w.system settings.streams ≡ r
        → IsLoaded laws sort duration_string parse compile_regexp cpus deep_equal sound w.system
            settings.streams r
        → Goes w (after_load w settings.hash r)
    after_load-Goes w settings unchanged p e h =
        (record w { hash = settings.hash; is_success = true }, refl, here)
    after_load-Goes w settings (rejected why) p e h = (failed_round w, refl, here)
    after_load-Goes w settings panicked p e h = absurd h
    after_load-Goes w settings (swapped sys) p e h =
        let len =
          (prepare-IsNormal sort duration_string cpus p.raw settings.streams p.prepared).0 in
        (
          record w {
            system = sys;
            hash = settings.hash;
            is_success = true;
            reloads = w.reloads + 1;
          },
          refl,
          Reaches.then
              (loaded p.raw settings.streams p.prepared
                (omega (arith, len, few p.content p.raw p.decoded_as)) e)
              here,
        )

    by_hash :
        (w : Watcher S) (hash : ℕ) (b : Bool) (r : Option (Watcher S))
        → Goes w r
        → Goes w (if b then some (record w { is_success = true }) else r)
    by_hash w hash true r h = (record w { is_success = true }, refl, here)
    by_hash w hash false r h = h

    reload_round-Goes :
        (w : Watcher S) (file : Read)
        → IsSafe w.system
        → ((settings : Settings)
            → file ≡ got settings
            → IsPrepared sort duration_string cpus sum64 unmarshal settings)
        → Goes w (reload_round load file w)
    unfolding reload_round
    reload_round-Goes w (bad why) h p = (failed_round w, refl, here)
    reload_round-Goes w (got settings) h p =
        let prepared = p settings refl in
        let normal_streams =
          (prepare-IsNormal sort duration_string cpus prepared.raw settings.streams
            prepared.prepared).1 in
        by_hash w settings.hash (settings.hash == w.hash) _ (
          after_load-Goes w settings _ prepared refl (
            load_config-IsLoaded laws sort duration_string parse compile_regexp cpus deep_equal
              sound w.system settings.streams normal_streams h.sound))

    round-Goes :
        (read_file : Text → Option Text) (w : Watcher S)
        → IsSafe w.system
        → Goes w (round read_file w)
    round-Goes read_file w h = reload_round-Goes w _ h (λ settings e.
        read_config-IsPrepared sort duration_string cpus sum64 unmarshal read_file has_nodes path
          settings a_path e)

    Reaches-join : {a b c : System S} → IsReached a b → IsReached b c → IsReached a c
    Reaches-join here q = q
    Reaches-join (Reaches.then step rest) q = Reaches.then step (Reaches-join rest q)

    reached-IsSafe : {sys sys' : System S} → IsSafe sys → IsReached sys sys' → IsSafe sys'
    reached-IsSafe h r =
        (Reaches-IsSafe next_field sum64 is_zstd zstd snappy max_size sort duration_string parse
          compile_regexp cpus deep_equal laws shrinks sound h r).0

    -- A round, then whatever the rest of the loop does.
    round_then :
        (events : List Event) (interval : ℕ) (w : Watcher S) (r : Option (Watcher S))
        → IsSafe w.system
        → Goes w r
        → ((w' : Watcher S) → IsSafe w'.system → Goes w' (watch round interval events w'))
        → Goes w (r >>= watch round interval events)
    round_then events interval w r h (w', runs, reached) rest =
        let (last, more, on) = rest w' (reached-IsSafe h reached) in
        (last, rw runs more, Reaches-join reached on)

    by_ticker :
        (b : Bool) (w : Watcher S) (x y : Option (Watcher S))
        → Goes w x
        → Goes w y
        → Goes w (if b then x else y)
    by_ticker true w x y p q = p
    by_ticker false w x y p q = q

    -- The goroutine that reloads the configuration, with a path that is not empty and files that list
    -- at most 2 ^ 31 streams: from a safe state, whatever signals, ticks and stop it meets and
    -- whatever the files hold at those times, its loop does not panic, and what it leaves is
    -- reached from the state before by steps of the server's life.
    pub watch-Reaches :
        (interval : ℕ) (events : List Event) (w : Watcher S)
        → IsSafe w.system
        → (w' : Watcher S) × (watch round interval events w ≡ some w')
          × Reaches next_field sum64 is_zstd zstd snappy max_size sort duration_string parse
              compile_regexp cpus deep_equal w.system w'.system
    unfolding watch
    watch-Reaches interval [] w h = (w, refl, here)
    watch-Reaches interval (stop ∷ events) w h = (w, refl, here)
    watch-Reaches interval (signal read_file ∷ events) w h =
        round_then events interval w (round read_file w) h (round-Goes read_file w h)
          (watch-Reaches interval events)
    watch-Reaches interval (tick read_file ∷ events) w h =
        by_ticker (ltb 0 interval) w _ _
          (round_then events interval w (round read_file w) h (round-Goes read_file w h)
            (watch-Reaches interval events))
          (watch-Reaches interval events w h)
