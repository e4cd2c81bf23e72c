-- ===== src/Server/Watching.antt =====
-- The goroutine that reloads the configuration (`startConfigReloader` of app/vmestimator/config.go) in
-- the life of the server. An event of its loop is the stop, a signal or a tick, the latter two with
-- the files as they are then; without an interval of checks there is no ticker.
use vmestimator.Base.{
  ℕ, Text, ltb, list_eq, nat_eq, Option, some, ◌>>=◌, List, [], ◌∷◌, if◌then◌else◌,
}
use vmestimator.Reload.Watch.{Watcher}

pub data Event : Type 0 where
  stop : Event
  signal tick : (read_file : Text → Option Text) → Event

module _ {S : Type 0} (round : (Text → Option Text) → Watcher S → Option (Watcher S))
    (check_interval : ℕ) where
  -- The loop, over the events that its `select` meets.
  unfoldable pub watch : List Event → Watcher S → Option (Watcher S)
  watch [] w = some w
  watch (stop ∷ events) w = some w
  watch (signal read_file ∷ events) w = round read_file w >>= watch events
  watch (tick read_file ∷ events) w =
      if ltb 0 check_interval then (round read_file w >>= watch events) else watch events w
