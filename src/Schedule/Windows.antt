-- ===== src/Schedule/Windows.antt =====
-- The fires and windows of internal/schedule/schedule.go. Times are numbers and 0 is the zero time; the
-- function of an entry is the Next of its parsed cron expression in its time zone, by robfig/cron.
use actions_runner_scaleset.Prelude.{
  ℕ, zero, suc, ◌+◌, ◌*◌, ◌-◌, ◌==◌, not, ◌||◌, Option, none, some, List, [], ◌∷◌, String, str_eq,
  leb, ltb, if◌then◌else◌,
}
use actions_runner_scaleset.Prelude.Dict.{lookup, erase, insert}
use actions_runner_scaleset.Schedule.{Entry}

-- An entry of a runner, with its cron schedule.
pub record Armed : Type 0 where
  pub entry : Entry
  pub next : ℕ → ℕ

pub record Activation : Type 0 where
  pub entry : Entry
  pub fired_at : ℕ
  pub active_until : ℕ

abbrev pub Windows : Type 0
Windows = List (String × Activation)

-- The loop of replayActiveAtStartup over the fires of an entry, from the fire `t`, on fuel: none if it
-- has not ended.
unfoldable pub last_fire : ℕ → (ℕ → ℕ) → ℕ → ℕ → ℕ → Option ℕ
last_fire zero next now t last = none
last_fire (suc fuel) next now t last =
    if ltb now t then some last else last_fire fuel next now (next t) t

-- The last fire of an entry at its restart; the clock is past twice the duration.
unfoldable pub fired_before : Armed → ℕ → Option ℕ
unfolding last_fire
fired_before e now =
    let start = now - 2 * e.entry.duration in
    last_fire (suc (now - start)) e.next now (e.next start) 0

-- The window of an entry in the map, if it is open and the most recent of its profile.
unfoldable pub open_window : Entry → ℕ → ℕ → Windows → Windows
unfolding lookup insert
open_window e now fired active =
    let a : Activation = record {
      entry = e;
      fired_at = fired;
      active_until = fired + e.duration;
    } in
    if fired == 0 || leb e.duration (now - fired)
    then active
    else elim (lookup str_eq e.profile active) [
      | none ↦ insert str_eq e.profile a active
      | some cur ↦ if ltb cur.fired_at fired then insert str_eq e.profile a active else active
    ]

-- replayActiveAtStartup, with the windows so far; none if a loop has not ended
unfoldable pub replay_active_at_startup : List Armed → ℕ → Windows → Option Windows
unfolding fired_before open_window
replay_active_at_startup [] now active = some active
replay_active_at_startup (e ∷ es) now active = elim (fired_before e now) [
  | none ↦ none
  | some fired ↦ replay_active_at_startup es now (open_window e.entry now fired active)
]

-- nextFireAfter, with the soonest entry so far
unfoldable pub soonest : ℕ → Option Armed → List Armed → Option Armed
soonest now which [] = which
soonest now none (e ∷ es) = soonest now (some e) es
soonest now (some w) (e ∷ es) =
    soonest now (some (if ltb (e.next now) (w.next now) then e else w)) es

unfoldable pub next_fire_after : ℕ → List Armed → Option Armed
unfolding soonest
next_fire_after now es = soonest now none es

-- A call of apply, with the sizes that it sets.
pub record Apply : Type 0 where
  pub profile : String
  pub hot : ℕ
  pub warm : ℕ

-- handleFire
unfoldable pub handle_fire : Entry → ℕ → Windows → Windows × List Apply
unfolding lookup insert
handle_fire e now active =
    let a : Activation = record { entry = e; fired_at = now; active_until = now + e.duration } in
    let set = record { profile = e.profile; hot = e.hot_size; warm = e.warm_size } ∷ [] in
    let after = insert str_eq e.profile a active in
    elim (lookup str_eq e.profile active) [
      | none ↦ (after, set)
      | some cur ↦
          if not (cur.entry.hot_size == e.hot_size) || not (cur.entry.warm_size == e.warm_size)
          then (after, set)
          else (after, [])
    ]

-- handleExpire
unfoldable pub handle_expire : String → ℕ → Windows → Windows × List Apply
unfolding lookup erase
handle_expire profile now active = elim (lookup str_eq profile active) [
  | none ↦ (active, [])
  | some cur ↦ if ltb now cur.active_until then (active, []) else (
    erase str_eq profile active,
    record { profile = profile; hot = cur.entry.baseline_hot; warm = cur.entry.baseline_warm } ∷ [],
  )
]
