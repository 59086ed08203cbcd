-- ===== src/Led.antt =====
-- internal/deviceled: the status LED of a node. state.go: the onboarding state, its pattern, and the
-- reactor that writes a pattern when the state changes. led.go: the writes under /sys/class/leds.
pub mod Files
pub mod Shown
mod Tests
use omm.Prelude.{String, Bool, true, false, ℕ, ◌==◌, if◌then◌else◌, not, ◌&&◌}
use omm.Led.Files.{Sysfs, set_trigger, set_brightness}

-- The constants of `State`
pub data State : Type 0 where
  unclaimed enrolling active : State

unfoldable pub state_for : Bool → String → State
state_for setup_complete active_home =
    if not setup_complete then unclaimed else if active_home == "" then enrolling else active

pub record Pattern : Type 0 where
  pub trigger : String
  pub brightness : ℕ

unfoldable pub pattern_for : State → Pattern
pattern_for active = record { trigger = "none"; brightness = 255 }
pattern_for enrolling = record { trigger = "heartbeat"; brightness = 0 }
pattern_for unclaimed = record { trigger = "timer"; brightness = 0 }

abbrev pub eq_state : State → State → Bool
eq_state unclaimed unclaimed = true
eq_state enrolling enrolling = true
eq_state active active = true
eq_state _ _ = false

-- `last` and `set`, and the name of the LED
pub record Reactor : Type 0 where
  pub name : String
  pub last : State
  pub set : Bool

-- What `Update` returns: whether it wrote, or an error.
pub data Updated : Type 0 where
  wrote kept failed : Updated

module _ (sysfs : Sysfs) where
  -- False where a write failed.
  unfoldable pub apply : String → Pattern → sysfs.Files → Bool × sysfs.Files
  apply name p fs =
      let (ok, fs') = set_trigger sysfs name p.trigger fs in
      if ok
      then (if p.trigger == "none" then set_brightness sysfs name p.brightness fs' else (true, fs'))
      else (false, fs')

  unfoldable pub update : Reactor → State → sysfs.Files → Updated × Reactor × sysfs.Files
  unfolding apply pattern_for
  update r s fs =
      if r.set && eq_state s r.last
      then (kept, r, fs)
      else let (ok, fs') = apply r.name (pattern_for s) fs in
        if ok then (wrote, record r { last = s; set = true }, fs') else (failed, r, fs')
