-- ===== src/Backhaul.antt =====
-- internal/backhaul/switch.go: the loop that keeps a node on the wire while it has one, and on the
-- wireless mesh else. Each round of the loop is one step on what the closures of `Deps` answer in
-- that round; the actuations and the records that it makes are the step's events.
pub mod Failover
pub mod Uplink
mod Tests
use omm.Prelude.{
  String, Bool, true, false, not, ◌&&◌, Option, none, some, List, [], ◌∷◌, ◌++◌, ◌==◌,
  if◌then◌else◌,
}

-- The readings of internal/topology/backhaul.go.
abbrev pub backhaul_ethernet : String
backhaul_ethernet = "ethernet"

abbrev pub backhaul_wireless : String
backhaul_wireless = "wireless"

unfoldable pub decide : String → String → String × Bool
decide carrier current =
    if carrier == backhaul_ethernet
    then (backhaul_ethernet, not (backhaul_ethernet == current))
    else if carrier == backhaul_wireless
    then (backhaul_wireless, not (backhaul_wireless == current))
    else (current, false)

-- What the closures answer in a round: `observed` is "" where `Current` is nil or observes
-- nothing, and `actuates` says if the actuation, should there be one, succeeds.
pub record Round : Type 0 where
  pub observed : String
  pub carrier : String
  pub actuates : Bool

pub data Event : Type 0 where
  activate deactivate : Bool → Event
  on_switch : String → Event

-- The backhaul that the round starts from.
unfoldable pub observe : Round → String → String
observe r current = if r.observed == "" then current else r.observed

unfoldable pub actuation : Round → String → Event
actuation r desired =
    if desired == backhaul_wireless then activate r.actuates else deactivate r.actuates

-- The rest of the round. The flag says if `OnSwitch` is set.
unfoldable pub switch : Bool → Round → String → String × List Event
unfolding decide actuation
switch records r current =
    let (desired, change) = decide r.carrier current in
    if change
    then (if r.actuates
        then (desired, actuation r desired ∷ (if records then on_switch desired ∷ [] else []))
        else (current, actuation r desired ∷ []))
    else (current, [])

unfoldable pub step : Bool → Round → String → String × List Event
unfolding observe switch
step records r current = switch records r (observe r current)

-- The rounds until the context is done, from `Initial`.
unfoldable pub run : Bool → List Round → String → String × List Event
unfolding step
run records [] current = (current, [])
run records (r ∷ rs) current =
    let (next, events) = step records r current in
    let (last, more) = run records rs next in (last, events ++ more)
