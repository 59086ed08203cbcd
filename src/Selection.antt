-- ===== src/Selection.antt =====
-- internal/selection/selection.go: the candidates that a device makes of the Homes it knows and of
-- the signals it hears, and the Home that it should activate. `strings.ToLower` is a parameter, for
-- its tables of Unicode letters.
pub mod Recommend
mod Tests
use omm.Prelude.{String, Option, none, some, List, map, ◌==◌}
use omm.Prelude.Int.{ℤ, pos}
use omm.Models.{Home}
use omm.HomeSelect.{Candidate, choose}

-- The RSSI of each MAC heard.
abbrev pub Signals : Type 0
Signals = String → Option ℤ

module _ (to_lower : String → String) where
  unfoldable pub candidate_of : String → Signals → Home → Candidate
  candidate_of self_home_id signals h = record {
    home_id = h.id;
    controller_url = "";
    last_active = h.last_seen;
    signal = elim (signals (to_lower h.bssid)) [ none ↦ pos 0 | some sig ↦ sig ];
    self_controlled = h.id == self_home_id;
  }

  unfoldable pub candidates : List Home → String → Signals → List Candidate
  candidates homes self_home_id signals = map (candidate_of self_home_id signals) homes

  unfoldable pub recommend : List Home → String → String → Signals → Option Candidate
  recommend homes self_home_id explicit_home_id signals =
      choose explicit_home_id (candidates homes self_home_id signals)
