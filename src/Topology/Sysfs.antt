-- ===== src/Topology/Sysfs.antt =====
-- internal/topology/backhaul.go and link.go: what sysfs and `iw` say of an interface.
use Prim.Native.String.{◌++◌}
use text.Mathlib.Text.{starts_with}
use omm.Prelude.{String, Bool, true, false, Option, none, some, List, [], ◌∷◌, ◌==◌, if◌then◌else◌}
use omm.Prelude.Int.{ℤ, pos, ltb_ℤ}
use omm.Strings.{Strings}
use omm.Backhaul.{backhaul_ethernet, backhaul_wireless}
use omm.Topology.{LinkMetrics}
use omm.Topology.Batctl.{Patterns, Runner}

abbrev pub backhaul_unknown : String
backhaul_unknown = "unknown"

-- `fileReader`
abbrev pub Reader : Type 0
Reader = String → Option String

module _ (strings : Strings) where
  unfoldable pub by_operstate : Reader → String → String
  by_operstate read base = elim (read (base ++ "/operstate")) [
    | none ↦ backhaul_unknown
    | some text ↦ if strings.trim_space text == "up" then backhaul_ethernet else backhaul_wireless
  ]

  -- `carrier` decides if it is "1" or "0", and `operstate` if not.
  unfoldable pub sysfs_backhaul : String → Reader → String
  unfolding by_operstate
  sysfs_backhaul iface read =
      let base : String = "/sys/class/net/" ++ iface in
      if iface == "" then backhaul_unknown else elim (read (base ++ "/carrier")) [
        | none ↦ by_operstate read base
        | some text ↦
            if strings.trim_space text == "1"
            then backhaul_ethernet
            else if strings.trim_space text == "0"
            then backhaul_wireless
            else by_operstate read base
      ]

  module _ (patterns : Patterns) where
    -- A line that starts a block names its station.
    unfoldable pub station_of : String → Option String
    station_of line = elim (patterns.macs line) [
      | [] ↦ none
      | mac ∷ more ↦
          if starts_with (strings.trim_space line) "Station"
          then some (strings.to_lower mac)
          else none
    ]

    abbrev number_in : String → Option ℤ
    number_in line = elim (patterns.iw_signal line) [ none ↦ none | some text ↦ patterns.atoi text ]

    -- `in_block` tells whether the last station was the peer.
    unfoldable pub scan_signal : String → Bool → List String → ℤ
    unfolding station_of
    scan_signal peer in_block [] = pos 0
    scan_signal peer in_block (line ∷ rest) = elim (station_of line) [
      | some mac ↦ scan_signal peer (mac == peer) rest
      | none ↦ elim in_block [
        | false ↦ scan_signal peer false rest
        | true ↦ elim (number_in line) [ none ↦ scan_signal peer true rest | some signal ↦ signal ]
      ]
    ]

    unfoldable pub signal_for_station : String → String → ℤ
    unfolding scan_signal
    signal_for_station out peer = scan_signal (strings.to_lower peer) false (strings.lines out)

    unfoldable pub speed : Reader → String → ℤ
    speed read iface = elim (read ("/sys/class/net/" ++ iface ++ "/speed")) [
      | none ↦ pos 0
      | some text ↦ elim (patterns.atoi (strings.trim_space text)) [
        | none ↦ pos 0
        | some mbps ↦ if ltb_ℤ (pos 0) mbps then mbps else pos 0
      ]
    ]

    unfoldable pub signal : Runner → String → String → ℤ
    unfolding signal_for_station
    signal run iface nexthop = elim (run ("iw" ∷ "dev" ∷ iface ∷ "station" ∷ "dump" ∷ [])) [
      | none ↦ pos 0
      | some out ↦ signal_for_station out nexthop
    ]

    unfoldable pub link_metrics : Runner → Reader → (String → Bool) → String → String → LinkMetrics
    unfolding signal speed
    link_metrics run read exists iface nexthop =
        if iface == ""
        then record { kind = ""; speed_mbps = pos 0; signal = pos 0 }
        else if exists ("/sys/class/net/" ++ iface ++ "/phy80211")
        then record { kind = "wireless"; speed_mbps = pos 0; signal = signal run iface nexthop }
        else record { kind = "wired"; speed_mbps = speed read iface; signal = pos 0 }
