-- ===== src/Profiles/Verify.antt =====
-- Whether the mesh and batman-adv came up after a profile was applied.
pub mod Polling
use omm.Prelude.{
  String, ℕ, zero, suc, ◌+◌, Bool, true, false, Option, none, some, ◌==◌, if◌then◌else◌,
}
use omm.Prelude.Int.{ℤ, pos, negsuc}
use omm.Models.{Profile, BackhaulState, backhaul_mode_80211s, backhaul_mode_multi_ap}
use omm.Uci.{Uci}
use omm.Uci.Action.{Action, seq}
use omm.Batman as Batman
use omm.Batman.Mac.{Formats}
use omm.Profiles.{Config, Inspector, mesh_section, degrade_reason, degrade_remediation}

-- `for attempt := 0; attempt <= n; attempt++`
unfoldable pub rounds : ℤ → ℕ
rounds (pos n) = suc n
rounds (negsuc n) = 0

-- The rounds from one attempt on; an error is taken for a layer that is up. The wait between two
-- attempts is left out.
unfoldable pub poll : Inspector → ℕ → ℕ → Bool
poll probe zero attempt = false
poll probe (suc n) attempt = elim (probe attempt) [
  | none ↦ true
  | some true ↦ true
  | some false ↦ poll probe n (attempt + 1)
]

unfoldable pub is_up : Config → Option Inspector → Bool
unfolding rounds poll
is_up cfg inspector = elim inspector [
  | none ↦ true
  | some probe ↦ poll probe (rounds cfg.mesh_verify_attempts) 0
]

abbrev pub mesh_state : BackhaulState
mesh_state = record { mode = backhaul_mode_80211s; reason = ""; remediation = "" }

abbrev pub multi_ap_state : BackhaulState
multi_ap_state = record { mode = backhaul_mode_multi_ap; reason = ""; remediation = "" }

abbrev pub degraded_state : BackhaulState
degraded_state = record {
  mode = backhaul_mode_multi_ap;
  reason = degrade_reason;
  remediation = degrade_remediation;
}

module _ (uci : Uci) (formats : Formats) where
  unfoldable pub batman_up : Config → Bool
  unfolding is_up
  batman_up cfg = is_up cfg cfg.batman

  -- The mesh onto the LAN, after batman-adv is torn down.
  unfoldable pub batman_fallback : Config → Batman.Config → Action uci
  unfolding batman_up
  batman_fallback cfg bm c =
      if batman_up cfg
      then (true, c)
      else seq uci (uci.set "wireless" mesh_section "network" "lan")
          (seq uci (Batman.teardown uci formats bm)
            (seq uci (uci.commit "network") (seq uci (uci.commit "wireless") uci.reload)))
          c

  unfoldable pub degrade : Action uci
  degrade =
      seq uci (uci.delete "wireless" mesh_section) (seq uci (uci.commit "wireless") uci.reload)

  unfoldable pub verify_backhaul : Config → Profile → uci.Config → Option BackhaulState × uci.Config
  unfolding is_up degrade
  verify_backhaul cfg profile c =
      if profile.mesh_ssid == ""
      then (some multi_ap_state, c)
      else if cfg.mesh_standby
      then (some mesh_state, c)
      else if is_up cfg cfg.mesh
      then (some mesh_state, c)
      else let (ok, c') = degrade c in if ok then (some degraded_state, c') else (none, c')
