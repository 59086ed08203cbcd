-- ===== src/Profiles/Apply.antt =====
-- `ApplyProfile` and `ApplyProfileForHome`.
pub mod Frame
pub mod Outcome
use omm.Prelude.{
  String, Bool, true, false, Option, none, some, List, [], ◌∷◌, ◌==◌, ◌&&◌, not, if◌then◌else◌,
}
use omm.Models.{Profile, BackhaulState}
use omm.Store.Bolt.{Bolt}
use omm.Store.Db.{Db}
use omm.Store.Result.{Result, ok, err}
use omm.Store.Records.{get_profile}
use omm.Store.Settings.{set_backhaul_state}
use omm.Uci.{Uci}
use omm.Uci.Action.{Action, seq, done}
use omm.Batman as Batman
use omm.Batman.Mac.{Formats}
use omm.Profiles.{Config}
use omm.Profiles.Radios.{resolve_radio, resolve_mesh_radio}
use omm.Profiles.Author.{author_wireless, set_some}
use omm.Profiles.Verify.{batman_fallback, verify_backhaul}

abbrev pub routed_of : Config → Profile → Bool
routed_of cfg profile = cfg.batman_enable && not (profile.mesh_ssid == "")

-- The layer under a mesh that batman-adv routes.
unfoldable pub layer_of : Config → Batman.Config
layer_of cfg = Batman.with_defaults (record {
  iface = cfg.batman_iface;
  routing_algo = cfg.batman_routing_algo;
  wired_ports = cfg.batman_ports;
  lan_device = cfg.lan_device;
  mac = cfg.batman_mac;
})

module _ (bolt : Bolt) (uci : Uci) (formats : Formats) (normalize : String → String) where
  -- An action that is made if the flag says so.
  abbrev pub when : Bool → Action uci → Action uci
  when b act = if b then act else done uci

  unfoldable pub commit_profile : Bool → Action uci
  commit_profile routed =
      seq uci (when routed (uci.commit "network"))
        (seq uci (uci.commit "wireless") (seq uci (uci.commit "system") uci.reload))

  -- All writes and the reload, for the radios that were resolved.
  unfoldable pub author_profile : Config → Profile → String → String → Action uci
  unfolding layer_of commit_profile
  author_profile cfg profile ap_radio mesh_radio =
      let routed = routed_of cfg profile in
      let bm = layer_of cfg in
      let network : String = if routed then Batman.mesh_hardif bm else "lan" in
      seq uci (when routed (Batman.apply uci formats bm)) (
        seq uci (author_wireless uci normalize cfg profile routed ap_radio mesh_radio network) (
          seq uci (set_some uci normalize "system" "@system[0]" "hostname" profile.node_name)
            (seq uci (commit_profile routed) (when routed (batman_fallback uci formats cfg bm)))))

  -- The outcome is recorded if there is a store.
  unfoldable pub record_state : BackhaulState → Option (Db bolt) → Bool × Option (Db bolt)
  record_state state none = (true, none)
  record_state state (some db) =
      let (r, db') = set_backhaul_state bolt state db in
      (elim r [ ok _ ↦ true | err _ ↦ false ], some db')

  -- What follows the check of the backhaul, which may have failed.
  unfoldable pub finish :
      Option BackhaulState × uci.Config → Option (Db bolt) → Bool × Option (Db bolt) × uci.Config
  unfolding record_state
  finish (none, c) store = (false, store, c)
  finish (some state, c) store =
      let (recorded, store') = record_state state store in (recorded, store', c)

  unfoldable pub apply_profile :
      Config → Profile → Option (Db bolt) → uci.Config → Bool × Option (Db bolt) × uci.Config
  unfolding author_profile finish
  apply_profile cfg profile store c = elim (resolve_radio uci normalize cfg profile c) [
    | none ↦ (false, store, c)
    | some ap_radio ↦
        let (wrote, c1) =
          author_profile cfg profile ap_radio (resolve_mesh_radio uci normalize cfg ap_radio c) c in
        if wrote
        then finish (verify_backhaul uci formats cfg profile c1) store
        else (false, store, c1)
  ]

  unfoldable pub apply_profile_for_home :
      Config → String → Db bolt → uci.Config → Bool × Option (Db bolt) × uci.Config
  unfolding apply_profile
  apply_profile_for_home cfg home_id db c = elim (get_profile bolt home_id db).0 [
    | err _ ↦ (false, some db, c)
    | ok profile ↦ apply_profile cfg profile (some db) c
  ]
