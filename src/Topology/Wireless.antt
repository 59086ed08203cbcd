-- ===== src/Topology/Wireless.antt =====
-- internal/topology/wireless.go: the clients that hostapd lists over ubus. A reply is its fields, or
-- none on an error; a map of a reply is the list of its entries.
use omm.Prelude.{
  String, Bool, Option, none, some, List, [], ◌∷◌, ◌++◌, map, ◌==◌, ◌&&◌, not, is_empty,
  if◌then◌else◌,
}
use omm.Prelude.Int.{ℤ, pos, ltb_ℤ}
use omm.Prelude.Sort.{stable_sort}
use omm.Prelude.TextOrder.{text_less}
use omm.Strings.{Strings}
use omm.Topology.{Client}

pub record Vif : Type 0 where
  pub ifname : String
  pub mode : String

pub record Station : Type 0 where
  pub signal : ℤ
  pub rx_rate : ℤ
  pub tx_rate : ℤ

pub record GetClientsResponse : Type 0 where
  pub freq : ℤ
  pub clients : List (String × Station)

unfoldable pub band_from_freq : ℤ → String
band_from_freq (pos omm.Prelude.ℕ.zero) = ""
band_from_freq freq =
    if ltb_ℤ freq (pos 2500) then "2.4GHz" else if ltb_ℤ freq (pos 5925) then "5GHz" else "6GHz"

-- The access points among the interfaces of one radio.
unfoldable pub ap_names : List Vif → List String
ap_names [] = []
ap_names (v ∷ vs) =
    let rest = ap_names vs in
    if (v.mode == "ap") && not (v.ifname == "") then v.ifname ∷ rest else rest

unfoldable pub all_ap_names : List (List Vif) → List String
unfolding ap_names
all_ap_names [] = []
all_ap_names (radio ∷ radios) = ap_names radio ++ all_ap_names radios

-- `apInterfaces`: the configured ones, or those of the status of the radios.
unfoldable pub ap_interfaces : List String → Option (List (List Vif)) → List String
unfolding all_ap_names text_less
ap_interfaces (i ∷ is) status = i ∷ is
ap_interfaces [] none = []
ap_interfaces [] (some radios) = stable_sort text_less (all_ap_names radios)

module _ (strings : Strings) where
  unfoldable pub client_of : String → String × Station → Client
  client_of band (mac, s) = record {
    mac = strings.to_lower mac;
    ap = "";
    signal = s.signal;
    band = band;
    tx_rate = s.tx_rate;
    rx_rate = s.rx_rate;
    ip = "";
    hostname = "";
  }

  -- An interface that does not answer is skipped.
  unfoldable pub clients_on : (String → Option GetClientsResponse) → List String → List Client
  unfolding client_of band_from_freq
  clients_on get_clients [] = []
  clients_on get_clients (iface ∷ rest) =
      let later = clients_on get_clients rest in
      elim (get_clients iface) [
        | none ↦ later
        | some resp ↦ map (client_of (band_from_freq resp.freq)) resp.clients ++ later
      ]

  -- `Clients`
  unfoldable pub clients :
      List String → Option (List (List Vif)) → (String → Option GetClientsResponse) → List Client
  unfolding clients_on ap_interfaces
  clients interfaces status get_clients = clients_on get_clients (ap_interfaces interfaces status)

  -- The map that is written in the order of the clients: the last of a MAC counts.
  unfoldable pub signal_in : List Client → String → Option ℤ
  signal_in [] mac = none
  signal_in (c ∷ cs) mac = elim (signal_in cs mac) [
    | some signal ↦ some signal
    | none ↦ if c.mac == mac then some c.signal else none
  ]

  unfoldable pub signal_by_mac :
      List String
      → Option (List (List Vif))
      → (String → Option GetClientsResponse)
      → String
      → Option ℤ
  unfolding clients signal_in
  signal_by_mac interfaces status get_clients = signal_in (clients interfaces status get_clients)
