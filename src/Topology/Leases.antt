-- ===== src/Topology/Leases.antt =====
-- internal/topology/leases.go: the DHCP leases of dnsmasq, and the clients labelled with them.
use omm.Prelude.{String, Option, none, some, List, [], ◌∷◌, map, ◌==◌, if◌then◌else◌, is_empty}
use omm.Topology.{Client, Graph}
use omm.Strings.{Strings}

pub record Lease : Type 0 where
  pub ip : String
  pub hostname : String

-- The map of the leases by MAC: the latest entry of a key counts, and it is the first.
abbrev pub Leases : Type 0
Leases = List (String × Lease)

unfoldable pub lease_of : String → Leases → Option Lease
lease_of mac [] = none
lease_of mac ((k, l) ∷ ls) = if k == mac then some l else lease_of mac ls

abbrev pub lease_path : String
lease_path = "/tmp/dhcp.leases"

-- A "*" is no hostname.
abbrev hostname_of : String → String
hostname_of name = if name == "*" then "" else name

module _ (strings : Strings) where
  -- A line has the expiry, the MAC, the IP and the hostname, or is skipped.
  unfoldable pub add_lease : List String → Leases → Leases
  add_lease (expiry ∷ mac ∷ ip ∷ name ∷ more) ls =
      if strings.to_lower mac == ""
      then ls
      else (strings.to_lower mac, record { ip = ip; hostname = hostname_of name }) ∷ ls
  add_lease _ ls = ls

  unfoldable pub add_leases : List String → Leases → Leases
  unfolding add_lease
  add_leases [] ls = ls
  add_leases (line ∷ rest) ls = add_leases rest (add_lease (strings.fields line) ls)

  -- `read` gives the bytes of a file, or none on an error.
  unfoldable pub dnsmasq_leases : String → (String → Option String) → Leases
  unfolding add_leases
  dnsmasq_leases path read = elim (read (if path == "" then lease_path else path)) [
    | none ↦ []
    | some content ↦ add_leases (strings.lines content) []
  ]

  abbrev filled : String → String → String
  filled value lease = if value == "" then lease else value

  unfoldable pub label_client : Leases → Client → Client
  label_client ls c = elim (lease_of (strings.to_lower c.mac) ls) [
    | none ↦ c
    | some l ↦ record c { ip = filled c.ip l.ip; hostname = filled c.hostname l.hostname }
  ]

  unfoldable pub label_clients : Graph → Leases → Graph
  unfolding label_client
  label_clients g ls =
      if is_empty ls then g else record g { clients = map (label_client ls) g.clients }
