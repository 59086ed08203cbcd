-- ===== src/Backhaul/Uplink/Gateway.antt =====
-- The rows that the gateway of the default route and its MAC come from.
use Prim.Native.String.{len, slice}
use omm.Prelude.{
  String, ℕ, true, ◌≡◌, ◌≢◌, refl, sym, Bool-cases, Option-cases, inl, inr, some, List, [], ◌∷◌,
  ◌==◌, ◌||◌, any_by, eqb, not, arith, eq_iff, eq_refl,
}
use omm.Strings.{Strings}
use omm.Backhaul.Uplink.{Addresses, le_hex_to_ip, gateway_of, first_gateway, mac_of, first_mac}

module _ (strings : Strings) (addresses : Addresses) where
  -- The digits are an address with its last octet first.
  abbrev pub IsAddress : String → String → Type 0
  IsAddress digits ip =
      (len digits ≡ 8)
      × (b0 : ℕ) × (b1 : ℕ) × (b2 : ℕ) × (b3 : ℕ) × (addresses.parse_octet (slice digits 0 2)
          ≡ some b0)
      × (addresses.parse_octet (slice digits 2 4) ≡ some b1)
      × (addresses.parse_octet (slice digits 4 6) ≡ some b2)
      × (addresses.parse_octet (slice digits 6 8) ≡ some b3)
      × (ip ≡ addresses.show_ip b3 b2 b1 b0)

  -- The row is a default route, whose gateway is the IP.
  abbrev pub IsDefaultRoute : String → List String → Type 0
  IsDefaultRoute ip (iface ∷ destination ∷ gateway ∷ more) =
      (destination ≡ "00000000") × (gateway ≢ "00000000") × IsAddress gateway ip
  IsDefaultRoute ip _ = ⊥

  -- The row gives the IP that MAC, which is known.
  abbrev pub IsNeighbour : String → String → List String → Type 0
  IsNeighbour ip mac (f ∷ type ∷ flags ∷ address ∷ more) =
      (f ≡ ip) × (address ≡ mac) × (mac ≢ "00:00:00:00:00:00")
  IsNeighbour ip mac _ = ⊥

  -- One of the lines has such fields.
  abbrev pub HasRow : (List String → Type 0) → List String → Type 0
  HasRow P ls = (line : String) × (any_by (λ l. l == line) ls ≡ true) × P (strings.fields line)

  row_first :
      (P : List String → Type 0) (line : String) (ls : List String)
      → P (strings.fields line)
      → HasRow P (line ∷ ls)
  unfolding any_by
  row_first P line ls h = (line, rw (eq_refl line) refl, h)

  row_later :
      (P : List String → Type 0) (line : String) (ls : List String)
      → HasRow P ls
      → HasRow P (line ∷ ls)
  unfolding any_by
  row_later P line ls (l, m, h) = (l, ground (arith, m), h)

  le_hex_to_ip-IsAddress :
      (h ip : String) → le_hex_to_ip strings addresses h ≡ ip → ip ≢ "" → IsAddress h ip
  unfolding le_hex_to_ip
  le_hex_to_ip-IsAddress h ip e n = elim (Bool-cases (eqb (len h) 8)) [
    | inr s ↦ absurd (n (sym (rw s at e)))
    | inl s ↦ elim (Option-cases (addresses.parse_octet (slice h 0 2))) [
      | inl p ↦ absurd (n (sym (rw (s, p) at e)))
      | inr (b0, p) ↦ elim (Option-cases (addresses.parse_octet (slice h 2 4))) [
        | inl q ↦ absurd (n (sym (rw (s, p, q) at e)))
        | inr (b1, q) ↦ elim (Option-cases (addresses.parse_octet (slice h 4 6))) [
          | inl r ↦ absurd (n (sym (rw (s, p, q, r) at e)))
          | inr (b2, r) ↦ elim (Option-cases (addresses.parse_octet (slice h 6 8))) [
            | inl t ↦ absurd (n (sym (rw (s, p, q, r, t) at e)))
            | inr (b3, t) ↦
                (ground (arith, s), b0, b1, b2, b3, p, q, r, t, sym (rw (s, p, q, r, t) at e))
          ]
        ]
      ]
    ]
  ]

  gateway_of-IsDefaultRoute :
      (ip : String) (fs : List String)
      → gateway_of strings addresses fs ≡ ip
      → ip ≢ ""
      → IsDefaultRoute ip fs
  unfolding gateway_of
  gateway_of-IsDefaultRoute ip [] h n = n (sym h)
  gateway_of-IsDefaultRoute ip (i ∷ []) h n = n (sym h)
  gateway_of-IsDefaultRoute ip (i ∷ d ∷ []) h n = n (sym h)
  gateway_of-IsDefaultRoute ip (i ∷ d ∷ g ∷ more) h n =
      elim (Bool-cases (not (d == "00000000") || (g == "00000000"))) [
        | inl e ↦ absurd (n (sym (rw e at h)))
        | inr e ↦ (
          (eq_iff d "00000000").0 (ground (arith, e)),
          λ z. ground (arith, e, z, eq_iff g "00000000"),
          le_hex_to_ip-IsAddress g ip (rw e at h) n,
        )
      ]

  pub first_gateway-HasRow :
      (ip : String) (ls : List String)
      → first_gateway strings addresses ls ≡ ip
      → ip ≢ ""
      → HasRow (IsDefaultRoute ip) ls
  unfolding first_gateway
  first_gateway-HasRow ip [] h n = absurd (n (sym h))
  first_gateway-HasRow ip (line ∷ rest) h n =
      elim (Bool-cases (gateway_of strings addresses (strings.fields line) == "")) [
        | inl e ↦
            row_later (IsDefaultRoute ip) line rest (first_gateway-HasRow ip rest (rw e at h) n)
        | inr e ↦
            row_first (IsDefaultRoute ip) line rest
              (gateway_of-IsDefaultRoute ip (strings.fields line) (rw e at h) n)
      ]

  mac_of-IsNeighbour :
      (ip mac : String) (fs : List String)
      → mac_of strings addresses ip fs ≡ some mac
      → mac ≢ "00:00:00:00:00:00"
      → IsNeighbour ip mac fs
  unfolding mac_of
  mac_of-IsNeighbour ip mac [] h n = cc h
  mac_of-IsNeighbour ip mac (f ∷ []) h n = cc h
  mac_of-IsNeighbour ip mac (f ∷ t ∷ []) h n = cc h
  mac_of-IsNeighbour ip mac (f ∷ t ∷ g ∷ []) h n = cc h
  mac_of-IsNeighbour ip mac (f ∷ t ∷ g ∷ a ∷ more) h n = elim (Bool-cases (f == ip)) [
    | inl e ↦
        let same : some a ≡ some mac = rw e at h in ((eq_iff f ip).0 e, ground (arith, same), n)
    | inr e ↦ cc (rw e at h)
  ]

  pub first_mac-HasRow :
      (ip mac : String) (ls : List String)
      → first_mac strings addresses ip ls ≡ mac
      → mac ≢ ""
      → HasRow (IsNeighbour ip mac) ls
  unfolding first_mac
  first_mac-HasRow ip mac [] h n = absurd (n (sym h))
  first_mac-HasRow ip mac (line ∷ rest) h n =
      elim (Option-cases (mac_of strings addresses ip (strings.fields line))) [
        | inl e ↦
            row_later (IsNeighbour ip mac) line rest
              (first_mac-HasRow ip mac rest (rw (e, first_mac) at h) n)
        | inr (a, e) ↦ elim (Bool-cases (a == "00:00:00:00:00:00")) [
          | inl z ↦ absurd (n (sym (rw (e, first_mac, z) at h)))
          | inr z ↦
              let same : a ≡ mac = rw (e, first_mac, z) at h in
              row_first (IsNeighbour ip mac) line rest (
                mac_of-IsNeighbour ip mac (strings.fields line) (rw same at e)
                  (λ y. ground (arith, z, y, same, eq_iff a "00:00:00:00:00:00")))
        ]
      ]
