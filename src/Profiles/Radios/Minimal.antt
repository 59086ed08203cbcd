-- ===== src/Profiles/Radios/Minimal.antt =====
-- The radio that is found for a band is the lowest of those of the band.
use omm.Prelude.{
  String, ◌≡◌, ◌≢◌, refl, ◌∙◌, Bool, true, false, Bool-cases, Option-cases, inl, inr, Option, none,
  some, [], ◌∷◌, ◌==◌, ◌&&◌, ◌||◌, not, any_by, All, arith, eq_iff,
}
use omm.Prelude.TextOrder.{text_less, text_less_asym, text_less_trans, text_less_total}
use omm.Uci.{Values, value_of}
use omm.Profiles.Radios.{
  Sections, option_of, hosts_band, lower_name, scan_radios, lowest_radio_for_band,
}
use omm.Profiles.Radios.Lowest.{IsNamed}

-- The option is set to that value.
abbrev pub is_value : String → Option String → Bool
is_value v none = false
is_value v (some w) = w == v

-- The section is a radio of that band.
abbrev pub is_radio_of : String → String × Values → Bool
is_radio_of band e =
    is_value "wifi-device" (value_of ".type" e.1) && is_value band (value_of "band" e.1)

-- A radio of the band has that name, and none has a lower one.
abbrev pub is_lowest : Sections → String → String → Bool
is_lowest sections band radio =
    any_by (λ e. is_radio_of band e && (e.0 == radio)) sections
    && not (any_by (λ e. is_radio_of band e && text_less e.0 radio) sections)

option_of-is_value :
    (key v : String) (opts : Values)
    → v ≢ ""
    → (option_of key opts == v) ≡ is_value v (value_of key opts)
unfolding option_of
option_of-is_value key v opts n = elim (Option-cases (value_of key opts)) [
  | inl e ↦ rw (e, option_of) (ground (arith, n, eq_iff "" v, eq_iff v ""))
  | inr (w, e) ↦ rw (e, option_of) refl
]

hosts_band-is_radio_of :
    (band : String) (e : String × Values) → band ≢ "" → hosts_band band e.1 ≡ is_radio_of band e
unfolding hosts_band
hosts_band-is_radio_of band e n =
    rw (option_of-is_value ".type" "wifi-device" e.1 (λ y. cc ((eq_iff "wifi-device" "").1 y)))
      (rw (option_of-is_value "band" band e.1 n) refl)

-- Of what is found so far and a name the lower one is kept.
abbrev IsKept : String → String → Type 0
IsKept found radio = (not (found == "") && text_less found radio) ≡ false

lower_name_lem :
    (name found radio : String)
    → (name == "") ≡ false
    → IsKept (lower_name name found) radio
    → (text_less name radio ≡ false) × IsKept found radio
unfolding lower_name
lower_name_lem name found radio n h = (
  ground (
    arith,
    n,
    h,
    text_less_total found radio,
    text_less_trans name radio found,
    eq_iff found radio,
  ),
  ground (arith, n, h, text_less_trans name found radio),
)

lower_name_from :
    (name found radio : String) (later : Bool)
    → ((radio == lower_name name found) || later) ≡ true
    → ((radio == found) || ((name == radio) || later)) ≡ true
unfolding lower_name
lower_name_from name found radio later h = ground (arith, h, eq_iff radio name, eq_iff name radio)

-- What a radio that is found is, if it is found after another.
scan_lem :
    (band found radio : String) (sections : Sections)
    → band ≢ ""
    → All IsNamed sections
    → scan_radios band found sections ≡ radio
    → (((radio == found)
          || any_by (λ (e : String × Values). is_radio_of band e && (e.0 == radio)) sections)
        ≡ true)
      × (any_by (λ (e : String × Values). is_radio_of band e && text_less e.0 radio) sections
          ≡ false)
      × IsKept found radio
unfolding scan_radios any_by
scan_lem band found radio [] n h r =
    (ground (arith, eq_iff radio found, r), refl, ground (arith, text_less_asym found found, r))
scan_lem band found radio (e ∷ rest) n h r = elim (Bool-cases (is_radio_of band e)) [
  | inr d ↦
      let not_host : hosts_band band e.1 ≡ false = hosts_band-is_radio_of band e n ∙ d in
      rw d (scan_lem band found radio rest n h.1 (rw (not_host, scan_radios) at r))
  | inl d ↦
      let host : hosts_band band e.1 ≡ true = hosts_band-is_radio_of band e n ∙ d in
      let found' = lower_name e.0 found in
      let (from, low, kept) = scan_lem band found' radio rest n h.1 (rw (host, scan_radios) at r) in
      let (least, before) = lower_name_lem e.0 found radio h.0 kept in
      rw (d, least) (lower_name_from e.0 found radio _ from, low, before)
]

-- The radio found for a band is the lowest of those of the band.
pub lowest_radio-is_lowest :
    (sections : Sections) (band : String)
    → band ≢ ""
    → All IsNamed sections
    → (lowest_radio_for_band sections band == "") ≡ false
    → is_lowest sections band (lowest_radio_for_band sections band) ≡ true
unfolding lowest_radio_for_band
lowest_radio-is_lowest sections band n h r =
    let (from, low, kept) = scan_lem band "" (scan_radios band "" sections) sections n h refl in
    ground (arith, r, from, low)

scan_named :
    (band found : String) (sections : Sections)
    → (found == "") ≡ false
    → All IsNamed sections
    → (scan_radios band found sections == "") ≡ false
unfolding scan_radios lower_name
scan_named band found [] f h = f
scan_named band found (e ∷ rest) f h = elim (Bool-cases (hosts_band band e.1)) [
  | inr d ↦ rw (d, scan_radios) (scan_named band found rest f h.1)
  | inl d ↦
      rw (d, scan_radios) (scan_named band (lower_name e.0 found) rest (ground (arith, f, h.0)) h.1)
]

-- If none is found, then no section is a radio of the band.
pub no_radio-is_radio_of :
    (sections : Sections) (band : String)
    → band ≢ ""
    → All IsNamed sections
    → (lowest_radio_for_band sections band == "") ≡ true
    → any_by (is_radio_of band) sections ≡ false
unfolding lowest_radio_for_band scan_radios any_by lower_name
no_radio-is_radio_of [] band n h r = refl
no_radio-is_radio_of (e ∷ rest) band n h r = elim (Bool-cases (is_radio_of band e)) [
  | inr d ↦
      let not_host : hosts_band band e.1 ≡ false = hosts_band-is_radio_of band e n ∙ d in
      rw d (no_radio-is_radio_of rest band n h.1 (rw (not_host, scan_radios) at r))
  | inl d ↦
      let host : hosts_band band e.1 ≡ true = hosts_band-is_radio_of band e n ∙ d in
      let found = scan_named band e.0 rest h.0 h.1 in
      absurd (ground (arith, found, rw (host, scan_radios) at r))
]
