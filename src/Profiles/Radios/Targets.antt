-- ===== src/Profiles/Radios/Targets.antt =====
-- The access points of a profile: one for each radio.
use Prim.Native.String.{◌++◌}
use omm.Prelude.{
  String, Bool, ◌≡◌, ◌≢◌, ◌∙◌, refl, true, Bool-cases, ◌⊎◌, inl, inr, List, [], ◌∷◌, ◌++◌ as append,
  ◌==◌, ◌||◌, ◌&&◌, not, any_by, map, All, if◌then◌else◌, arith, eq_refl, eq_iff, is_empty, some,
}
use omm.Models.{Profile}
use omm.Uci.{Uci, has_item}
use omm.Profiles.{Config, ap_section}
use omm.Profiles.Radios.Lowest.{IsNamed}
use omm.Profiles.Radios.Minimal.{
  is_radio_of, is_lowest, lowest_radio-is_lowest, no_radio-is_radio_of,
}
use omm.Profiles.Radios.{
  Sections, ApTarget, lowest_radio_for_band, more_targets, resolve_ap_targets,
}
use omm.Profiles.Radios.Spread.{IsDistinct, radios_of, grow}

-- The access point is the primary's or that of a band, on the radio of the band.
abbrev pub IsTarget : (String → String) → Sections → List String → String → ApTarget → Type 0
IsTarget normalize sections bands ap_radio t =
    ((t.section ≡ ap_section) × (t.radio ≡ ap_radio))
    ⊎ ((band : String) × (has_item band (map normalize bands) ≡ true)
        × (band ≢ "")
        × (t.section ≡ ap_section ++ "_" ++ band)
        × (is_lowest sections band t.radio ≡ true))

-- The band has no name or no radio, or its lowest radio has an access point.
abbrev pub IsServed : (String → String) → Sections → List ApTarget → String → Type 0
IsServed normalize sections ts b =
    ((normalize b == "")
      || not (any_by (is_radio_of (normalize b)) sections)
      || any_by (λ (t : ApTarget). is_lowest sections (normalize b) t.radio) ts)
    ≡ true

any_by_radio :
    (q : String → Bool) (radio : String) (ts : List ApTarget)
    → has_item radio (radios_of ts) ≡ true
    → q radio ≡ true
    → any_by (λ (t : ApTarget). q t.radio) ts ≡ true
unfolding any_by has_item
any_by_radio q radio [] h k = cc h
any_by_radio q radio (t ∷ ts) h k = elim (Bool-cases (radio == t.radio)) [
  | inl e ↦ let at : q t.radio ≡ true = rw (← (eq_iff radio t.radio).0 e) k in rw at refl
  | inr e ↦
      let later : has_item radio (radios_of ts) ≡ true =
        ground (arith, h, e, eq_iff radio t.radio, eq_iff t.radio radio) in
      ground (arith, any_by_radio q radio ts later k)
]

any_by_last :
    (p : ApTarget → Bool) (ts : List ApTarget) (t : ApTarget)
    → any_by p (append ts (t ∷ [])) ≡ (any_by p ts || p t)
unfolding any_by
any_by_last p [] t = ground arith
any_by_last p (s ∷ ts) t = ground (arith, any_by_last p ts t)

module _ (normalize : String → String) (sections : Sections) (ap_radio : String) where
  more_keeps :
      (p : ApTarget → Bool) (bands : List String) (ts : List ApTarget)
      → any_by p ts ≡ true
      → any_by p (more_targets normalize sections bands ts) ≡ true
  unfolding more_targets
  more_keeps p [] ts h = h
  more_keeps p (b ∷ bands) ts h =
      let band : String = normalize b in
      let radio : String = lowest_radio_for_band sections band in
      elim (Bool-cases ((band == "") || (radio == "") || has_item radio (radios_of ts))) [
        | inl e ↦ rw e (more_keeps p bands ts h)
        | inr e ↦ rw e (more_keeps p bands _ (any_by_last p ts _ ∙ rw h refl))
      ]

  -- The access points after one more band.
  abbrev after : String → List ApTarget → List ApTarget
  after b ts =
      let band = normalize b in
      let radio = lowest_radio_for_band sections band in
      if (band == "") || (radio == "") || has_item radio (radios_of ts)
      then ts
      else append ts (record { section = ap_section ++ "_" ++ band; radio = radio } ∷ [])

  after-IsServed :
      (b : String) (ts : List ApTarget)
      → All IsNamed sections
      → IsServed normalize sections (after b ts) b
  after-IsServed b ts named =
      let band : String = normalize b in
      let radio : String = lowest_radio_for_band sections band in
      let p : ApTarget → Bool = λ (t : ApTarget). is_lowest sections band t.radio in
      elim (Bool-cases (band == "")) [
        | inl e ↦ rw e refl
        | inr e ↦
            let n : band ≢ "" = λ y. ground (arith, e, (eq_iff band "").1 y) in
            elim (Bool-cases (radio == "")) [
              | inl f ↦ rw (e, no_radio-is_radio_of sections band n named f) refl
              | inr f ↦
                  let lowest = lowest_radio-is_lowest sections band n named f in
                  elim (Bool-cases (has_item radio (radios_of ts))) [
                    | inl g ↦
                        let mine = any_by_radio (is_lowest sections band) radio ts g lowest in
                        rw (e, f, g) (ground (arith, mine))
                    | inr g ↦
                        let t : ApTarget = record {
                          section = ap_section ++ "_" ++ band;
                          radio = radio;
                        } in
                        let mine : any_by p (append ts (t ∷ [])) ≡ true =
                          any_by_last p ts t ∙ rw lowest (ground arith) in
                        rw (e, f, g) (ground (arith, mine))
                  ]
            ]
      ]

  more-IsServed :
      (b : String) (bands : List String) (ts : List ApTarget)
      → IsServed normalize sections ts b
      → IsServed normalize sections (more_targets normalize sections bands ts) b
  more-IsServed b bands ts h =
      let p : ApTarget → Bool = λ (t : ApTarget). is_lowest sections (normalize b) t.radio in
      elim (Bool-cases (any_by p ts)) [
        | inl e ↦ ground (arith, more_keeps p bands ts e)
        | inr e ↦ ground (arith, h, e)
      ]

  more_serves :
      (bands : List String) (ts : List ApTarget)
      → All IsNamed sections
      → All (IsServed normalize sections (more_targets normalize sections bands ts)) bands
  unfolding more_targets
  more_serves [] ts named = tt
  more_serves (b ∷ bands) ts named = (
    more-IsServed b bands (after b ts) (after-IsServed b ts named),
    more_serves bands (after b ts) named,
  )

  more_targets_lem :
      (bands : List String)
      → All IsNamed sections
      → IsDistinct (
          radios_of (
            more_targets normalize sections bands
              (record { section = ap_section; radio = ap_radio } ∷ [])))
        × All (IsTarget normalize sections bands ap_radio) (
            more_targets normalize sections bands
              (record { section = ap_section; radio = ap_radio } ∷ []))
  unfolding has_item
  more_targets_lem bands named =
      grow normalize sections ap_radio (IsTarget normalize sections bands ap_radio) bands
        (record { section = ap_section; radio = ap_radio } ∷ [])
        (λ b m n f.
          inr (normalize b, m, n, refl, lowest_radio-is_lowest sections (normalize b) n named f))
        (refl, tt) (inl (refl, refl), tt)

-- If the wireless sections can be read and each has a name, the access points of a profile are
-- on different radios; each is the primary one or that of a band of the profile, on the radio
-- of the band with the lowest name; the primary one is there, and so is one on the lowest
-- radio of each band of the profile that has a name and a radio.
pub resolve_ap_targets_lem :
    (uci : Uci) (normalize : String → String) (cfg : Config) (profile : Profile) (ap_radio : String)
    (c : uci.Config) (sections : Sections)
    → uci.sections "wireless" c ≡ some sections
    → All IsNamed sections
    → let bands = if is_empty profile.ap_bands then cfg.mesh_band ∷ [] else profile.ap_bands in
      let targets = resolve_ap_targets uci normalize cfg profile ap_radio c in
      IsDistinct (radios_of targets)
      × All (IsTarget normalize sections bands ap_radio) targets
      × (any_by (λ (t : ApTarget). (t.section == ap_section) && (t.radio == ap_radio)) targets
          ≡ true)
      × All (IsServed normalize sections targets) bands
unfolding resolve_ap_targets any_by
resolve_ap_targets_lem uci normalize cfg profile ap_radio c sections e named =
    let bands : List String =
      if is_empty profile.ap_bands then cfg.mesh_band ∷ [] else profile.ap_bands in
    let first : ApTarget = record { section = ap_section; radio = ap_radio } in
    let is_first : ApTarget → Bool =
      λ (t : ApTarget). (t.section == ap_section) && (t.radio == ap_radio) in
    let (apart, targets) = more_targets_lem normalize sections ap_radio bands named in
    let started : any_by is_first (first ∷ []) ≡ true = rw (eq_refl ap_radio) refl in
    rw (e, resolve_ap_targets)
      (
        apart,
        targets,
        more_keeps normalize sections ap_radio is_first bands (first ∷ []) started,
        more_serves normalize sections ap_radio bands (first ∷ []) named,
      )
