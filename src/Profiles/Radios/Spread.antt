-- ===== src/Profiles/Radios/Spread.antt =====
-- The access points of a profile stand on different radios.
use Prim.Native.String.{◌++◌}
use omm.Prelude.{
  String, ◌≡◌, ◌≢◌, refl, true, false, Bool-cases, Option-cases, ◌⊎◌, inl, inr, List, [], ◌∷◌,
  ◌++◌ as append, ◌==◌, ◌||◌, map, All, All-append, if◌then◌else◌, arith, eq_refl, eq_iff, is_empty,
}
use omm.Models.{Profile}
use omm.Uci.{Uci, has_item}
use omm.Profiles.{Config, ap_section}
use omm.Profiles.Radios.{
  Sections, ApTarget, lowest_radio_for_band, more_targets, resolve_ap_targets,
}

-- No item stands twice.
abbrev pub IsDistinct : List String → Type 0
IsDistinct [] = Unit
IsDistinct (x ∷ xs) = (has_item x xs ≡ false) × IsDistinct xs

abbrev pub radios_of : List ApTarget → List String
radios_of targets = map (λ (t : ApTarget). t.radio) targets

has_item_last :
    (w : String) (ts : List ApTarget) (t : ApTarget)
    → (w == t.radio) ≡ false
    → has_item w (radios_of ts) ≡ false
    → has_item w (radios_of (append ts (t ∷ []))) ≡ false
unfolding has_item
has_item_last w [] t ne h = ground (arith, ne, eq_iff t.radio w, eq_iff w t.radio)
has_item_last w (s ∷ ts) t ne h = ground (arith, h, has_item_last w ts t ne)

pub IsDistinct-last :
    (ts : List ApTarget) (t : ApTarget)
    → has_item t.radio (radios_of ts) ≡ false
    → IsDistinct (radios_of ts)
    → IsDistinct (radios_of (append ts (t ∷ [])))
unfolding has_item
IsDistinct-last [] t h d = (refl, tt)
IsDistinct-last (s ∷ ts) t h d = (
  has_item_last s.radio ts t (ground (arith, h, eq_iff s.radio t.radio, eq_iff t.radio s.radio))
      d.0,
  IsDistinct-last ts t (ground (arith, h)) d.1,
)

member_first : (w : String) (xs : List String) → has_item w (w ∷ xs) ≡ true
unfolding has_item
member_first w xs = rw (eq_refl w) refl

member_later : (w x : String) (xs : List String) → has_item w xs ≡ true → has_item w (x ∷ xs) ≡ true
unfolding has_item
member_later w x xs h = ground (arith, h)

module _ (normalize : String → String) (sections : Sections) (ap_radio : String) where
  pub grow :
      (P : ApTarget → Type 0) (bands : List String) (ts : List ApTarget)
      → ((b : String)
          → has_item (normalize b) (map normalize bands) ≡ true
          → normalize b ≢ ""
          → (lowest_radio_for_band sections (normalize b) == "") ≡ false
          → P (record {
            section = ap_section ++ "_" ++ normalize b;
            radio = lowest_radio_for_band sections (normalize b);
          }))
      → IsDistinct (radios_of ts)
      → All P ts
      → IsDistinct (radios_of (more_targets normalize sections bands ts))
        × All P (more_targets normalize sections bands ts)
  unfolding more_targets
  grow P [] ts new d h = (d, h)
  grow P (b ∷ bands) ts new d h =
      let band : String = normalize b in
      let radio : String = lowest_radio_for_band sections band in
      let later : (b' : String)
          → has_item (normalize b') (map normalize bands) ≡ true
          → normalize b' ≢ ""
          → (lowest_radio_for_band sections (normalize b') == "") ≡ false
          → P (record {
            section = ap_section ++ "_" ++ normalize b';
            radio = lowest_radio_for_band sections (normalize b');
          }) =
        λ b' m. new b' (member_later (normalize b') band (map normalize bands) m) in
      elim (Bool-cases ((band == "") || (radio == "") || has_item radio (radios_of ts))) [
        | inl e ↦ rw e (grow P bands ts later d h)
        | inr e ↦
            let free : has_item radio (radios_of ts) ≡ false = ground (arith, e) in
            let named : band ≢ "" = λ y. ground (arith, e, (eq_iff band "").1 y) in
            let found : (radio == "") ≡ false = ground (arith, e) in
            rw e (
              grow P bands _ later (IsDistinct-last ts _ free d) (
                All-append P ts _ h
                  (new b (member_first band (map normalize bands)) named found, tt)))
      ]

-- The section is the primary one or is named for a band.
abbrev pub IsPlaced : ApTarget → Type 0
IsPlaced t = (t.section ≡ ap_section) ⊎ ((band : String) × (t.section ≡ ap_section ++ "_" ++ band))

pub resolve_ap_targets-IsPlaced :
    (uci : Uci) (normalize : String → String) (cfg : Config) (profile : Profile) (ap_radio : String)
    (c : uci.Config)
    → All IsPlaced (resolve_ap_targets uci normalize cfg profile ap_radio c)
unfolding resolve_ap_targets has_item
resolve_ap_targets-IsPlaced uci normalize cfg profile ap_radio c =
    elim (Option-cases (uci.sections "wireless" c)) [
      | inl e ↦ rw (e, resolve_ap_targets) (inl refl, tt)
      | inr (sections, e) ↦
          let bands : List String =
            if is_empty profile.ap_bands then cfg.mesh_band ∷ [] else profile.ap_bands in
          rw (e, resolve_ap_targets)
            (grow normalize sections ap_radio IsPlaced bands
              (record { section = ap_section; radio = ap_radio } ∷ [])
              (λ b m n f. inr (normalize b, refl)) (refl, tt) (inl refl, tt)).1
    ]
