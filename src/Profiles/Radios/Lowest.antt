-- ===== src/Profiles/Radios/Lowest.antt =====
-- The radio for a band does not depend on the order of the sections.
use mathlib.Core.List.{Perm, Permᴰ}
use mathlib.Core.Logic.{∥∥₁_elim}
use mathlib.Core.Path.{subst}
use omm.Prelude.{
  String, ◌≡◌, refl, ◌∙◌, sym, true, false, List, ◌∷◌, ◌==◌, All, if◌then◌else◌, arith, eq_iff,
}
use omm.Prelude.TextOrder.{text_less, text_less_asym, text_less_trans, text_less_total}
use omm.Uci.{Values}
use omm.Profiles.Radios.{Sections, hosts_band, lower_name, scan_radios, lowest_radio_for_band}

lower_name_comm :
    (a b f : String)
    → (a == "") ≡ false
    → (b == "") ≡ false
    → lower_name b (lower_name a f) ≡ lower_name a (lower_name b f)
unfolding lower_name text_less
lower_name_comm a b f ha hb = ground (
  arith,
  ha,
  hb,
  text_less_total a b,
  text_less_total b a,
  text_less_asym a b,
  text_less_asym b a,
  text_less_trans a b f,
  text_less_trans b a f,
  text_less_asym a f,
  text_less_asym b f,
  eq_iff f "",
)

-- The section has a name.
abbrev pub IsNamed : String × Values → Type 0
IsNamed e = (e.0 == "") ≡ false

scan_one : String → String × Values → String → String
scan_one band e found = if hosts_band band e.1 then lower_name e.0 found else found

scan_radios_one :
    (band found : String) (e : String × Values) (rest : Sections)
    → scan_radios band found (e ∷ rest) ≡ scan_radios band (scan_one band e found) rest
unfolding scan_one scan_radios
scan_radios_one band found e rest = refl

scan_one_comm :
    (band found : String) (a b : String × Values)
    → IsNamed a
    → IsNamed b
    → scan_one band b (scan_one band a found) ≡ scan_one band a (scan_one band b found)
unfolding scan_one
scan_one_comm band found a b ha hb = ground (arith, lower_name_comm a.0 b.0 found ha hb)

All-perm {ℓ κ} : {A : Type ℓ} (P : A → Type κ) {xs ys : List A} → Permᴰ xs ys → All P xs → All P ys
All-perm P Permᴰ.nil h = h
All-perm P (Permᴰ.cons e p) h = (subst P e h.0, All-perm P p h.1)
All-perm P (Permᴰ.swap e f) h = (subst P f h.1.0, (subst P e h.0, h.1.1))
All-perm P (Permᴰ.trans p q) h = All-perm P q (All-perm P p h)

scan_perm :
    (band found : String) {xs ys : Sections}
    → Permᴰ xs ys
    → All IsNamed xs
    → scan_radios band found xs ≡ scan_radios band found ys
scan_perm band found Permᴰ.nil h = refl
scan_perm band found (Permᴰ.cons {a} {b} {l₁ = xs} {l₂ = ys} e p) h =
    scan_radios_one band found a xs
    ∙ scan_perm band (scan_one band a found) p h.1
    ∙ rw e (sym (scan_radios_one band found b ys))
scan_perm band found (Permᴰ.swap {a} {b} {a'} {b'} {l} e f) h =
    scan_radios_one band found a (b ∷ l)
    ∙ scan_radios_one band (scan_one band a found) b l
    ∙ rw (scan_one_comm band found a b h.0 h.1.0) (rw (e, f) refl)
    ∙ sym (scan_radios_one band (scan_one band a' found) b' l)
    ∙ sym (scan_radios_one band found a' (b' ∷ l))
scan_perm band found (Permᴰ.trans p q) h =
    scan_perm band found p h ∙ scan_perm band found q (All-perm IsNamed p h)

-- The radio found for a band is the same in every order of the sections, if each has a name.
pub lowest_radio_perm :
    (xs ys : Sections) (band : String)
    → All IsNamed xs
    → Perm xs ys
    → lowest_radio_for_band xs band ≡ lowest_radio_for_band ys band
unfolding lowest_radio_for_band
lowest_radio_perm xs ys band h p =
    let a = lowest_radio_for_band xs band in
    let b = lowest_radio_for_band ys band in
    let same : (a == b) ≡ true =
      ∥∥₁_elim p (hlevel) (λ d. (eq_iff a b).1 (scan_perm band "" d h)) in
    (eq_iff a b).0 same
