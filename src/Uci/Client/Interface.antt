-- ===== src/Uci/Client/Interface.antt =====
-- The client is a `Uci`: it keeps the promises that its callers use.
use omm.Prelude.{String, ◌≡◌, refl, ◌∙◌, true, false, some, [], ◌∷◌, eq_refl}
use omm.Uci.{Uci, Values, scalar, value_of, is_same, is_at}
use omm.Uci.Rpcd.{Rpcd}
use omm.Uci.Client.{
  get, sections, set, set_section, add_list_item, del_list_item, reload, as_scalars,
}
use omm.Uci.Client.Effects.{
  value_of-as_scalars, set_one-other, add_list_item-members, del_list_item-members,
  add_list_item-other, del_list_item-other, add_list_item-sections, del_list_item-sections,
  both-kept, both-ok, reload-kept,
}

module _ (rpcd : Rpcd) where
  pub set_section_has :
      (pkg sec type : String) (values : Values) (c : rpcd.Config)
      → (set_section rpcd pkg sec type values c).0 ≡ true
      → rpcd.has_section pkg sec (set_section rpcd pkg sec type values c).1 ≡ true
  unfolding set_section
  set_section_has pkg sec type values c ok =
      let (first, _, e) =
        both-ok rpcd (rpcd.add pkg type sec) (rpcd.set pkg sec (as_scalars values)) c ok in
      rw e (
        rpcd.set_sections pkg sec (as_scalars values) (rpcd.add pkg type sec c).1 pkg sec
        ∙ rpcd.add_has pkg type sec c first)

  pub set_section_option :
      (pkg sec type : String) (values : Values) (c : rpcd.Config) (o v : String)
      → (set_section rpcd pkg sec type values c).0 ≡ true
      → value_of o values ≡ some v
      → rpcd.value pkg sec o (set_section rpcd pkg sec type values c).1 ≡ some (scalar v)
  unfolding set_section
  set_section_option pkg sec type values c o v ok at =
      let (_, last, e) =
        both-ok rpcd (rpcd.add pkg type sec) (rpcd.set pkg sec (as_scalars values)) c ok in
      rw e (
        rpcd.set_value pkg sec (as_scalars values) (rpcd.add pkg type sec c).1 o (scalar v) last
          (value_of-as_scalars o v values at))

  pub set_section_other :
      (pkg sec type : String) (values : Values) (c : rpcd.Config) (p s o : String)
      → is_same p s pkg sec ≡ false
      → rpcd.value p s o (set_section rpcd pkg sec type values c).1 ≡ rpcd.value p s o c
  unfolding set_section
  set_section_other pkg sec type values c p s o h =
      both-kept rpcd (rpcd.value p s o) (rpcd.add pkg type sec)
        (rpcd.set pkg sec (as_scalars values)) c (rpcd.add_values pkg type sec c p s o)
        (λ c'. rpcd.set_other pkg sec (as_scalars values) c' p s o h)

  pub set_section_sections :
      (pkg sec type : String) (values : Values) (c : rpcd.Config) (p s : String)
      → is_same p s pkg sec ≡ false
      → rpcd.has_section p s (set_section rpcd pkg sec type values c).1 ≡ rpcd.has_section p s c
  unfolding set_section
  set_section_sections pkg sec type values c p s h =
      both-kept rpcd (rpcd.has_section p s) (rpcd.add pkg type sec)
        (rpcd.set pkg sec (as_scalars values)) c (rpcd.add_sections pkg type sec c p s h)
        (λ c'. rpcd.set_sections pkg sec (as_scalars values) c' p s)

  pub set_option :
      (pkg sec opt v : String) (c : rpcd.Config)
      → (set rpcd pkg sec opt v c).0 ≡ true
      → rpcd.value pkg sec opt (set rpcd pkg sec opt v c).1 ≡ some (scalar v)
  unfolding set
  set_option pkg sec opt v c ok =
      rpcd.set_value pkg sec ((opt, scalar v) ∷ []) c opt (scalar v) ok (rw (eq_refl opt) refl)

  pub set_other :
      (pkg sec opt v : String) (c : rpcd.Config) (p s o : String)
      → is_at p s o pkg sec opt ≡ false
      → rpcd.value p s o (set rpcd pkg sec opt v c).1 ≡ rpcd.value p s o c
  unfolding set
  set_other pkg sec opt v c p s o h = set_one-other rpcd pkg sec opt (scalar v) c p s o h

  pub set_sections :
      (pkg sec opt v : String) (c : rpcd.Config) (p s : String)
      → rpcd.has_section p s (set rpcd pkg sec opt v c).1 ≡ rpcd.has_section p s c
  unfolding set
  set_sections pkg sec opt v c p s = rpcd.set_sections pkg sec ((opt, scalar v) ∷ []) c p s

  pub reload_option :
      (c : rpcd.Config) (p s o : String) → rpcd.value p s o (reload rpcd c).1 ≡ rpcd.value p s o c
  reload_option c p s o =
      reload-kept rpcd (rpcd.value p s o) c
        (λ object method c'. rpcd.notify_values object method c' p s o)

  pub reload_sections :
      (c : rpcd.Config) (p s : String)
      → rpcd.has_section p s (reload rpcd c).1 ≡ rpcd.has_section p s c
  reload_sections c p s =
      reload-kept rpcd (rpcd.has_section p s) c
        (λ object method c'. rpcd.notify_sections object method c' p s)

  abbrev pub uci_client : Uci
  uci_client = record {
    Config = rpcd.Config;
    get = get rpcd;
    sections = sections rpcd;
    set = set rpcd;
    set_section = set_section rpcd;
    delete = rpcd.delete;
    add_list_item = add_list_item rpcd;
    del_list_item = del_list_item rpcd;
    commit = rpcd.commit;
    reload = reload rpcd;
    has_section = rpcd.has_section;
    value = rpcd.value;
    set_option = set_option;
    set_section_has = set_section_has;
    set_section_option = set_section_option;
    delete_gone = rpcd.delete_gone;
    delete_absent = rpcd.delete_absent;
    add_list_item_members = add_list_item-members rpcd;
    del_list_item_members = del_list_item-members rpcd;
    set_other = set_other;
    set_sections = set_sections;
    set_section_other = set_section_other;
    set_section_sections = set_section_sections;
    delete_other = rpcd.delete_other;
    delete_sections = rpcd.delete_sections;
    add_list_item_other = add_list_item-other rpcd;
    add_list_item_sections = add_list_item-sections rpcd;
    del_list_item_other = del_list_item-other rpcd;
    del_list_item_sections = del_list_item-sections rpcd;
    commit_option = rpcd.commit_values;
    commit_sections = rpcd.commit_sections;
    reload_option = reload_option;
    reload_sections = reload_sections;
  }
