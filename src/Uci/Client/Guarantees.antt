-- ===== src/Uci/Client/Guarantees.antt =====
-- What AddListItem and DelListItem of the client do together.
use omm.Prelude.{
  String, List, Bool, Bool-cases, inl, inr, ◌≡◌, refl, ◌∙◌, true, false, ◌==◌, ◌&&◌, ◌||◌, not,
  eq_iff,
}
use omm.Uci.{members, has_item}
use omm.Uci.Rpcd.{Rpcd}
use omm.Uci.Client.{add_list_item, del_list_item}
use omm.Uci.Client.Effects.{add_list_item-members, del_list_item-members}

edit_undone :
    (v w : String) (l : List String) (b : Bool)
    → has_item v l ≡ false
    → b ≡ ((v == w) || has_item w l)
    → (not (v == w) && b) ≡ has_item w l
edit_undone v w l b absent e = elim (Bool-cases (v == w)) [
  | inl same ↦
      let at : v ≡ w = (eq_iff v w).0 same in
      let gone : has_item w l ≡ false = rw (← at) absent in rw (same, gone) refl
  | inr ne ↦ rw ne (rw ne at e)
]

module _ (rpcd : Rpcd) where
  -- A successful AddListItem leaves the list with the value and its earlier members, and a
  -- successful DelListItem leaves it with its earlier members but the value, also where the
  -- option was one value or unset.
  pub list_changes :
      (pkg sec opt v : String) (c d : rpcd.Config) (w : String)
      → (add_list_item rpcd pkg sec opt v c).0 ≡ true
      → (del_list_item rpcd pkg sec opt v d).0 ≡ true
      → (has_item w (members (rpcd.value pkg sec opt (add_list_item rpcd pkg sec opt v c).1))
          ≡ ((v == w) || has_item w (members (rpcd.value pkg sec opt c))))
        × (has_item w (members (rpcd.value pkg sec opt (del_list_item rpcd pkg sec opt v d).1))
            ≡ (not (v == w) && has_item w (members (rpcd.value pkg sec opt d))))
  list_changes pkg sec opt v c d w added deleted = (
    add_list_item-members rpcd pkg sec opt v c w added,
    del_list_item-members rpcd pkg sec opt v d w deleted,
  )

  pub add_then_delete :
      (pkg sec opt v : String) (c : rpcd.Config) (w : String)
      → has_item v (members (rpcd.value pkg sec opt c)) ≡ false
      → (add_list_item rpcd pkg sec opt v c).0 ≡ true
      → (del_list_item rpcd pkg sec opt v (add_list_item rpcd pkg sec opt v c).1).0 ≡ true
      → has_item w (
          members (
            rpcd.value pkg sec opt
              (del_list_item rpcd pkg sec opt v (add_list_item rpcd pkg sec opt v c).1).1))
        ≡ has_item w (members (rpcd.value pkg sec opt c))
  add_then_delete pkg sec opt v c w absent added deleted =
      let c1 = (add_list_item rpcd pkg sec opt v c).1 in
      let one = add_list_item-members rpcd pkg sec opt v c w added in
      let two = del_list_item-members rpcd pkg sec opt v c1 w deleted in
      two
      ∙ edit_undone v w (members (rpcd.value pkg sec opt c))
          (has_item w (members (rpcd.value pkg sec opt c1))) absent one
