-- ===== src/Uci/Client.antt =====
-- internal/uci/client.go: the client, whose calls are rows of calls to rpcd. `uci_client` shows that
-- it is a `Uci`.
pub mod Effects
pub mod Interface
pub mod Guarantees
use omm.Prelude.{
  String, ◌≡◌, refl, ◌∙◌, sym, ap, Bool, true, false, Bool-cases, Option-cases, inl, inr, Option,
  none, some, List, [], ◌∷◌, ◌++◌, map, ◌==◌, ◌&&◌, ◌||◌, not, if◌then◌else◌, is_empty, arith,
  eq_iff, eq_refl,
}
use omm.Uci.{Uci, Value, scalar, items, Values, value_of, members, has_item, is_same, is_at}
use omm.Uci.Rpcd.{Rpcd}

-- The values as `set` sends them.
unfoldable pub as_scalars : Values → List (String × Value)
as_scalars [] = []
as_scalars ((k, v) ∷ vs) = (k, scalar v) ∷ as_scalars vs

-- The options of a section that have one value.
unfoldable pub scalars_of : List (String × Value) → Values
scalars_of [] = []
scalars_of ((k, scalar v) ∷ vs) = (k, v) ∷ scalars_of vs
scalars_of ((k, items l) ∷ vs) = scalars_of vs

unfoldable pub without_item : String → List String → List String
without_item v [] = []
without_item v (w ∷ ws) = let rest = without_item v ws in if w == v then rest else w ∷ rest

module _ (rpcd : Rpcd) where
  abbrev Call : Type 0
  Call = rpcd.Config → Bool × rpcd.Config

  -- The second call is made if the first succeeds.
  abbrev pub both : Call → Call → Call
  both a b c = let (ok, c') = a c in if ok then b c' else (false, c')

  unfoldable pub get : (pkg sec opt : String) → rpcd.Config → Option String
  get pkg sec opt c = elim (rpcd.get pkg sec opt c) [ some (some (scalar v)) ↦ some v | _ ↦ none ]

  unfoldable pub sections : String → rpcd.Config → Option (List (String × Values))
  unfolding scalars_of
  sections pkg c = elim (rpcd.get_package pkg c) [
    | none ↦ none
    | some l ↦ some (map (λ (e : String × List (String × Value)). (e.0, scalars_of e.1)) l)
  ]

  unfoldable pub set : (pkg sec opt v : String) → Call
  set pkg sec opt v = rpcd.set pkg sec ((opt, scalar v) ∷ [])

  unfoldable pub set_section : (pkg sec type : String) → Values → Call
  unfolding as_scalars
  set_section pkg sec type values =
      both (rpcd.add pkg type sec) (rpcd.set pkg sec (as_scalars values))

  -- The list, unless the reading fails.
  unfoldable pub get_list : (pkg sec opt : String) → rpcd.Config → Option (List String)
  get_list pkg sec opt c = elim (rpcd.get pkg sec opt c) [ none ↦ none | some o ↦ some (members o) ]

  -- An empty list is the option deleted.
  unfoldable pub set_list : (pkg sec opt : String) → List String → Call
  set_list pkg sec opt vs =
      if is_empty vs
      then rpcd.delete_option pkg sec opt
      else rpcd.set pkg sec ((opt, items vs) ∷ [])

  unfoldable pub add_list_item : (pkg sec opt v : String) → Call
  unfolding get_list set_list
  add_list_item pkg sec opt v c = elim (get_list pkg sec opt c) [
    | none ↦ (false, c)
    | some l ↦ if has_item v l then (true, c) else set_list pkg sec opt (l ++ v ∷ []) c
  ]

  unfoldable pub del_list_item : (pkg sec opt v : String) → Call
  unfolding get_list set_list without_item
  del_list_item pkg sec opt v c = elim (get_list pkg sec opt c) [
    | none ↦ (false, c)
    | some l ↦ if has_item v l then set_list pkg sec opt (without_item v l) c else (true, c)
  ]

  -- An error of the DHCP event is only logged.
  unfoldable pub reload : Call
  reload = both (rpcd.notify "network" "reload") (
      both (rpcd.notify "network.wireless" "reconf")
        (λ c. (true, (rpcd.notify "service" "event" c).1)))
