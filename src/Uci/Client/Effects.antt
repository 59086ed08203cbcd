-- ===== src/Uci/Client/Effects.antt =====
-- What the client's calls change and leave.
use omm.Prelude.{
  String, ◌≡◌, refl, ◌∙◌, sym, Bool, true, false, Bool-cases, Option-cases, inl, inr, some, List,
  [], ◌∷◌, ◌++◌, ◌==◌, ◌&&◌, ◌||◌, not, is_empty, arith, eq_iff, eq_refl,
}
use omm.Uci.{Value, scalar, items, Values, value_of, members, has_item, is_same, is_at}
use omm.Uci.Rpcd.{Rpcd}
use omm.Uci.Client.{
  as_scalars, without_item, both, get_list, set_list, add_list_item, del_list_item, reload,
}

pub value_of-as_scalars :
    (o v : String) (vs : Values)
    → value_of o vs ≡ some v
    → value_of o (as_scalars vs) ≡ some (scalar v)
unfolding as_scalars
value_of-as_scalars o v [] h = cc
value_of-as_scalars o v ((k, x) ∷ vs) h = ground (arith, value_of-as_scalars o v vs, h)

has_item_end :
    (w v : String) (vs : List String) → has_item w (vs ++ v ∷ []) ≡ ((v == w) || has_item w vs)
unfolding has_item
has_item_end w v [] = refl
has_item_end w v (x ∷ vs) = ground (arith, has_item_end w v vs)

has_item-without_item :
    (w v : String) (vs : List String)
    → has_item w (without_item v vs) ≡ (not (v == w) && has_item w vs)
unfolding has_item without_item
has_item-without_item w v [] = ground arith
has_item-without_item w v (x ∷ vs) =
    ground (arith, has_item-without_item w v vs, eq_iff x v, eq_iff x w, eq_iff v w)

has_item_self :
    (w v : String) (vs : List String)
    → has_item v vs ≡ true
    → has_item w vs ≡ ((v == w) || has_item w vs)
has_item_self w v vs h = elim (Bool-cases (v == w)) [
  | inl e ↦ let same : v ≡ w = (eq_iff v w).0 e in rw e (rw same at h)
  | inr e ↦ rw e refl
]

has_item_absent :
    (w v : String) (vs : List String)
    → has_item v vs ≡ false
    → has_item w vs ≡ (not (v == w) && has_item w vs)
has_item_absent w v vs h = elim (Bool-cases (v == w)) [
  | inl e ↦ let same : v ≡ w = (eq_iff v w).0 e in rw e (rw same at h)
  | inr e ↦ rw e refl
]

has_item_empty : (w : String) (vs : List String) → is_empty vs ≡ true → has_item w vs ≡ false
unfolding has_item
has_item_empty w [] h = refl
has_item_empty w (v ∷ vs) h = cc

module _ (rpcd : Rpcd) where
  get_list-members :
      (pkg sec opt : String) (c : rpcd.Config) (l : List String)
      → get_list rpcd pkg sec opt c ≡ some l
      → l ≡ members (rpcd.value pkg sec opt c)
  unfolding get_list
  get_list-members pkg sec opt c l h = elim (Option-cases (rpcd.get pkg sec opt c)) [
    | inl e ↦ cc (rw (e, get_list) at h)
    | inr (o, e) ↦
        let read = rpcd.get_value pkg sec opt c o e in
        let same : some (members o) ≡ some l = rw (e, get_list) at h in ground (arith, same, read)
  ]

  pub set_one-other :
      (pkg sec opt : String) (v : Value) (c : rpcd.Config) (p s o : String)
      → is_at p s o pkg sec opt ≡ false
      → rpcd.value p s o (rpcd.set pkg sec ((opt, v) ∷ []) c).1 ≡ rpcd.value p s o c
  set_one-other pkg sec opt v c p s o h = elim (Bool-cases (is_same p s pkg sec)) [
    | inl e ↦
        let ne : (o == opt) ≡ false = ground (arith, h, e) in
        rpcd.set_unnamed pkg sec ((opt, v) ∷ []) c p s o
          (ground (arith, ne, eq_iff o opt, eq_iff opt o))
    | inr e ↦ rpcd.set_other pkg sec ((opt, v) ∷ []) c p s o e
  ]

  set_list-members :
      (pkg sec opt : String) (vs : List String) (c : rpcd.Config) (w : String)
      → (set_list rpcd pkg sec opt vs c).0 ≡ true
      → has_item w (members (rpcd.value pkg sec opt (set_list rpcd pkg sec opt vs c).1))
        ≡ has_item w vs
  unfolding set_list has_item
  set_list-members pkg sec opt vs c w h = elim (Bool-cases (is_empty vs)) [
    | inl e ↦
        rw e (rw (rpcd.delete_option_gone pkg sec opt c (rw e at h)) (sym (has_item_empty w vs e)))
    | inr e ↦ rw e (
        rw
          (rpcd.set_value pkg sec ((opt, items vs) ∷ []) c opt (items vs) (rw e at h)
            (rw (eq_refl opt) refl))
          refl)
  ]

  set_list-other :
      (pkg sec opt : String) (vs : List String) (c : rpcd.Config) (p s o : String)
      → is_at p s o pkg sec opt ≡ false
      → rpcd.value p s o (set_list rpcd pkg sec opt vs c).1 ≡ rpcd.value p s o c
  unfolding set_list
  set_list-other pkg sec opt vs c p s o h = elim (Bool-cases (is_empty vs)) [
    | inl e ↦ rw e (rpcd.delete_option_other pkg sec opt c p s o h)
    | inr e ↦ rw e (set_one-other pkg sec opt (items vs) c p s o h)
  ]

  set_list-sections :
      (pkg sec opt : String) (vs : List String) (c : rpcd.Config) (p s : String)
      → rpcd.has_section p s (set_list rpcd pkg sec opt vs c).1 ≡ rpcd.has_section p s c
  unfolding set_list
  set_list-sections pkg sec opt vs c p s = elim (Bool-cases (is_empty vs)) [
    | inl e ↦ rw e (rpcd.delete_option_sections pkg sec opt c p s)
    | inr e ↦ rw e (rpcd.set_sections pkg sec _ c p s)
  ]

  -- What holds after each of the three ways that a change of a list can end.
  add_list_item-ends {ℓ} :
      (P : Bool × rpcd.Config → Type ℓ) (pkg sec opt v : String) (c : rpcd.Config)
      → P (false, c)
      → ((l : List String)
          → l ≡ members (rpcd.value pkg sec opt c)
          → has_item v l ≡ true
          → P (true, c))
      → ((l : List String)
          → l ≡ members (rpcd.value pkg sec opt c)
          → P (set_list rpcd pkg sec opt (l ++ v ∷ []) c))
      → P (add_list_item rpcd pkg sec opt v c)
  unfolding add_list_item
  add_list_item-ends P pkg sec opt v c bad same new =
      elim (Option-cases (get_list rpcd pkg sec opt c)) [
        | inl e ↦ rw (e, add_list_item) bad
        | inr (l, e) ↦
            let read = get_list-members pkg sec opt c l e in
            elim (Bool-cases (has_item v l)) [
              | inl h ↦ rw (e, add_list_item, h) (same l read h)
              | inr h ↦ rw (e, add_list_item, h) (new l read)
            ]
      ]

  del_list_item-ends {ℓ} :
      (P : Bool × rpcd.Config → Type ℓ) (pkg sec opt v : String) (c : rpcd.Config)
      → P (false, c)
      → ((l : List String)
          → l ≡ members (rpcd.value pkg sec opt c)
          → has_item v l ≡ false
          → P (true, c))
      → ((l : List String)
          → l ≡ members (rpcd.value pkg sec opt c)
          → P (set_list rpcd pkg sec opt (without_item v l) c))
      → P (del_list_item rpcd pkg sec opt v c)
  unfolding del_list_item
  del_list_item-ends P pkg sec opt v c bad same new =
      elim (Option-cases (get_list rpcd pkg sec opt c)) [
        | inl e ↦ rw (e, del_list_item) bad
        | inr (l, e) ↦
            let read = get_list-members pkg sec opt c l e in
            elim (Bool-cases (has_item v l)) [
              | inl h ↦ rw (e, del_list_item, h) (new l read)
              | inr h ↦ rw (e, del_list_item, h) (same l read h)
            ]
      ]

  -- The members of the list after a change.
  abbrev items_after : (pkg sec opt w : String) → rpcd.Config → Bool
  items_after pkg sec opt w c = has_item w (members (rpcd.value pkg sec opt c))

  pub add_list_item-members :
      (pkg sec opt v : String) (c : rpcd.Config) (w : String)
      → (add_list_item rpcd pkg sec opt v c).0 ≡ true
      → items_after pkg sec opt w (add_list_item rpcd pkg sec opt v c).1
        ≡ ((v == w) || items_after pkg sec opt w c)
  add_list_item-members pkg sec opt v c w =
      add_list_item-ends
        (λ r.
          r.0 ≡ true → items_after pkg sec opt w r.1 ≡ ((v == w) || items_after pkg sec opt w c))
        pkg sec opt v c (λ h. cc) (λ l read has _. rw (← read) (has_item_self w v l has))
        (λ l read ok.
          rw (← read) (set_list-members pkg sec opt (l ++ v ∷ []) c w ok ∙ has_item_end w v l))

  pub del_list_item-members :
      (pkg sec opt v : String) (c : rpcd.Config) (w : String)
      → (del_list_item rpcd pkg sec opt v c).0 ≡ true
      → items_after pkg sec opt w (del_list_item rpcd pkg sec opt v c).1
        ≡ (not (v == w) && items_after pkg sec opt w c)
  del_list_item-members pkg sec opt v c w =
      del_list_item-ends
        (λ r.
          r.0 ≡ true
          → items_after pkg sec opt w r.1 ≡ (not (v == w) && items_after pkg sec opt w c))
        pkg sec opt v c (λ h. cc) (λ l read absent _. rw (← read) (has_item_absent w v l absent))
        (λ l read ok.
          rw (← read)
            (set_list-members pkg sec opt (without_item v l) c w ok ∙ has_item-without_item w v l))

  pub add_list_item-other :
      (pkg sec opt v : String) (c : rpcd.Config) (p s o : String)
      → is_at p s o pkg sec opt ≡ false
      → rpcd.value p s o (add_list_item rpcd pkg sec opt v c).1 ≡ rpcd.value p s o c
  add_list_item-other pkg sec opt v c p s o h =
      add_list_item-ends (λ r. rpcd.value p s o r.1 ≡ rpcd.value p s o c) pkg sec opt v c refl
        (λ l read has. refl) (λ l read. set_list-other pkg sec opt (l ++ v ∷ []) c p s o h)

  pub del_list_item-other :
      (pkg sec opt v : String) (c : rpcd.Config) (p s o : String)
      → is_at p s o pkg sec opt ≡ false
      → rpcd.value p s o (del_list_item rpcd pkg sec opt v c).1 ≡ rpcd.value p s o c
  del_list_item-other pkg sec opt v c p s o h =
      del_list_item-ends (λ r. rpcd.value p s o r.1 ≡ rpcd.value p s o c) pkg sec opt v c refl
        (λ l read has. refl) (λ l read. set_list-other pkg sec opt (without_item v l) c p s o h)

  pub add_list_item-sections :
      (pkg sec opt v : String) (c : rpcd.Config) (p s : String)
      → rpcd.has_section p s (add_list_item rpcd pkg sec opt v c).1 ≡ rpcd.has_section p s c
  add_list_item-sections pkg sec opt v c p s =
      add_list_item-ends (λ r. rpcd.has_section p s r.1 ≡ rpcd.has_section p s c) pkg sec opt v c
        refl (λ l read has. refl) (λ l read. set_list-sections pkg sec opt (l ++ v ∷ []) c p s)

  pub del_list_item-sections :
      (pkg sec opt v : String) (c : rpcd.Config) (p s : String)
      → rpcd.has_section p s (del_list_item rpcd pkg sec opt v c).1 ≡ rpcd.has_section p s c
  del_list_item-sections pkg sec opt v c p s =
      del_list_item-ends (λ r. rpcd.has_section p s r.1 ≡ rpcd.has_section p s c) pkg sec opt v c
        refl (λ l read has. refl) (λ l read. set_list-sections pkg sec opt (without_item v l) c p s)

  -- What two calls in a row keep, both keep.
  pub both-kept {ℓ} :
      {A : Type ℓ} (view : rpcd.Config → A) (a b : rpcd.Config → Bool × rpcd.Config)
      (c : rpcd.Config)
      → view (a c).1 ≡ view c
      → ((c' : rpcd.Config) → view (b c').1 ≡ view c')
      → view (both rpcd a b c).1 ≡ view c
  both-kept view a b c ha hb = elim (Bool-cases (a c).0) [
    | inl e ↦ rw e (hb (a c).1 ∙ ha)
    | inr e ↦ rw e ha
  ]

  pub reload-kept {ℓ} :
      {A : Type ℓ} (view : rpcd.Config → A) (c : rpcd.Config)
      → ((object method : String) (c' : rpcd.Config)
          → view (rpcd.notify object method c').1 ≡ view c')
      → view (reload rpcd c).1 ≡ view c
  unfolding reload
  reload-kept view c h =
      both-kept view (rpcd.notify "network" "reload")
        (both rpcd (rpcd.notify "network.wireless" "reconf")
          (λ c'. (true, (rpcd.notify "service" "event" c').1)))
        c (h "network" "reload" c)
        (λ c'.
          both-kept view (rpcd.notify "network.wireless" "reconf")
            (λ c''. (true, (rpcd.notify "service" "event" c'').1)) c'
            (h "network.wireless" "reconf" c') (λ c''. h "service" "event" c''))

  -- Both calls of a row that succeeds did.
  pub both-ok :
      (a b : rpcd.Config → Bool × rpcd.Config) (c : rpcd.Config)
      → (both rpcd a b c).0 ≡ true
      → ((a c).0 ≡ true) × ((b (a c).1).0 ≡ true) × (both rpcd a b c ≡ b (a c).1)
  both-ok a b c h = elim (Bool-cases (a c).0) [
    | inl e ↦ (e, rw e at h, rw e refl)
    | inr e ↦ cc (rw e at h)
  ]
