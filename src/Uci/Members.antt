-- ===== src/Uci/Members.antt =====
-- How actions change whether a value is a member of a list option.
use omm.Prelude.{String, ◌≡◌, refl, Bool, true, not, ◌&&◌, ◌||◌, ◌==◌, List, [], ◌∷◌, All, arith}
use omm.Uci.{Uci, members, has_item}
use omm.Uci.Action.{Action, seq, seq-ok, each}

-- What `g` and then, for each value of a list from the first on, `f` make of a Boolean.
abbrev pub folded {ℓ} : {A : Type ℓ} → (A → Bool → Bool) → List A → Bool → Bool
folded f [] b = b
folded f (x ∷ xs) b = folded f xs (f x b)

pub folded_removed :
    (w : String) (xs : List String) (b : Bool)
    → folded (λ x b'. not (x == w) && b') xs b ≡ (not (has_item w xs) && b)
unfolding has_item
folded_removed w [] b = refl
folded_removed w (x ∷ xs) b = ground (arith, folded_removed w xs (not (x == w) && b))

pub folded_added :
    (w : String) (xs : List String) (b : Bool)
    → folded (λ x b'. (x == w) || (not (x == w) && b')) xs b ≡ (has_item w xs || b)
unfolding has_item
folded_added w [] b = refl
folded_added w (x ∷ xs) b = ground (arith, folded_added w xs ((x == w) || (not (x == w) && b)))

module _ (uci : Uci) (pkg sec opt w : String) where
  -- The value is in the list.
  abbrev pub is_member : uci.Config → Bool
  is_member c = has_item w (members (uci.value pkg sec opt c))

  -- Where the action succeeds, it turns the membership by `f`.
  abbrev pub Turns : Action uci → (Bool → Bool) → Type 0
  Turns act f = (c : uci.Config) → (act c).0 ≡ true → is_member (act c).1 ≡ f (is_member c)

  pub seq-Turns :
      (a b : Action uci) (f g : Bool → Bool)
      → Turns a f
      → Turns b g
      → Turns (seq uci a b) (λ x. g (f x))
  seq-Turns a b f g ha hb c ok =
      let (first, second, e) = seq-ok uci a b c ok in rw e (rw (hb (a c).1 second, ha c first) refl)

  pub each-Turns {ℓ} :
      {A : Type ℓ} (act : A → Action uci) (f : A → Bool → Bool) (xs : List A)
      → All (λ x. Turns (act x) (f x)) xs
      → Turns (each uci act xs) (folded f xs)
  unfolding each
  each-Turns act f [] h c ok = refl
  each-Turns act f (x ∷ xs) h c ok =
      seq-Turns (act x) (each uci act xs) (f x) (folded f xs) h.0 (each-Turns act f xs h.1) c ok

  pub add-Turns : (v : String) → Turns (uci.add_list_item pkg sec opt v) (λ b. (v == w) || b)
  add-Turns v c ok = uci.add_list_item_members pkg sec opt v c w ok

  pub del-Turns : (v : String) → Turns (uci.del_list_item pkg sec opt v) (λ b. not (v == w) && b)
  del-Turns v c ok = uci.del_list_item_members pkg sec opt v c w ok

  -- An action that leaves the option leaves its members.
  pub kept-Turns :
      (act : Action uci)
      → ((c : uci.Config) → uci.value pkg sec opt (act c).1 ≡ uci.value pkg sec opt c)
      → Turns act (λ b. b)
  kept-Turns act h c ok = rw (h c) refl
