-- ===== src/Uci/Action.antt =====
-- Calls in a row, each made if those before it succeeded, and what they leave alone.
use omm.Prelude.{
  String, ◌≡◌, refl, ◌∙◌, Bool, true, false, Bool-cases, inl, inr, if◌then◌else◌, List, [], ◌∷◌,
  All,
}
use omm.Uci.{Uci}

module _ (uci : Uci) where
  -- Work on the configuration that returns false on an error.
  abbrev pub Action : Type 0
  Action = uci.Config → Bool × uci.Config

  -- `if err := ...; err != nil { return ... }`
  unfoldable pub seq : Action → Action → Action
  seq first rest c = let (ok, c') = first c in if ok then rest c' else (false, c')

  -- The action leaves the option.
  abbrev pub IsKept : String → String → String → Action → Type 0
  IsKept p s o act = (c : uci.Config) → uci.value p s o (act c).1 ≡ uci.value p s o c

  -- The action neither makes nor removes the section.
  abbrev pub IsStable : String → String → Action → Type 0
  IsStable p s act = (c : uci.Config) → uci.has_section p s (act c).1 ≡ uci.has_section p s c

  pub seq-IsKept :
      (p s o : String) (a b : Action) → IsKept p s o a → IsKept p s o b → IsKept p s o (seq a b)
  unfolding seq
  seq-IsKept p s o a b ha hb c = elim (Bool-cases (a c).0) [
    | inl e ↦ rw e (hb (a c).1 ∙ ha c)
    | inr e ↦ rw e (ha c)
  ]

  pub seq-IsStable :
      (p s : String) (a b : Action) → IsStable p s a → IsStable p s b → IsStable p s (seq a b)
  unfolding seq
  seq-IsStable p s a b ha hb c = elim (Bool-cases (a c).0) [
    | inl e ↦ rw e (hb (a c).1 ∙ ha c)
    | inr e ↦ rw e (ha c)
  ]

  -- A row that succeeds was made of steps that did.
  pub seq-ok :
      (a b : Action) (c : uci.Config)
      → (seq a b c).0 ≡ true
      → ((a c).0 ≡ true) × ((b (a c).1).0 ≡ true) × (seq a b c ≡ b (a c).1)
  unfolding seq
  seq-ok a b c h = elim (Bool-cases (a c).0) [
    | inl e ↦ (e, rw e at h, rw e refl)
    | inr e ↦ cc (rw e at h)
  ]

  -- Nothing to do.
  abbrev pub done : Action
  done c = (true, c)

  -- `for _, x := range xs { if err := ...; err != nil { return err } }`
  unfoldable pub each {ℓ} : {A : Type ℓ} → (A → Action) → List A → Action
  unfolding seq
  each act [] = done
  each act (x ∷ xs) = seq (act x) (each act xs)

  pub each-IsKept {ℓ} :
      {A : Type ℓ} (p s o : String) (act : A → Action) (xs : List A)
      → All (λ x. IsKept p s o (act x)) xs
      → IsKept p s o (each act xs)
  unfolding each
  each-IsKept p s o act [] h c = refl
  each-IsKept p s o act (x ∷ xs) h c =
      seq-IsKept p s o (act x) (each act xs) h.0 (each-IsKept p s o act xs h.1) c
