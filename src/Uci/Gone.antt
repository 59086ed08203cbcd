-- ===== src/Uci/Gone.antt =====
-- Sections that are gone, and the actions after which they stay away.
use omm.Prelude.{
  String, ◌≡◌, ◌∙◌, Bool, true, false, ◌==◌, List, [], ◌∷◌, All, Bool-cases, inl, inr, eq_iff, sym,
  arith,
}
use mathlib.Core.Path.{subst}
use omm.Uci.{Uci}
use omm.Uci.Action.{Action, IsStable, seq, seq-ok, each}

module _ (uci : Uci) (pkg : String) where
  abbrev pub IsGone : String → uci.Config → Type 0
  IsGone s c = uci.has_section pkg s c ≡ false

  -- Where the action succeeds, a section that is gone stays away.
  abbrev pub StaysGone : String → Action uci → Type 0
  StaysGone s act = (c : uci.Config) → (act c).0 ≡ true → IsGone s c → IsGone s (act c).1

  pub seq-StaysGone :
      (s : String) (a b : Action uci) → StaysGone s a → StaysGone s b → StaysGone s (seq uci a b)
  seq-StaysGone s a b ha hb c ok gone =
      let (first, second, e) = seq-ok uci a b c ok in rw e (hb (a c).1 second (ha c first gone))

  pub stable-StaysGone : (s : String) (a : Action uci) → IsStable uci pkg s a → StaysGone s a
  stable-StaysGone s a h c ok gone = h c ∙ gone

  delete-IsGone :
      (s sec : String) (c : uci.Config)
      → (uci.delete pkg sec c).0 ≡ true
      → (s == sec) ≡ true
      → IsGone s (uci.delete pkg sec c).1
  delete-IsGone s sec c ok e =
      let same : s ≡ sec = (eq_iff s sec).0 e in rw same (uci.delete_gone pkg sec c ok)

  pub delete-StaysGone : (s sec : String) → StaysGone s (uci.delete pkg sec)
  delete-StaysGone s sec c ok gone = elim (Bool-cases (s == sec)) [
    | inl e ↦ delete-IsGone s sec c ok e
    | inr e ↦ uci.delete_sections pkg sec c pkg s (ground (arith, e)) ∙ gone
  ]

  pub each-StaysGone {ℓ} :
      {A : Type ℓ} (s : String) (act : A → Action uci) (xs : List A)
      → ((x : A) → StaysGone s (act x))
      → StaysGone s (each uci act xs)
  unfolding each
  each-StaysGone s act [] h c ok gone = gone
  each-StaysGone s act (x ∷ xs) h c ok gone =
      seq-StaysGone s (act x) (each uci act xs) (h x) (each-StaysGone s act xs h) c ok gone

  pub deletes-IsGone :
      (names : List String) (c : uci.Config)
      → (each uci (uci.delete pkg) names c).0 ≡ true
      → All (λ s. IsGone s (each uci (uci.delete pkg) names c).1) names
  unfolding each
  deletes-IsGone [] c ok = tt
  deletes-IsGone (x ∷ xs) c ok =
      let (first, rest, e) = seq-ok uci (uci.delete pkg x) (each uci (uci.delete pkg) xs) c ok in
      let c1 = (uci.delete pkg x c).1 in
      let later = deletes-IsGone xs c1 rest in
      let mine =
        each-StaysGone x (uci.delete pkg) xs (delete-StaysGone x) c1 rest
          (uci.delete_gone pkg x c first) in
      subst (λ (r : Bool × uci.Config). All (λ s. IsGone s r.1) (x ∷ xs)) (sym e) (mine, later)
