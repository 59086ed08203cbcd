-- ===== src/Prelude/Sort.antt =====
-- A stable sort by a Boolean order, the meaning of Go's `sort.SliceStable`.
use omm.Prelude.Tests.{if◌then◌else◌, Bool-cases}
use omm.Prelude.Lists.{any_by, All, All-map_of, All-append}
use mathlib.Core.Path.{◌≡◌, refl, ap}
use mathlib.Core.Logic.{inl, inr}
use mathlib.Core.Bool.{Bool, true, false, ◌||◌}
use mathlib.Core.Option.{some}
use mathlib.Core.List.{List, [], ◌∷◌, ◌++◌, Perm, head?}
use mathlib.Core.List.Perm
use native.Mathlib.Omega.{arith}

module _ {ℓ} {A : Type ℓ} (less : A → A → Bool) where
  unfoldable pub insert_by : A → List A → List A
  insert_by x [] = x ∷ []
  insert_by x (y ∷ ys) = if less y x then y ∷ insert_by x ys else x ∷ y ∷ ys

  unfoldable pub stable_sort : List A → List A
  unfolding insert_by
  stable_sort [] = []
  stable_sort (x ∷ xs) = insert_by x (stable_sort xs)

  -- No later item comes before an earlier one.
  abbrev pub IsSorted : List A → Type ℓ
  IsSorted [] = Unit
  IsSorted (x ∷ xs) = All (λ y. less y x ≡ false) xs × IsSorted xs

  -- A strict weak order, which Go asks of `less`.
  pub record IsWeakOrder : Type ℓ where
    pub asym : (a b : A) → less a b ≡ true → less b a ≡ false
    pub not_less_trans : (a b c : A) → less b a ≡ false → less c b ≡ false → less c a ≡ false

-- The sort keeps the items, and orders them.
module _ {ℓ} {A : Type ℓ} (less : A → A → Bool) where
  insert_by-perm : (x : A) (ys : List A) → Perm (insert_by less x ys) (x ∷ ys)
  unfolding insert_by
  insert_by-perm x [] = Perm.refl _
  insert_by-perm x (y ∷ ys) = elim (Bool-cases (less y x)) [
    | inl e ↦ rw e (Perm.trans (Perm.cons y (insert_by-perm x ys)) (Perm.swap x y ys))
    | inr e ↦ rw e (Perm.refl _)
  ]

  pub stable_sort-perm : (xs : List A) → Perm (stable_sort less xs) xs
  unfolding stable_sort
  stable_sort-perm [] = Perm.refl _
  stable_sort-perm (x ∷ xs) =
      Perm.trans (insert_by-perm x (stable_sort less xs)) (Perm.cons x (stable_sort-perm xs))

  insert_by-All {κ} :
      (P : A → Type κ) (x : A) (ys : List A) → P x → All P ys → All P (insert_by less x ys)
  unfolding insert_by
  insert_by-All P x [] px h = (px, tt)
  insert_by-All P x (y ∷ ys) px h = elim (Bool-cases (less y x)) [
    | inl e ↦ rw e (h.0, insert_by-All P x ys px h.1)
    | inr e ↦ rw e (px, h)
  ]

  pub stable_sort-All {κ} : (P : A → Type κ) (xs : List A) → All P xs → All P (stable_sort less xs)
  unfolding stable_sort
  stable_sort-All P [] h = tt
  stable_sort-All P (x ∷ xs) h =
      insert_by-All P x (stable_sort less xs) h.0 (stable_sort-All P xs h.1)

  pub any_by-insert_by :
      (p : A → Bool) (x : A) (ys : List A) → any_by p (insert_by less x ys) ≡ (p x || any_by p ys)
  unfolding any_by insert_by
  any_by-insert_by p x [] = refl
  any_by-insert_by p x (y ∷ ys) = ground (arith, any_by-insert_by p x ys)

  pub any_by-stable_sort :
      (p : A → Bool) (xs : List A) → any_by p (stable_sort less xs) ≡ any_by p xs
  unfolding any_by stable_sort
  any_by-stable_sort p [] = refl
  any_by-stable_sort p (x ∷ xs) =
      ground (arith, any_by-insert_by p x (stable_sort less xs), any_by-stable_sort p xs)

  module _ (order : IsWeakOrder less) where
    insert_by-IsSorted :
        (x : A) (ys : List A) → IsSorted less ys → IsSorted less (insert_by less x ys)
    unfolding insert_by
    insert_by-IsSorted x [] h = (tt, tt)
    insert_by-IsSorted x (y ∷ ys) h = elim (Bool-cases (less y x)) [
      | inl e ↦ rw e (
        insert_by-All (λ z. less z y ≡ false) x ys (order.asym y x e) h.0,
        insert_by-IsSorted x ys h.1,
      )
      | inr e ↦ rw e ((e, All-map_of _ _ ys (λ z p. order.not_less_trans x y z e p) h.0), h)
    ]

    pub stable_sort-IsSorted : (xs : List A) → IsSorted less (stable_sort less xs)
    unfolding stable_sort
    stable_sort-IsSorted [] = tt
    stable_sort-IsSorted (x ∷ xs) =
        insert_by-IsSorted x (stable_sort less xs) (stable_sort-IsSorted xs)

-- `c` is the first best item: it comes before those above it, and none below comes before it.
pub record IsFirstBest {ℓ} {A : Type ℓ} (less : A → A → Bool) (c : A) (xs : List A) : Type ℓ where
  pub before : List A
  pub after : List A
  pub splits : xs ≡ before ++ c ∷ after
  pub beats : All (λ d. less c d ≡ true) before
  pub unbeaten : All (λ d. less d c ≡ false) after

module _ {ℓ} {A : Type ℓ} (less : A → A → Bool) (order : IsWeakOrder less) where
  head-insert_by :
      (x h : A) (ys : List A)
      → head? ys ≡ some h
      → head? (insert_by less x ys) ≡ some (if less h x then h else x)
  unfolding insert_by
  head-insert_by x h [] e = cc
  head-insert_by x h (y ∷ ys) e = ground arith

  first_cons :
      (x h : A) (xs : List A)
      → IsFirstBest less h xs
      → IsFirstBest less (if less h x then h else x) (x ∷ xs)
  first_cons x h xs f = elim (Bool-cases (less h x)) [
    | inl e ↦ rw e (record {
      before = x ∷ f.before;
      after = f.after;
      splits = ap (◌∷◌ x) f.splits;
      beats = (e, f.beats);
      unbeaten = f.unbeaten;
    })
    | inr e ↦ rw e (record {
      before = [];
      after = xs;
      splits = refl;
      beats = tt;
      unbeaten = rw f.splits (
          All-append (λ d. less d x ≡ false) f.before (h ∷ f.after)
            (All-map_of _ _ f.before (λ d p. order.not_less_trans x h d e (order.asym h d p))
              f.beats)
            (e, All-map_of _ _ f.after (λ d p. order.not_less_trans x h d e p) f.unbeaten));
    })
  ]

  pub head-stable_sort :
      (x : A) (xs : List A)
      → (c : A) × (head? (stable_sort less (x ∷ xs)) ≡ some c) × IsFirstBest less c (x ∷ xs)
  unfolding stable_sort insert_by
  head-stable_sort x [] =
      (x, refl, record { before = []; after = []; splits = refl; beats = tt; unbeaten = tt })
  head-stable_sort x (y ∷ ys) =
      let (h, e, f) = head-stable_sort y ys in
      (if less h x then h else x, head-insert_by x h _ e, first_cons x h (y ∷ ys) f)
