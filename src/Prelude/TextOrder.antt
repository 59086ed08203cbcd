-- ===== src/Prelude/TextOrder.antt =====
-- The order of texts by bytes, which is linear.
use Prim.Native.Nat.{ℕ, Ordering, compare as compare_ℕ}
use Prim.Native.Char.{code}
use Prim.Native.String.{String, [], ◌∷◌, compare, then}
use Prim.Native.String.compare.{nil-cons, cons-nil, cons-cons}
use text.Mathlib.Text.{is_lt}
use text.Mathlib.TextEquality.{Char-path}
use mathlib.Core.Path.{◌≡◌, refl, ◌∙◌, sym, ap}
use mathlib.Core.Bool.{Bool, true, false, ◌||◌, ◌&&◌, not}
use native.Mathlib.Omega.{arith}
use omm.Prelude.Tests.{ltb}

-- `<` of Go's strings.
unfoldable pub text_less : String → String → Bool
text_less s t = is_lt (compare s t)

-- The same by recursion.
before : String → String → Bool
before [] [] = false
before [] (d ∷ t) = true
before (c ∷ s) [] = false
before (c ∷ s) (d ∷ t) = ltb (code c) (code d) || (not (ltb (code d) (code c)) && before s t)

is_lt-then :
    (x y : ℕ) (o : Ordering)
    → is_lt (then (compare_ℕ x y) o) ≡ (ltb x y || (not (ltb y x) && is_lt o))
is_lt-then x y o = ground arith

is_before : (s t : String) → is_lt (compare s t) ≡ before s t
unfolding before
is_before [] [] = refl
is_before [] (d ∷ t) = ap is_lt (nil-cons d t)
is_before (c ∷ s) [] = ap is_lt (cons-nil c s)
is_before (c ∷ s) (d ∷ t) =
    let split : is_lt (compare (c ∷ s) (d ∷ t))
        ≡ is_lt (then (compare_ℕ (code c) (code d)) (compare s t)) =
      ap is_lt (cons-cons c d s t) in
    split ∙ is_lt-then (code c) (code d) (compare s t) ∙ rw (is_before s t) refl

before_asym : (s t : String) → before s t ≡ true → before t s ≡ false
unfolding before
before_asym [] [] h = cc
before_asym [] (d ∷ t) h = refl
before_asym (c ∷ s) [] h = cc
before_asym (c ∷ s) (d ∷ t) h = ground (arith, h, before_asym s t)

before_trans : (s t u : String) → before s t ≡ true → before t u ≡ true → before s u ≡ true
unfolding before
before_trans s [] [] h k = cc
before_trans s (d ∷ t) [] h k = cc
before_trans [] t (e ∷ u) h k = refl
before_trans (c ∷ s) [] (e ∷ u) h k = cc
before_trans (c ∷ s) (d ∷ t) (e ∷ u) h k = ground (arith, h, k, before_trans s t u)

before_total : (s t : String) → before s t ≡ false → before t s ≡ false → s ≡ t
unfolding before
before_total [] [] h k = refl
before_total [] (d ∷ t) h k = cc
before_total (c ∷ s) [] h k = cc
before_total (c ∷ s) (d ∷ t) h k =
    let same : c ≡ d = Char-path c d (ground (arith, h, k)) in
    let rest : s ≡ t = before_total s t (ground (arith, h, k)) (ground (arith, h, k)) in
    rw (same, rest) refl

pub text_less_asym : (s t : String) → text_less s t ≡ true → text_less t s ≡ false
unfolding text_less
text_less_asym s t h = is_before t s ∙ before_asym s t (sym (is_before s t) ∙ h)

pub text_less_trans :
    (s t u : String) → text_less s t ≡ true → text_less t u ≡ true → text_less s u ≡ true
unfolding text_less
text_less_trans s t u h k =
    is_before s u ∙ before_trans s t u (sym (is_before s t) ∙ h) (sym (is_before t u) ∙ k)

pub text_less_total : (s t : String) → text_less s t ≡ false → text_less t s ≡ false → s ≡ t
unfolding text_less
text_less_total s t h k = before_total s t (sym (is_before s t) ∙ h) (sym (is_before t s) ∙ k)
