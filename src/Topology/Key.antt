-- ===== src/Topology/Key.antt =====
-- The map key of a directed pair, `Source + "\x00" + Target`, and the order of `sort.Strings`, by
-- bytes.
use Prim.Native.Char.{nul, code}
use Prim.Native.String.{compare, ◌++◌, ◌∷◌, []}
use text.Mathlib.Text.{is_lt}
use text.Mathlib.TextLemmas.{head-eq_of_cons-eq, tail-eq_of_cons-eq, nil-append, cons-append}
use omm.Prelude.{String, Bool, true, ◌&&◌, ltb, arith, ◌≡◌, ◌≢◌, refl, sym, ap}

unfoldable pub pair_key : String → String → String
pair_key source target = source ++ (nul ∷ target)

unfoldable pub string_less : String → String → Bool
string_less a b = is_lt (compare a b)

-- No character is NUL, as in every MAC and node id.
abbrev pub IsNulFree : String → Type 0
IsNulFree [] = Unit
IsNulFree (c ∷ s) = (c ≢ nul) × IsNulFree s

split_key :
    (s s' t t' : String)
    → IsNulFree s
    → IsNulFree s'
    → s ++ (nul ∷ t) ≡ s' ++ (nul ∷ t')
    → (s ≡ s') × (t ≡ t')
split_key [] [] t t' h h' e =
    (refl, tail-eq_of_cons-eq (rw (nil-append (nul ∷ t), nil-append (nul ∷ t')) at e))
split_key [] (c ∷ s') t t' h h' e =
    absurd (
      h'.0 (sym (head-eq_of_cons-eq (rw (nil-append (nul ∷ t), cons-append c s' (nul ∷ t')) at e))))
split_key (c ∷ s) [] t t' h h' e =
    absurd (h.0 (head-eq_of_cons-eq (rw (nil-append (nul ∷ t'), cons-append c s (nul ∷ t)) at e)))
split_key (c ∷ s) (c' ∷ s') t t' h h' e =
    let e' = rw (cons-append c s (nul ∷ t), cons-append c' s' (nul ∷ t')) at e in
    let (p, q) = split_key s s' t t' h.1 h'.1 (tail-eq_of_cons-eq e') in
    let d : c ≡ c' = head-eq_of_cons-eq e' in (rw (d, p) refl, q)

pub pair_key_injective :
    (s s' t t' : String)
    → IsNulFree s
    → IsNulFree s'
    → pair_key s t ≡ pair_key s' t'
    → (s ≡ s') × (t ≡ t')
unfolding pair_key
pair_key_injective = split_key

abbrev pub nul_free : String → Bool
nul_free [] = true
nul_free (c ∷ s) = ltb 0 (code c) && nul_free s

pub nul_free-IsNulFree : (s : String) → nul_free s ≡ true → IsNulFree s
nul_free-IsNulFree [] h = tt
nul_free-IsNulFree (c ∷ s) h = (
  λ e. let zero' : code c ≡ 0 = ap code e in ground (arith, h, zero'),
  nul_free-IsNulFree s (ground (arith, h)),
)
