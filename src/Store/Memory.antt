-- ===== src/Store/Memory.antt =====
-- A value of the interface `Bolt`, for runs at concrete inputs: a bucket is an association list that
-- never shows a blank key, and a settings value is its three strings, each character marked.
use Prim.Native.String.{[] as end, ◌∷◌ as next}
use Prim.Native.Char.{Char}
use text.Mathlib.TextLemmas.{cons-ne-nil}
use omm.Prelude.{
  eq-false_of_ne, String, ◌≡◌, refl, Bool, true, false, not, Option, none, some, List, [], ◌∷◌,
  ◌==◌, All, All-map_of, if◌then◌else◌, arith, eq_iff, eq_refl, Bool-cases, inl, inr,
}
use omm.Models.{BackhaulState}
use omm.Store.Bolt.{Bolt, has_key}

module _ {V : Type 0} where
  unfoldable pub lookup : String → List (String × V) → Option V
  lookup k [] = none
  lookup k ((j, v) ∷ l) = if j == k then some v else lookup k l

  unfoldable pub drop_key : String → List (String × V) → List (String × V)
  drop_key k [] = []
  drop_key k ((j, v) ∷ l) = if j == k then drop_key k l else (j, v) ∷ drop_key k l

  -- Shadowed pairs and blank keys are not visited.
  unfoldable pub visited : List (String × V) → List (String × V)
  visited [] = []
  visited ((j, v) ∷ l) = if j == "" then drop_key j (visited l) else (j, v) ∷ drop_key j (visited l)

  abbrev pub lookup_given : List (String × V) → String → Option V
  lookup_given l k = if k == "" then none else lookup k l

  lookup-drop_key :
      (k j : String) (l : List (String × V))
      → lookup j (drop_key k l) ≡ (if k == j then none else lookup j l)
  unfolding lookup drop_key
  lookup-drop_key k j [] = ground arith
  lookup-drop_key k j ((i, v) ∷ l) =
      ground (arith, lookup-drop_key k j l, eq_iff i k, eq_iff i j, eq_iff k j)

  has_key-drop_key :
      (k j : String) (l : List (String × V))
      → (k == j) ≡ false
      → has_key j (drop_key k l) ≡ has_key j l
  unfolding drop_key
  has_key-drop_key k j [] ne = refl
  has_key-drop_key k j ((i, v) ∷ l) ne =
      ground (arith, has_key-drop_key k j l, eq_iff i k, eq_iff i j, eq_iff k j)

  drop_key-All :
      (P : String × V → Type 0) (k : String) (l : List (String × V))
      → All (λ e. (e.0 == k) ≡ false → P e) l
      → All P (drop_key k l)
  unfolding drop_key
  drop_key-All P k [] h = tt
  drop_key-All P k ((i, v) ∷ l) h = elim (Bool-cases (i == k)) [
    | inl e ↦ rw e (drop_key-All P k l h.1)
    | inr e ↦ rw e (h.0 e, drop_key-All P k l h.1)
  ]

  sound_cons :
      (j : String) (v : V) (l : List (String × V)) (e : String × V)
      → lookup_given l e.0 ≡ some e.1
      → (e.0 == j) ≡ false
      → lookup_given ((j, v) ∷ l) e.0 ≡ some e.1
  unfolding lookup
  sound_cons j v l e h ne = ground (arith, eq_iff j e.0, eq_iff e.0 j)

  pub visited_sound : (l : List (String × V)) → All (λ e. lookup_given l e.0 ≡ some e.1) (visited l)
  unfolding visited
  visited_sound [] = tt
  visited_sound ((j, v) ∷ l) =
      let rest =
        drop_key-All (λ e. lookup_given ((j, v) ∷ l) e.0 ≡ some e.1) j (visited l)
          (All-map_of _ _ (visited l) (sound_cons j v l) (visited_sound l)) in
      elim (Bool-cases (j == "")) [
        | inl e ↦ rw e rest
        | inr e ↦ rw e (unfold lookup in ground (arith, eq_refl j), rest)
      ]

  pub visited_complete :
      (l : List (String × V)) (k : String) (v : V)
      → lookup_given l k ≡ some v
      → has_key k (visited l) ≡ true
  unfolding visited lookup
  visited_complete [] k v h = ground arith
  visited_complete ((j, w) ∷ l) k v h = ground (
    arith,
    visited_complete l k v,
    has_key-drop_key j k (visited l),
    eq_iff j k,
    eq_iff j "",
    eq_iff k "",
  )

  pub put_lem :
      (l : List (String × V)) (k j : String) (v : V)
      → not (k == "") ≡ true
      → lookup_given ((k, v) ∷ l) j ≡ (if k == j then some v else lookup_given l j)
  unfolding lookup
  put_lem l k j v h = ground (arith, eq_iff k j, eq_iff j "", eq_iff k "")

  pub delete_lem :
      (l : List (String × V)) (k j : String)
      → lookup_given (drop_key k l) j ≡ (if k == j then none else lookup_given l j)
  delete_lem l k j = ground (arith, lookup-drop_key k j l)

pub empty_lem : (V : Type 0) (k : String) → lookup_given {V = V} [] k ≡ none
unfolding lookup
empty_lem V k = ground arith

-- Each character of a field behind a comma, and a semicolon at its end.
pub mark : String → String → String
mark end rest = next ";" rest
mark (next c s) rest = next "," (next c (mark s rest))

abbrev push : Char → Option (String × String) → Option (String × String)
push c none = none
push c (some (s, rest)) = some (next c s, rest)

abbrev is_comma : Char → Bool
is_comma c = (next c end) == ","

unmark : String → Option (String × String)
unmark end = none
unmark (next c end) = some (end, end)
unmark (next c (next d s)) = if is_comma c then push d (unmark s) else some (end, next d s)

unmark-mark : (s rest : String) → unmark (mark s rest) ≡ some (s, rest)
unfolding mark unmark
unmark-mark end end = refl
unmark-mark end (next c rest) = refl
unmark-mark (next c s) rest = rw (unmark-mark s rest)

unfoldable pub encode : BackhaulState → String
encode s = mark s.mode (mark s.reason (mark s.remediation end))

field3 : String → String → Option (String × String) → Option BackhaulState
field3 a b none = none
field3 a b (some (c, rest)) = some (record { mode = a; reason = b; remediation = c })

field2 : String → Option (String × String) → Option BackhaulState
unfolding field3
field2 a none = none
field2 a (some (b, rest)) = field3 a b (unmark rest)

field1 : Option (String × String) → Option BackhaulState
unfolding field2
field1 none = none
field1 (some (a, rest)) = field2 a (unmark rest)

unfoldable pub decode : String → Option BackhaulState
unfolding field1 unmark
decode text = field1 (unmark text)

pub decode-encode : (s : BackhaulState) → decode (encode s) ≡ some s
unfolding encode decode
decode-encode s =
    rw (unmark-mark s.mode (mark s.reason (mark s.remediation end)))
      (rw (unmark-mark s.reason (mark s.remediation end)) (rw (unmark-mark s.remediation end)))

pub mark-ne-blank : (s rest : String) → (mark s rest == "") ≡ false
unfolding mark
mark-ne-blank end rest = eq-false_of_ne (next ";" rest) "" (cons-ne-nil ";" rest)
mark-ne-blank (next c s) rest =
    eq-false_of_ne (next "," (next c (mark s rest))) "" (cons-ne-nil "," _)

unfoldable pub memory : Bolt
unfolding lookup drop_key visited mark unmark encode decode
memory = record {
  Bucket = λ V. List (String × V);
  empty = λ V. [];
  get = λ V l k. lookup_given l k;
  accepts = λ V k v. not (k == "");
  put = λ V l k v. (k, v) ∷ l;
  delete = λ V l k. drop_key k l;
  entries = λ V l. visited l;
  blank_refused = λ V v. refl;
  get-blank = λ V b. refl;
  get-empty = λ V k. empty_lem V k;
  get-put = λ V l k j v h. put_lem l k j v h;
  get-delete = λ V l k j. delete_lem l k j;
  entries_sound = λ V l. visited_sound l;
  entries_complete = λ V l k v h. visited_complete l k v h;
  encode_state = encode;
  decode_state = decode;
  decode-encode = decode-encode;
  encode-ne-blank = λ s. mark-ne-blank s.mode _;
}
