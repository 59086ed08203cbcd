-- ===== src/Store/Bolt.antt =====
-- What the store uses of go.etcd.io/bbolt and of the JSON of one settings value: an interface, whose
-- laws are what their documentation promises. Values are stored as JSON of one record type for each
-- bucket, so a bucket is typed by that record.
use omm.Prelude.{
  String, ◌≡◌, Bool, true, false, Option, none, some, List, ◌==◌, ◌||◌, All, if◌then◌else◌, [], ◌∷◌,
}
use omm.Models.{BackhaulState}

abbrev pub has_key {ℓ} : {V : Type ℓ} → String → List (String × V) → Bool
has_key k [] = false
has_key k ((j, v) ∷ l) = (j == k) || has_key k l

pub record Bolt : Type 1 where
  pub Bucket : Type 0 → Type 0
  pub empty : (V : Type 0) → Bucket V
  pub get : (V : Type 0) → Bucket V → String → Option V
  -- `Put` refuses a blank key, and a key or a value that is too large.
  pub accepts : (V : Type 0) → String → V → Bool
  pub put : (V : Type 0) → Bucket V → String → V → Bucket V
  pub delete : (V : Type 0) → Bucket V → String → Bucket V
  -- the pairs that `ForEach` visits, in its order
  pub entries : (V : Type 0) → Bucket V → List (String × V)
  pub blank_refused : (V : Type 0) (v : V) → accepts V "" v ≡ false
  pub get-blank : (V : Type 0) (b : Bucket V) → get V b "" ≡ none
  pub get-empty : (V : Type 0) (k : String) → get V (empty V) k ≡ none
  pub get-put :
      (V : Type 0) (b : Bucket V) (k j : String) (v : V)
      → accepts V k v ≡ true
      → get V (put V b k v) j ≡ (if k == j then some v else get V b j)
  pub get-delete :
      (V : Type 0) (b : Bucket V) (k j : String)
      → get V (delete V b k) j ≡ (if k == j then none else get V b j)
  pub entries_sound : (V : Type 0) (b : Bucket V) → All (λ e. get V b e.0 ≡ some e.1) (entries V b)
  pub entries_complete :
      (V : Type 0) (b : Bucket V) (k : String) (v : V)
      → get V b k ≡ some v
      → has_key k (entries V b) ≡ true
  -- json.Marshal and json.Unmarshal at `BackhaulState`
  pub encode_state : BackhaulState → String
  pub decode_state : String → Option BackhaulState
  pub decode-encode : (s : BackhaulState) → decode_state (encode_state s) ≡ some s
  pub encode-ne-blank : (s : BackhaulState) → (encode_state s == "") ≡ false
