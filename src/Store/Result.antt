-- ===== src/Store/Result.antt =====
-- The errors of internal/storage/store.go, and results that may fail.
use omm.Prelude.{Option, none, some, ◌≡◌, refl, ◌⊎◌, inl, inr}

pub data Error : Type 0 where
  -- `ErrNotFound`
  not_found : Error
  -- bbolt refused a `Put`
  refused : Error
  -- a settings value that is not the JSON of its type
  corrupt : Error

-- What a store method returns: its error, or its value.
pub data Result {ℓ} (V : Type ℓ) : Type ℓ where
  err : Error → Result V
  ok : V → Result V

-- `if err != nil { return err }` after a call
infixl 5 ◌>>=◌ ◌>>◌
abbrev pub ◌>>=◌ {ℓ κ} : {V : Type ℓ} {W : Type κ} → Result V → (V → Result W) → Result W
r >>= next = elim r [ err e ↦ err e | ok v ↦ next v ]

abbrev pub ◌>>◌ {ℓ κ} : {V : Type ℓ} {W : Type κ} → Result V → Result W → Result W
r >> s = elim r [ err e ↦ err e | ok v ↦ s ]

-- A key that is absent is `ErrNotFound`.
abbrev pub found {ℓ} : {A : Type ℓ} → Option A → Result A
found none = err not_found
found (some a) = ok a

pub Result-cases {ℓ} :
    {A : Type ℓ} (r : Result A) → ((a : A) × (r ≡ ok a)) ⊎ ((e : Error) × (r ≡ err e))
Result-cases (ok a) = inl (a, refl)
Result-cases (err e) = inr (e, refl)
