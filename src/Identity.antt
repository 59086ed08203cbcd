-- ===== src/Identity.antt =====
-- internal/identity/identity.go: the node id of a public key, and the check of a challenge signature.
-- SHA-256, the PKIX parser and ECDSA are the interface `Crypto`.
use Prim.Native.String.{[] as end, ◌∷◌ as next, ◌++◌ as append}
use omm.Prelude.{ℕ, zero, suc, ◌/◌, ◌%◌, String, Bool, Option, none, some, [], ◌∷◌, ◌≡◌, refl}
use omm.Models.{Bytes}

-- What `x509.ParsePKIXPublicKey` finds: an ECDSA key, or a key of another kind.
pub data PublicKey (K : Type 0) : Type 0 where
  ecdsa : K → PublicKey K
  other_key : PublicKey K

pub record Crypto : Type 1 where
  pub Key : Type 0
  pub sha256 : Bytes → Bytes
  pub parse_pkix_public_key : Bytes → Option (PublicKey Key)
  pub verify_asn1 : Key → Bytes → Bytes → Bool

-- The character at a place of a text, as a text.
nth_char : ℕ → String → String
nth_char n end = end
nth_char zero (next c s) = next c end
nth_char (suc n) (next c s) = nth_char n s

-- `hex.EncodeToString`
unfoldable pub hex_encode : Bytes → String
unfolding nth_char
hex_encode [] = end
hex_encode (b ∷ bs) =
    append (nth_char (b / 16) "0123456789abcdef")
      (append (nth_char (b % 16) "0123456789abcdef") (hex_encode bs))

module _ (crypto : Crypto) where
  unfoldable pub node_id_from_public_key_der : Bytes → String
  unfolding hex_encode
  node_id_from_public_key_der der = hex_encode (crypto.sha256 der)

  -- `none` is an error: the key does not parse, or is not ECDSA.
  unfoldable pub verify_signature : Bytes → Bytes → Bytes → Option Bool
  verify_signature pub_der challenge sig = elim (crypto.parse_pkix_public_key pub_der) [
    | some (ecdsa key) ↦ some (crypto.verify_asn1 key (crypto.sha256 challenge) sig)
    | _ ↦ none
  ]

hex_encode_bytes : hex_encode (0x0f ∷ 0xa0 ∷ []) ≡ "0fa0"
unfolding hex_encode
hex_encode_bytes = refl
