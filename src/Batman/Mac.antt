-- ===== src/Batman/Mac.antt =====
-- internal/batman/mac.go: the MAC of a wired port that is enslaved to bat0.
pub mod Octets
use Prim.Native.String.{◌++◌}
use omm.Prelude.{String, ℕ, zero, suc, ◌+◌, ◌*◌, ◌/◌, ◌%◌, Option, none, some, List, [], ◌∷◌, ◌>>=◌}

-- What the code uses of strings, strconv, fmt and hash/fnv: the parts of a trimmed text between
-- colons, a number of two hexadecimal digits, the text of six octets, and FNV-1a of 32 bits.
pub record Formats : Type 0 where
  pub split_colons : String → List String
  pub parse_octet : String → Option ℕ
  pub show_mac : ℕ → ℕ → ℕ → ℕ → ℕ → ℕ → String
  pub fnv32a : String → ℕ

-- Six octets.
pub record Mac : Type 0 where
  pub o0 : ℕ
  pub o1 : ℕ
  pub o2 : ℕ
  pub o3 : ℕ
  pub o4 : ℕ
  pub o5 : ℕ

-- The operators on bits, of numbers of that many bits: `a ^ b`.
unfoldable pub xor : ℕ → ℕ → ℕ → ℕ
xor zero a b = 0
xor (suc bits) a b = (a + b) % 2 + 2 * xor bits (a / 2) (b / 2)

-- `a | b`.
unfoldable pub or : ℕ → ℕ → ℕ → ℕ
or zero a b = 0
or (suc bits) a b = (a % 2 + b % 2 + 1) / 2 + 2 * or bits (a / 2) (b / 2)

-- `a &^ b`: a bit stays if it is set in `a` and not in `b`.
unfoldable pub and_not : ℕ → ℕ → ℕ → ℕ
and_not zero a b = 0
and_not (suc bits) a b = (a % 2 + (b % 2 + 1) % 2) / 2 + 2 * and_not bits (a / 2) (b / 2)

-- `(b | 0x02) &^ 0x01` of a byte.
unfoldable pub local_unicast : ℕ → ℕ
unfolding or and_not
local_unicast b = and_not 8 (or 8 b 2) 1

-- The octets of the MAC for a port whose name has the sum `h`.
unfoldable pub derive : ℕ → Mac → Mac
unfolding xor local_unicast
derive h m = record m { o0 = local_unicast m.o0; o5 = xor 8 m.o5 (h % 256) }

module _ (formats : Formats) where
  unfoldable pub octets : List String → Option (List ℕ)
  octets [] = some []
  octets (p ∷ ps) = do b ← formats.parse_octet p; bs ← octets ps; some (b ∷ bs)

  unfoldable pub six : List ℕ → Option Mac
  six (a ∷ b ∷ c ∷ d ∷ e ∷ f ∷ []) =
      some (record { o0 = a; o1 = b; o2 = c; o3 = d; o4 = e; o5 = f })
  six _ = none

  unfoldable pub parse_mac : String → Option Mac
  unfolding octets six
  parse_mac s = do bs ← octets (formats.split_colons s); six bs

  unfoldable pub unique_hardif_mac : String → String → Option String
  unfolding parse_mac derive
  unique_hardif_mac real_mac port = do
    real ← parse_mac real_mac
    let m = derive (formats.fnv32a port) real
    some (formats.show_mac m.o0 m.o1 m.o2 m.o3 m.o4 m.o5)

-- `SysfsMAC` over the reading of a file, which may fail, and `strings.TrimSpace`.
unfoldable pub sysfs_mac : (String → Option String) → (String → String) → String → Option String
sysfs_mac read trim_space dev = do
  b ← read ("/sys/class/net/" ++ dev ++ "/address")
  some (trim_space b)
