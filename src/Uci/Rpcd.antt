-- ===== src/Uci/Rpcd.antt =====
-- What rpcd offers over ubus, and what its calls do to the staged configuration: the calls that
-- internal/uci/client.go makes.
use omm.Prelude.{String, ◌≡◌, Bool, true, false, Option, none, some, List}
use omm.Uci.{Value, value_of, is_same, is_at}

pub record Rpcd : Type 1 where
  pub Config : Type 0
  pub has_section : (p s : String) → Config → Bool
  pub value : (p s o : String) → Config → Option Value
  -- `uci get` of an option, and of a package: none is an error.
  pub get : (pkg sec opt : String) → Config → Option (Option Value)
  pub get_package : String → Config → Option (List (String × List (String × Value)))
  -- `uci add`, `uci set`, `uci delete` of a section and of an option, `uci commit`
  pub add : (pkg type name : String) → Config → Bool × Config
  pub set : (pkg sec : String) (values : List (String × Value)) → Config → Bool × Config
  pub delete : (pkg sec : String) → Config → Bool × Config
  pub delete_option : (pkg sec opt : String) → Config → Bool × Config
  pub commit : String → Config → Bool × Config
  -- A call of another object: netifd's reload, the radios' reconf, procd's event.
  pub notify : (object method : String) → Config → Bool × Config
  pub get_value :
      (pkg sec opt : String) (c : Config) (o : Option Value)
      → get pkg sec opt c ≡ some o
      → o ≡ value pkg sec opt c
  pub add_has :
      (pkg type name : String) (c : Config)
      → (add pkg type name c).0 ≡ true
      → has_section pkg name (add pkg type name c).1 ≡ true
  pub add_values :
      (pkg type name : String) (c : Config) (p s o : String)
      → value p s o (add pkg type name c).1 ≡ value p s o c
  pub add_sections :
      (pkg type name : String) (c : Config) (p s : String)
      → is_same p s pkg name ≡ false
      → has_section p s (add pkg type name c).1 ≡ has_section p s c
  pub set_value :
      (pkg sec : String) (values : List (String × Value)) (c : Config) (o : String) (v : Value)
      → (set pkg sec values c).0 ≡ true
      → value_of o values ≡ some v
      → value pkg sec o (set pkg sec values c).1 ≡ some v
  pub set_unnamed :
      (pkg sec : String) (values : List (String × Value)) (c : Config) (p s o : String)
      → value_of o values ≡ none
      → value p s o (set pkg sec values c).1 ≡ value p s o c
  pub set_other :
      (pkg sec : String) (values : List (String × Value)) (c : Config) (p s o : String)
      → is_same p s pkg sec ≡ false
      → value p s o (set pkg sec values c).1 ≡ value p s o c
  pub set_sections :
      (pkg sec : String) (values : List (String × Value)) (c : Config) (p s : String)
      → has_section p s (set pkg sec values c).1 ≡ has_section p s c
  pub delete_gone :
      (pkg sec : String) (c : Config)
      → (delete pkg sec c).0 ≡ true
      → has_section pkg sec (delete pkg sec c).1 ≡ false
  pub delete_absent :
      (pkg sec : String) (c : Config) → has_section pkg sec c ≡ false → (delete pkg sec c).0 ≡ false
  pub delete_other :
      (pkg sec : String) (c : Config) (p s o : String)
      → is_same p s pkg sec ≡ false
      → value p s o (delete pkg sec c).1 ≡ value p s o c
  pub delete_sections :
      (pkg sec : String) (c : Config) (p s : String)
      → is_same p s pkg sec ≡ false
      → has_section p s (delete pkg sec c).1 ≡ has_section p s c
  pub delete_option_gone :
      (pkg sec opt : String) (c : Config)
      → (delete_option pkg sec opt c).0 ≡ true
      → value pkg sec opt (delete_option pkg sec opt c).1 ≡ none
  pub delete_option_other :
      (pkg sec opt : String) (c : Config) (p s o : String)
      → is_at p s o pkg sec opt ≡ false
      → value p s o (delete_option pkg sec opt c).1 ≡ value p s o c
  pub delete_option_sections :
      (pkg sec opt : String) (c : Config) (p s : String)
      → has_section p s (delete_option pkg sec opt c).1 ≡ has_section p s c
  pub commit_values :
      (pkg : String) (c : Config) (p s o : String) → value p s o (commit pkg c).1 ≡ value p s o c
  pub commit_sections :
      (pkg : String) (c : Config) (p s : String)
      → has_section p s (commit pkg c).1 ≡ has_section p s c
  pub notify_values :
      (object method : String) (c : Config) (p s o : String)
      → value p s o (notify object method c).1 ≡ value p s o c
  pub notify_sections :
      (object method : String) (c : Config) (p s : String)
      → has_section p s (notify object method c).1 ≡ has_section p s c
