-- ===== src/Uci.antt =====
-- The interface `Client` of internal/uci/client.go: calls that change the staged configuration and
-- may fail, and what the configuration holds after them. `Uci.Client` is its implementation.
pub mod Action
pub mod Rpcd
pub mod Client
pub mod Members
pub mod Gone
pub mod Toy
pub mod Tests
use omm.Prelude.{
  String, ◌≡◌, Bool, true, false, Option, none, some, List, [], ◌∷◌, ◌==◌, ◌&&◌, ◌||◌, not,
  if◌then◌else◌,
}

-- An option has one value or a list of them.
pub data Value : Type 0 where
  scalar : String → Value
  items : List String → Value

-- The options of a `SetSection` call, and of a section that was read.
abbrev pub Values : Type 0
Values = List (String × String)

abbrev pub value_of {ℓ} : {A : Type ℓ} → String → List (String × A) → Option A
value_of o [] = none
value_of o ((k, v) ∷ vs) = if k == o then some v else value_of o vs

-- The members of a list option: none if it is not set.
abbrev pub members : Option Value → List String
members none = []
members (some (scalar v)) = v ∷ []
members (some (items vs)) = vs

unfoldable pub has_item : String → List String → Bool
has_item w [] = false
has_item w (v ∷ vs) = (v == w) || has_item w vs

-- The call with package `pkg` and section `sec` is about section `s` of `p`.
abbrev pub is_same : String → String → String → String → Bool
is_same p s pkg sec = (p == pkg) && (s == sec)

-- The call is about option `o` of the section.
abbrev pub is_at : String → String → String → String → String → String → Bool
is_at p s o pkg sec opt = is_same p s pkg sec && (o == opt)

-- A section is known by one name: of the positional names, such as @system[0], rpcd makes the section
-- that stands there, whose other name is taken for another section. The laws on what a call leaves are
-- for callers that do not use two names of one section.
pub record Uci : Type 1 where
  pub Config : Type 0
  -- A call returns false where it fails, and a reading none.
  pub get : (pkg sec opt : String) → Config → Option String
  pub sections : String → Config → Option (List (String × Values))
  pub set : (pkg sec opt value : String) → Config → Bool × Config
  pub set_section : (pkg sec type : String) (values : Values) → Config → Bool × Config
  pub delete : (pkg sec : String) → Config → Bool × Config
  pub add_list_item : (pkg sec opt value : String) → Config → Bool × Config
  pub del_list_item : (pkg sec opt value : String) → Config → Bool × Config
  pub commit : String → Config → Bool × Config
  pub reload : Config → Bool × Config
  pub has_section : (p s : String) → Config → Bool
  pub value : (p s o : String) → Config → Option Value
  -- What was set is there.
  pub set_option :
      (pkg sec opt v : String) (c : Config)
      → (set pkg sec opt v c).0 ≡ true
      → value pkg sec opt (set pkg sec opt v c).1 ≡ some (scalar v)
  pub set_section_has :
      (pkg sec type : String) (values : Values) (c : Config)
      → (set_section pkg sec type values c).0 ≡ true
      → has_section pkg sec (set_section pkg sec type values c).1 ≡ true
  pub set_section_option :
      (pkg sec type : String) (values : Values) (c : Config) (o v : String)
      → (set_section pkg sec type values c).0 ≡ true
      → value_of o values ≡ some v
      → value pkg sec o (set_section pkg sec type values c).1 ≡ some (scalar v)
  -- What was deleted is gone, and cannot be deleted again.
  pub delete_gone :
      (pkg sec : String) (c : Config)
      → (delete pkg sec c).0 ≡ true
      → has_section pkg sec (delete pkg sec c).1 ≡ false
  pub delete_absent :
      (pkg sec : String) (c : Config) → has_section pkg sec c ≡ false → (delete pkg sec c).0 ≡ false
  -- A list has the item that was added, or not the one removed, and its other members.
  pub add_list_item_members :
      (pkg sec opt v : String) (c : Config) (w : String)
      → (add_list_item pkg sec opt v c).0 ≡ true
      → has_item w (members (value pkg sec opt (add_list_item pkg sec opt v c).1))
        ≡ ((v == w) || has_item w (members (value pkg sec opt c)))
  pub del_list_item_members :
      (pkg sec opt v : String) (c : Config) (w : String)
      → (del_list_item pkg sec opt v c).0 ≡ true
      → has_item w (members (value pkg sec opt (del_list_item pkg sec opt v c).1))
        ≡ (not (v == w) && has_item w (members (value pkg sec opt c)))
  -- A call leaves every other option and section, also where it fails.
  pub set_other :
      (pkg sec opt v : String) (c : Config) (p s o : String)
      → is_at p s o pkg sec opt ≡ false
      → value p s o (set pkg sec opt v c).1 ≡ value p s o c
  pub set_sections :
      (pkg sec opt v : String) (c : Config) (p s : String)
      → has_section p s (set pkg sec opt v c).1 ≡ has_section p s c
  pub set_section_other :
      (pkg sec type : String) (values : Values) (c : Config) (p s o : String)
      → is_same p s pkg sec ≡ false
      → value p s o (set_section pkg sec type values c).1 ≡ value p s o c
  pub set_section_sections :
      (pkg sec type : String) (values : Values) (c : Config) (p s : String)
      → is_same p s pkg sec ≡ false
      → has_section p s (set_section pkg sec type values c).1 ≡ has_section p s c
  pub delete_other :
      (pkg sec : String) (c : Config) (p s o : String)
      → is_same p s pkg sec ≡ false
      → value p s o (delete pkg sec c).1 ≡ value p s o c
  pub delete_sections :
      (pkg sec : String) (c : Config) (p s : String)
      → is_same p s pkg sec ≡ false
      → has_section p s (delete pkg sec c).1 ≡ has_section p s c
  pub add_list_item_other :
      (pkg sec opt v : String) (c : Config) (p s o : String)
      → is_at p s o pkg sec opt ≡ false
      → value p s o (add_list_item pkg sec opt v c).1 ≡ value p s o c
  pub add_list_item_sections :
      (pkg sec opt v : String) (c : Config) (p s : String)
      → has_section p s (add_list_item pkg sec opt v c).1 ≡ has_section p s c
  pub del_list_item_other :
      (pkg sec opt v : String) (c : Config) (p s o : String)
      → is_at p s o pkg sec opt ≡ false
      → value p s o (del_list_item pkg sec opt v c).1 ≡ value p s o c
  pub del_list_item_sections :
      (pkg sec opt v : String) (c : Config) (p s : String)
      → has_section p s (del_list_item pkg sec opt v c).1 ≡ has_section p s c
  pub commit_option :
      (pkg : String) (c : Config) (p s o : String) → value p s o (commit pkg c).1 ≡ value p s o c
  pub commit_sections :
      (pkg : String) (c : Config) (p s : String)
      → has_section p s (commit pkg c).1 ≡ has_section p s c
  pub reload_option : (c : Config) (p s o : String) → value p s o (reload c).1 ≡ value p s o c
  pub reload_sections :
      (c : Config) (p s : String) → has_section p s (reload c).1 ≡ has_section p s c
