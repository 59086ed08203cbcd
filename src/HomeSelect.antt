-- ===== src/HomeSelect.antt =====
-- internal/homeselect/homeselect.go: which Home a device with several Homes activates on boot.
-- `(Candidate, bool)` is an `Option`; int and int64 are integers, which the code only compares.
pub mod Order
mod Tests
use omm.Prelude.{
  ◌-◌, ◌^◌, String, Bool, true, false, not, Option, none, some, List, [], ◌∷◌, ◌==◌, if◌then◌else◌,
}
use omm.Prelude.Int.{ℤ, pos, negsuc, ltb_ℤ}
use omm.Prelude.Sort.{stable_sort}
use mathlib.Core.List.{head?}

pub record Candidate : Type 0 where
  pub home_id : String
  pub controller_url : String
  pub last_active : ℤ
  pub signal : ℤ
  pub self_controlled : Bool

abbrev pub eq_ℤ : ℤ → ℤ → Bool
eq_ℤ a b = if ltb_ℤ a b then false else not (ltb_ℤ b a)

-- -1 << 30
abbrev pub unmeasured : ℤ
unmeasured = negsuc (2 ^ 30 - 1)

unfoldable pub signal_rank : ℤ → ℤ
signal_rank rssi = if eq_ℤ rssi (pos 0) then unmeasured else rssi

abbrev differ : Bool → Bool → Bool
differ true b = not b
differ false b = b

unfoldable pub less : Candidate → Candidate → Bool
less a b =
    if differ a.self_controlled b.self_controlled
    then not a.self_controlled
    else if not (eq_ℤ a.last_active b.last_active)
    then ltb_ℤ b.last_active a.last_active
    else ltb_ℤ (signal_rank b.signal) (signal_rank a.signal)

-- `ranked[0]` after the stable sort
unfoldable pub select : List Candidate → Option Candidate
select candidates = head? (stable_sort less candidates)

unfoldable pub find_home : String → List Candidate → Option Candidate
find_home id [] = none
find_home id (c ∷ cs) = if c.home_id == id then some c else find_home id cs

unfoldable pub or_else : Option Candidate → Option Candidate → Option Candidate
or_else (some c) other = some c
or_else none other = other

unfoldable pub choose : String → List Candidate → Option Candidate
unfolding or_else
choose explicit_home_id candidates =
    if explicit_home_id == ""
    then select candidates
    else or_else (find_home explicit_home_id candidates) (select candidates)
