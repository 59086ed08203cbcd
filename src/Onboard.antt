-- ===== src/Onboard.antt =====
-- internal/onboard/wired.go: the loop that enrolls an unclaimed node on the wire. Each round of the
-- loop is one step on what the closures of `Deps` and the clock answer in that round.
pub mod Chosen
pub mod Rounds
mod Tests
use omm.Prelude.{
  String, Bool, true, false, not, ◌&&◌, ◌||◌, Option, none, some, List, [], ◌∷◌, ◌++◌, ◌==◌,
  if◌then◌else◌,
}
use omm.Prelude.Int.{ℤ, pos, ltb_ℤ}
use omm.Prelude.Sort.{stable_sort}
use omm.Prelude.TextOrder.{text_less}
use omm.Backhaul.{backhaul_ethernet}
use omm.Discovery.{Announcement}

unfoldable pub candidates : String → List Announcement → List Announcement
candidates self_home_id [] = []
candidates self_home_id (a ∷ rest) =
    let others = candidates self_home_id rest in
    if (a.home_id == self_home_id) || (a.api == "") then others else a ∷ others

abbrev pub by_home : Announcement → Announcement → Bool
by_home a b = text_less a.home_id b.home_id

abbrev pub first_api : List Announcement → Option String
first_api [] = none
first_api (a ∷ rest) = some a.api

-- The controller to enroll into, if the node is to act. `sort.Slice` leaves open which of two
-- controllers of one Home comes first; here it is the one that was found first.
unfoldable pub decide : Bool → String → String → List Announcement → String → Option String
unfolding candidates text_less
decide complete active_home backhaul controllers self_home_id =
    if complete || not (active_home == "") || not (backhaul == backhaul_ethernet)
    then none
    else first_api (stable_sort by_home (candidates self_home_id controllers))

-- What the closures return in a round; `joins` says if Join, should it be called, succeeds, and
-- `late` if the deadline has passed.
pub record Round : Type 0 where
  pub complete : Bool
  pub complete_fails : Bool
  pub active_home : String
  pub backhaul : String
  pub controllers : List Announcement
  pub joins : Bool
  pub late : Bool

pub record Deps : Type 0 where
  pub self_home_id : String
  pub grace : ℤ
  pub has_fallback : Bool

pub data Event : Type 0 where
  -- Join of a controller, and if it succeeded.
  join : String → Bool → Event
  fall_back : Event

-- The events of a round that does not return at once, and if it returns after them.
unfoldable pub act : Deps → Bool → Round → List Event × Bool
unfolding decide
act d fell_back r = elim (decide r.complete r.active_home r.backhaul r.controllers d.self_home_id) [
  | some url ↦ (join url r.joins ∷ [], r.joins)
  | none ↦ (
    if d.has_fallback && not fell_back && (r.active_home == "") && ltb_ℤ (pos 0) d.grace && r.late
        then fall_back ∷ []
        else [],
    false,
  )
]

abbrev pub falls : List Event → Bool
falls [] = false
falls (fall_back ∷ rest) = true
falls (join url b ∷ rest) = falls rest

-- The rounds until the loop returns, or the context is done after the last.
unfoldable pub run : Deps → Bool → List Round → List Event
unfolding act
run d fell_back [] = []
run d fell_back (r ∷ rounds) =
    let (events, over) = act d fell_back r in
    let rest = run d (fell_back || falls events) rounds in
    if r.complete && not r.complete_fails then [] else if over then events else events ++ rest
