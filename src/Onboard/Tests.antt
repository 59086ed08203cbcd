-- ===== src/Onboard/Tests.antt =====
-- The loop with two controllers in reach, one after the deadline.
use omm.Prelude.{String, ◌≡◌, ◌≤◌, refl, Bool, true, false, some, [], ◌∷◌, ◌==◌, ◌&&◌, any_by}
use omm.Prelude.Int.{pos, ◌-ℤ◌}
use omm.Prelude.Sort.{stable_sort, insert_by}
use omm.Prelude.TextOrder.{text_less}
use omm.Discovery.{Announcement, add, put_entry, list, fresh, earlier}
use omm.Onboard.{Deps, Round, join, fall_back, candidates, by_home, decide, act, run}
use omm.Onboard.Chosen.{is_eligible, decide_lem}
use omm.Onboard.Rounds.{count_falls, IsLastJoin, run_once}

abbrev attic : Announcement
attic = record {
  home_id = "home-b";
  name = "Attic";
  controller_id = "c1";
  api = "http://10.0.0.1";
  node_id = "n1";
}

abbrev barn : Announcement
barn = record attic { home_id = "home-a"; name = "Barn"; api = "http://10.0.0.2" }

abbrev deps : Deps
deps = record { self_home_id = "home-z"; grace = pos 60; has_fallback = true }

abbrev alone : Round
alone = record {
  complete = false;
  complete_fails = false;
  active_home = "";
  backhaul = "ethernet";
  controllers = [];
  joins = false;
  late = true;
}

abbrev found : Round
found = record alone { controllers = attic ∷ barn ∷ []; joins = true }

chosen : decide false "" "ethernet" (attic ∷ barn ∷ []) "home-z" ≡ some "http://10.0.0.2"
unfolding decide candidates stable_sort insert_by text_less
chosen = refl

decide_example :
    (◌≡◌ {A = Bool} false false)
    × (◌≡◌ {A = String} "" "")
    × (◌≡◌ {A = String} "ethernet" "ethernet")
    × ((a : Announcement) × ("http://10.0.0.2" ≡ a.api)
        × (is_eligible "home-z" a ≡ true)
        × (any_by
              (λ b. (b.home_id == a.home_id) && (b.api == a.api))
              (candidates "home-z" (attic ∷ barn ∷ []))
            ≡ true)
        × (any_by (λ b. by_home b a) (candidates "home-z" (attic ∷ barn ∷ [])) ≡ false))
decide_example =
    decide_lem false "" "ethernet" (attic ∷ barn ∷ []) "home-z" "http://10.0.0.2" chosen

events :
    run deps false (alone ∷ alone ∷ found ∷ alone ∷ [])
    ≡ fall_back ∷ join "http://10.0.0.2" true ∷ []
unfolding run act decide candidates stable_sort insert_by text_less
events = refl

run_once_example :
    (count_falls (run deps false (alone ∷ alone ∷ found ∷ alone ∷ [])) ≤ 1)
    × IsLastJoin (run deps false (alone ∷ alone ∷ found ∷ alone ∷ []))
run_once_example = run_once deps (alone ∷ alone ∷ found ∷ alone ∷ [])

heard :
    list (pos 100) (add (pos 90) barn (add (pos 10) attic (record { entries = []; ttl = pos 30 })))
    ≡ barn ∷ []
unfolding list add put_entry fresh earlier stable_sort insert_by text_less ◌-ℤ◌
heard = refl
