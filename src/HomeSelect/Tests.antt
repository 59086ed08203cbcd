-- ===== src/HomeSelect/Tests.antt =====
-- The theorems about the choice of a Home at concrete inputs.
use omm.Prelude.{◌≡◌, refl, true, false, some, [], ◌∷◌}
use omm.Prelude.Int.{pos, negsuc}
use omm.Prelude.Sort.{stable_sort, insert_by}
use omm.HomeSelect.{Candidate, select, less, signal_rank}

abbrev own : Candidate
own = record {
  home_id = "own";
  controller_url = "";
  last_active = pos 90;
  signal = pos 0;
  self_controlled = true;
}

abbrev cabin : Candidate
cabin = record {
  home_id = "cabin";
  controller_url = "";
  last_active = pos 10;
  signal = negsuc 60;
  self_controlled = false;
}

-- A node prefers a Home of others to its own.
cabin_selected : select (own ∷ cabin ∷ []) ≡ some cabin
unfolding select less signal_rank stable_sort insert_by
cabin_selected = refl
