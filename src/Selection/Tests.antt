-- ===== src/Selection/Tests.antt =====
-- The theorems about the recommended Home at concrete inputs.
use omm.Prelude.{String, ◌≡◌, ◌≢◌, ◌⊎◌, some, [], ◌∷◌, All}
use omm.Prelude.Int.{pos, negsuc}
use omm.Models.{Home}
use omm.HomeSelect.{Candidate}
use omm.Selection.{candidate_of, recommend, Signals}
use omm.Selection.Recommend.{IsFirstNamed, IsAutomatic, recommend_decides}

abbrev own : Home
own = record {
  id = "own";
  name = "";
  controller = "";
  bssid = "aa:00";
  certificate = [];
  last_seen = pos 90;
}

abbrev cabin : Home
cabin = record {
  id = "cabin";
  name = "";
  controller = "";
  bssid = "BB:00";
  certificate = [];
  last_seen = pos 10;
}

abbrev heard : Signals
heard mac = some (negsuc 60)

abbrev chosen : String
chosen = "cabin"

abbrev lower : String → String
lower s = s

recommend_decides_example :
    (c : Candidate) × (recommend lower (own ∷ cabin ∷ []) "own" chosen heard ≡ some c)
    × (((chosen ≢ "")
          × (h : Home) × IsFirstNamed chosen h (own ∷ cabin ∷ [])
          × (c ≡ candidate_of lower "own" heard h))
        ⊎ (((chosen ≡ "") ⊎ All (λ h. h.id ≢ chosen) (own ∷ cabin ∷ []))
            × IsAutomatic lower "own" heard c (own ∷ cabin ∷ [])))
recommend_decides_example = recommend_decides lower "own" heard chosen own (cabin ∷ [])
