-- ===== src/Discovery.antt =====
-- internal/discovery/cache.go: the controllers that were heard recently. The clock is an argument of
-- each call, and the map is the list of its entries.
pub mod Listed
mod Tests
use Prim.Native.String.{◌++◌}
use omm.Prelude.{String, Bool, List, [], ◌∷◌, ◌==◌, ◌||◌, not, if◌then◌else◌}
use omm.Prelude.Int.{ℤ, pos, ◌-ℤ◌, ltb_ℤ}
use omm.Prelude.Sort.{stable_sort}
use omm.Prelude.TextOrder.{text_less}

-- The type of internal/discovery/announce.go.
pub record Announcement : Type 0 where
  pub home_id : String
  pub name : String
  pub controller_id : String
  pub api : String
  pub node_id : String

pub record CacheEntry : Type 0 where
  pub ann : Announcement
  pub at : ℤ

pub record Cache : Type 0 where
  pub entries : List (String × CacheEntry)
  pub ttl : ℤ

unfoldable pub put_entry :
    String → CacheEntry → List (String × CacheEntry) → List (String × CacheEntry)
put_entry k e [] = (k, e) ∷ []
put_entry k e ((j, x) ∷ rest) =
    let later = put_entry k e rest in if j == k then (k, e) ∷ rest else (j, x) ∷ later

unfoldable pub add : ℤ → Announcement → Cache → Cache
unfolding put_entry
add now ann c = if ann.api == "" then c else record c {
  entries = put_entry (ann.home_id ++ "|" ++ ann.api) (record { ann = ann; at = now }) c.entries;
}

-- The announcements that have not expired.
unfoldable pub fresh : ℤ → ℤ → List (String × CacheEntry) → List Announcement
fresh ttl cutoff [] = []
fresh ttl cutoff ((k, e) ∷ rest) =
    let others = fresh ttl cutoff rest in
    if not (ltb_ℤ (pos 0) ttl) || not (ltb_ℤ e.at cutoff) then e.ann ∷ others else others

unfoldable pub earlier : Announcement → Announcement → Bool
unfolding text_less
earlier a b = if a.name == b.name then text_less a.home_id b.home_id else text_less a.name b.name

-- Sorted by name, then by Home; the order of equal ones is that of the entries.
unfoldable pub list : ℤ → Cache → List Announcement
unfolding fresh earlier
list now c = stable_sort earlier (fresh c.ttl (now -ℤ c.ttl) c.entries)
