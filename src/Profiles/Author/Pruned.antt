-- ===== src/Profiles/Author/Pruned.antt =====
-- The access points that a profile leaves.
use omm.Prelude.{String, ◌≡◌, true, Option-cases, inl, inr, some, List, All}
use omm.Uci.{Uci}
use omm.Uci.Gone.{IsGone, deletes-IsGone}
use omm.Profiles.Radios.{Sections}
use omm.Profiles.Author.{stale, prune_stale_secondary_aps}

pub prune_removes :
    (uci : Uci) (normalize : String → String) (keep : List String) (c : uci.Config)
    → (prune_stale_secondary_aps uci normalize keep c).0 ≡ true
    → (sections : Sections) × (uci.sections "wireless" c ≡ some sections)
      × All
          (λ s. IsGone uci "wireless" s (prune_stale_secondary_aps uci normalize keep c).1)
          (stale keep sections)
unfolding prune_stale_secondary_aps
prune_removes uci normalize keep c ok = elim (Option-cases (uci.sections "wireless" c)) [
  | inl e ↦ cc (rw (e, prune_stale_secondary_aps) at ok)
  | inr (sections, e) ↦ (
    sections,
    e,
    rw (e, prune_stale_secondary_aps)
        (deletes-IsGone uci "wireless" (stale keep sections) c
          (rw (e, prune_stale_secondary_aps) at ok)),
  )
]
