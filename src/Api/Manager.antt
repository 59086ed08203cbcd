-- ===== src/Api/Manager.antt =====
-- The manager of internal/profiles as the profile manager of the handlers.
use omm.Prelude.{
  String, Bool, refl, Bool-cases, Option-cases, inl, inr, Option, none, some, if◌then◌else◌,
}
use omm.Models.{Profile, BackhaulState}
use omm.Store.Bolt.{Bolt}
use omm.Store.Result.{Error, not_found, err, Result-cases}
use omm.Store.Db.{Db}
use omm.Store.Records.{get_profile}
use omm.Store.Frame.{IsSameHomes, set_backhaul_state-IsFrame}
use omm.Uci.{Uci}
use omm.Batman.Mac.{Formats}
use omm.Profiles.{Config}
use omm.Profiles.Verify.{verify_backhaul}
use omm.Profiles.Radios.{resolve_radio, resolve_mesh_radio}
use omm.Profiles.Apply.{apply_profile, apply_profile_for_home, finish, author_profile, record_state}
use omm.Api.Host.{ProfileManager, Applied, applied, no_profile, apply_failed}

module _ (bolt : Bolt) (uci : Uci) (formats : Formats) (normalize : String → String)
    (cfg : Config) where
  abbrev kept : Db bolt → Option (Db bolt) → Db bolt
  kept db none = db
  kept db (some db') = db'

  abbrev outcome : Bool → Applied
  outcome b = if b then applied else apply_failed

  unfoldable pub applying : Profile → Db bolt → uci.Config → Applied × Db bolt × uci.Config
  applying p db c =
      let (done, store, c') = apply_profile bolt uci formats normalize cfg p (some db) c in
      (outcome done, kept db store, c')

  -- Of the errors of `ApplyProfileForHome` only that of `GetProfile` is the ErrNotFound of the store.
  unfoldable pub applying_for_home : String → Db bolt → uci.Config → Applied × Db bolt × uci.Config
  applying_for_home id db c =
      let (done, store, c') = apply_profile_for_home bolt uci formats normalize cfg id db c in
      elim (get_profile bolt id db).0 [
        | err not_found ↦ (no_profile, kept db store, c')
        | _ ↦ (outcome done, kept db store, c')
      ]

  finish-IsSameHomes :
      (v : Option BackhaulState × uci.Config) (db : Db bolt)
      → IsSameHomes bolt db (kept db (finish bolt uci formats normalize v (some db)).1)
  unfolding finish record_state
  finish-IsSameHomes (none, c) db = (refl, refl)
  finish-IsSameHomes (some state, c) db = set_backhaul_state-IsFrame bolt state db

  apply_profile-IsSameHomes :
      (p : Profile) (db : Db bolt) (c : uci.Config)
      → IsSameHomes bolt db (kept db (apply_profile bolt uci formats normalize cfg p (some db) c).1)
  unfolding apply_profile
  apply_profile-IsSameHomes p db c = elim (Option-cases (resolve_radio uci normalize cfg p c)) [
    | inl e ↦ rw (e, apply_profile) (refl, refl)
    | inr (radio, e) ↦
        let mesh = resolve_mesh_radio uci normalize cfg radio c in
        let written = author_profile bolt uci formats normalize cfg p radio mesh c in
        elim (Bool-cases written.0) [
          | inl w ↦
              rw (e, apply_profile, w)
                (finish-IsSameHomes (verify_backhaul uci formats cfg p written.1) db)
          | inr w ↦ rw (e, apply_profile, w) (refl, refl)
        ]
  ]

  apply_for_home-IsSameHomes :
      (id : String) (db : Db bolt) (c : uci.Config)
      → IsSameHomes bolt db
          (kept db (apply_profile_for_home bolt uci formats normalize cfg id db c).1)
  unfolding apply_profile_for_home
  apply_for_home-IsSameHomes id db c = elim (Result-cases (get_profile bolt id db).0) [
    | inl (p, e) ↦ rw (e, apply_profile_for_home) (apply_profile-IsSameHomes p db c)
    | inr (x, e) ↦ rw (e, apply_profile_for_home) (refl, refl)
  ]

  pub applying_for_home-IsSameHomes :
      (id : String) (db : Db bolt) (c : uci.Config)
      → IsSameHomes bolt db (applying_for_home id db c).1
  unfolding applying_for_home
  applying_for_home-IsSameHomes id db c =
      let same = apply_for_home-IsSameHomes id db c in
      elim (Result-cases (get_profile bolt id db).0) [
        | inl (p, e) ↦ rw (e, applying_for_home) same
        | inr (not_found, e) ↦ rw (e, applying_for_home) same
        | inr (Error.refused, e) ↦ rw (e, applying_for_home) same
        | inr (Error.corrupt, e) ↦ rw (e, applying_for_home) same
      ]

  pub applying-IsSameHomes :
      (p : Profile) (db : Db bolt) (c : uci.Config) → IsSameHomes bolt db (applying p db c).1
  unfolding applying
  applying-IsSameHomes p db c = apply_profile-IsSameHomes p db c

  abbrev pub manager : ProfileManager bolt
  manager = record {
    Device = uci.Config;
    apply_profile = applying;
    apply_profile_for_home = applying_for_home;
    keeps_homes = applying-IsSameHomes;
    keeps_homes_for = applying_for_home-IsSameHomes;
  }
