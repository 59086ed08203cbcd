-- ===== src/Api/Answers.antt =====
-- What a client reads after a request that was answered with success.
use omm.Prelude.{String, true, ◌≡◌, refl, Bool-cases, inl, inr, some, ◌==◌, eqb, ◌∙◌}
use omm.Models.{Home}
use omm.Store.Bolt.{Bolt}
use omm.Store.Result.{Error, not_found, ok, Result-cases}
use omm.Store.Db.{Db}
use omm.Store.Records.{get_home}
use omm.Store.Settings.{get_active_home, set_active_home}
use omm.Store.SettingsReads.{get_active_home-set_active_home}
use omm.Api.Response
use omm.Api.Response.{
  Response, Body, write_json, respond_error, respond_enroll_error, enroll_error_status,
}
use omm.Api.Host.{ProfileManager, Handler, Applied-cases}
use omm.Api.Homes.{calling}
use omm.Api.Settings.{get_active_home_handler, set_active_home_handler, activate, home_applied}

module _ (bolt : Bolt) (pm : ProfileManager bolt) (h : Handler bolt pm) where
  -- The active Home that the store reads.
  abbrev ReadsActive : String → Db bolt → Type 0
  ReadsActive id db = (get_active_home bolt db).0 ≡ ok id

  home_applied-ReadsActive :
      (id : String) (db : Db bolt) (d : pm.Device)
      → ReadsActive id db
      → ReadsActive id (home_applied bolt pm h id db d).1
  unfolding home_applied
  home_applied-ReadsActive id db d r =
      let kept : ReadsActive id (pm.apply_profile_for_home id db d).1 =
        (pm.keeps_homes_for id db d).1 ∙ r in
      elim (Applied-cases (pm.apply_profile_for_home id db d).0) [
        | inl e ↦ rw (e, home_applied) kept
        | inr (inl e) ↦ rw (e, home_applied) kept
        | inr (inr e) ↦ rw (e, home_applied) kept
      ]

  activate-ReadsActive :
      (id : String) (db : Db bolt) (d : pm.Device)
      → eqb (activate bolt pm h id db d).0.status 200 ≡ true
      → ReadsActive id (activate bolt pm h id db d).1
  unfolding activate respond_error
  activate-ReadsActive id db d q = elim (Result-cases (set_active_home bolt id db).0) [
    | inr (x, e) ↦ cc (rw (e, activate) at q)
    | inl (u, e) ↦
        let stored = (get_active_home-set_active_home bolt db id e).0 in
        elim (Bool-cases h.has_profile_manager) [
          | inl m ↦ rw (e, activate, m) (home_applied-ReadsActive id _ d stored)
          | inr m ↦ rw (e, activate, m) stored
        ]
  ]

  answered :
      (id : String) (db : Db bolt)
      → ReadsActive id db
      → (get_active_home_handler bolt db).0
        ≡ write_json Response.status_ok (Body.active_home_response id)
  unfolding get_active_home_handler
  answered id db r = rw (r, calling) refl

  -- If PUT /active-home answers 200 the Home is stored, and a GET /active-home after it
  -- answers 200 with that Home, whether or not there are a manager and a profile to apply.
  pub get_active_home-set_active_home_handler :
      (id : String) (db : Db bolt) (d : pm.Device)
      → eqb (set_active_home_handler bolt pm h (some id) db d).0.status 200 ≡ true
      → ((home : Home) × ((get_home bolt id db).0 ≡ ok home))
        × ((get_active_home_handler bolt (set_active_home_handler bolt pm h (some id) db d).1).0
            ≡ write_json Response.status_ok (Body.active_home_response id))
  unfolding set_active_home_handler respond_error respond_enroll_error enroll_error_status
  get_active_home-set_active_home_handler id db d q = elim (Bool-cases (id == "")) [
    | inl a ↦ absurd (cc (rw a at q))
    | inr a ↦ elim (Result-cases (get_home bolt id db).0) [
      | inr (not_found, e) ↦ absurd (cc (rw (a, e, set_active_home_handler) at q))
      | inr (Error.refused, e) ↦ absurd (cc (rw (a, e, set_active_home_handler) at q))
      | inr (Error.corrupt, e) ↦ absurd (cc (rw (a, e, set_active_home_handler) at q))
      | inl (home, e) ↦ (
        (home, e),
        rw (a, e, set_active_home_handler)
            (answered id _ (activate-ReadsActive id _ d (rw (a, e, set_active_home_handler) at q))),
      )
    ]
  ]
