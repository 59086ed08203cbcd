-- ===== src/Profiles/Apply/Outcome.antt =====
-- What a profile that was applied with success leaves.
use omm.Prelude.{
  String, ℕ, ◌<◌, ◌≡◌, ◌≢◌, ◌⊎◌, refl, true, false, Bool-cases, Option-cases, inl, inr, Option,
  none, some, ◌==◌, arith, eq_iff,
}
use omm.Prelude.Int.{pos, negsuc, ltb_ℤ}
use omm.Models.{Profile, BackhaulState}
use omm.Store.Bolt.{Bolt}
use omm.Store.Db.{Db}
use omm.Store.Result.{Result, ok, err}
use omm.Store.Settings.{get_backhaul_state, set_backhaul_state}
use omm.Store.SettingsReads.{get_backhaul_state-set_backhaul_state}
use omm.Uci.{Uci}
use omm.Batman.Mac.{Formats}
use omm.Profiles.{Config, Inspector}
use omm.Profiles.Verify.{
  verify_backhaul, is_up, rounds, degrade, mesh_state, multi_ap_state, degraded_state,
}
use omm.Profiles.Verify.Polling.{poll-true, poll-false}
use omm.Profiles.Radios.{resolve_radio, resolve_mesh_radio}
use omm.Profiles.Apply.{author_profile, finish, record_state, apply_profile}

-- The attempt is one of those configured, which are numbered from zero up to their setting.
abbrev pub IsWithin : Config → ℕ → Type 0
IsWithin cfg j = ltb_ℤ cfg.mesh_verify_attempts (pos j) ≡ false

-- An attempt fails or finds the layer up.
abbrev pub IsHeard : Config → Inspector → Type 0
IsHeard cfg probe = (j : ℕ) × IsWithin cfg j × (probe j ≢ some false)

-- Every attempt finds the layer down.
abbrev pub IsSilent : Config → Inspector → Type 0
IsSilent cfg probe = (j : ℕ) → IsWithin cfg j → probe j ≡ some false

-- The mesh is a standby, cannot be inspected, or is heard.
abbrev pub IsTrusted : Config → Type 0
IsTrusted cfg =
    (cfg.mesh_standby ≡ true)
    ⊎ (cfg.mesh ≡ none)
    ⊎ ((probe : Inspector) × (cfg.mesh ≡ some probe) × IsHeard cfg probe)

-- The mesh is no standby, and its inspector only ever finds it down.
abbrev pub IsLost : Config → Type 0
IsLost cfg =
    (cfg.mesh_standby ≡ false)
    × ((probe : Inspector) × (cfg.mesh ≡ some probe) × IsSilent cfg probe)

-- The backhaul that a profile ends on, by what the inspector of the mesh says.
abbrev pub IsOutcome : Config → Profile → BackhaulState → Type 0
IsOutcome cfg profile state =
    ((profile.mesh_ssid ≡ "") × (state ≡ multi_ap_state))
    ⊎ ((profile.mesh_ssid ≢ "") × IsTrusted cfg × (state ≡ mesh_state))
    ⊎ ((profile.mesh_ssid ≢ "") × IsLost cfg × (state ≡ degraded_state))

IsWithin-below : (cfg : Config) (j : ℕ) → j < rounds cfg.mesh_verify_attempts → IsWithin cfg j
unfolding rounds
IsWithin-below cfg j h =
    elim cfg.mesh_verify_attempts as (λ a. j < rounds a → ltb_ℤ a (pos j) ≡ false) [
      | pos n ↦ λ h. ground (arith, h)
      | negsuc n ↦ λ h. absurd (omega (arith, h))
    ]
      h

below-IsWithin : (cfg : Config) (j : ℕ) → IsWithin cfg j → j < rounds cfg.mesh_verify_attempts
unfolding rounds
below-IsWithin cfg j h =
    elim cfg.mesh_verify_attempts as (λ a. ltb_ℤ a (pos j) ≡ false → j < rounds a) [
      | pos n ↦ λ h. ground (arith, h)
      | negsuc n ↦ λ h. absurd (ground (arith, h))
    ]
      h

up-IsTrusted : (cfg : Config) → is_up cfg cfg.mesh ≡ true → IsTrusted cfg
unfolding is_up
up-IsTrusted cfg h = elim (Option-cases cfg.mesh) [
  | inl e ↦ inr (inl e)
  | inr (probe, e) ↦
      let (j, low, heard) = poll-true probe (rounds cfg.mesh_verify_attempts) 0 (rw e at h) in
      inr (inr (probe, e, (j, IsWithin-below cfg j (omega (arith, low)), heard)))
]

down-IsLost : (cfg : Config) → cfg.mesh_standby ≡ false → is_up cfg cfg.mesh ≡ false → IsLost cfg
unfolding is_up
down-IsLost cfg b h = elim (Option-cases cfg.mesh) [
  | inl e ↦ cc (rw e at h)
  | inr (probe, e) ↦ (
    b,
    (
      probe,
      e,
      λ j w.
          poll-false probe (rounds cfg.mesh_verify_attempts) 0 (rw e at h) j (omega arith)
            (omega (arith, below-IsWithin cfg j w)),
    ),
  )
]

out : (a b : BackhaulState) → some b ≡ some a → a ≡ b
out a b h = cc

recorded : (r : Result {0} Unit) → elim r [ err _ ↦ false | ok _ ↦ true ] ≡ true → r ≡ ok tt
recorded (ok tt) h = refl
recorded (err e) h = cc

module _ (bolt : Bolt) (uci : Uci) (formats : Formats) (normalize : String → String) (cfg : Config)
    (profile : Profile) where
  verify_backhaul-IsOutcome :
      (c : uci.Config) (state : BackhaulState)
      → (verify_backhaul uci formats cfg profile c).0 ≡ some state
      → IsOutcome cfg profile state
  unfolding verify_backhaul
  verify_backhaul-IsOutcome c state h = elim (Bool-cases (profile.mesh_ssid == "")) [
    | inl a ↦ inl ((eq_iff _ _).0 a, out state multi_ap_state (rw a at h))
    | inr a ↦
        let named : profile.mesh_ssid ≢ "" = λ e. ground (arith, e, eq_iff profile.mesh_ssid "") in
        elim (Bool-cases cfg.mesh_standby) [
          | inl b ↦ inr (inl (named, inl b, out state mesh_state (rw (a, b) at h)))
          | inr b ↦ elim (Bool-cases (is_up cfg cfg.mesh)) [
            | inl d ↦
                inr (inl (named, up-IsTrusted cfg d, out state mesh_state (rw (a, b, d) at h)))
            | inr d ↦ elim (Bool-cases (degrade uci formats c).0) [
              | inl e ↦
                  let lost = down-IsLost cfg b d in
                  inr (inr (named, lost, out state degraded_state (rw (a, b, d, e) at h)))
              | inr e ↦ cc (rw (a, b, d, e) at h)
            ]
          ]
        ]
  ]

  record_state-reads :
      (state : BackhaulState) (db : Db bolt)
      → (record_state bolt uci formats normalize state (some db)).0 ≡ true
      → (db' : Db bolt) × ((record_state bolt uci formats normalize state (some db)).1 ≡ some db')
        × ((get_backhaul_state bolt db').0 ≡ ok state)
  unfolding record_state
  record_state-reads state db h =
      let done = recorded (set_backhaul_state bolt state db).0 h in
      (
        (set_backhaul_state bolt state db).1,
        refl,
        (get_backhaul_state-set_backhaul_state bolt db state done).0,
      )

  finish-reads :
      (r : Option BackhaulState × uci.Config) (db : Db bolt)
      → (finish bolt uci formats normalize r (some db)).0 ≡ true
      → (state : BackhaulState) × (r.0 ≡ some state)
        × (db' : Db bolt) × ((finish bolt uci formats normalize r (some db)).1 ≡ some db')
        × ((get_backhaul_state bolt db').0 ≡ ok state)
  unfolding finish
  finish-reads (none, c) db h = cc
  finish-reads (some state, c) db h =
      let (db', stored, reads) = record_state-reads state db h in (state, refl, db', stored, reads)

  -- After a successful ApplyProfile with a store the store reads back as the outcome of the
  -- backhaul: multi-AP without a mesh SSID; 802.11s if the mesh is a standby, cannot be
  -- inspected, or an attempt of its inspection errs or finds it up; else the degraded multi-AP
  -- with its reason.
  pub apply_profile_records :
      (db : Db bolt) (c : uci.Config)
      → (apply_profile bolt uci formats normalize cfg profile (some db) c).0 ≡ true
      → (db' : Db bolt) × ((apply_profile bolt uci formats normalize cfg profile (some db) c).1
          ≡ some db')
        × ((state : BackhaulState) × ((get_backhaul_state bolt db').0 ≡ ok state)
            × IsOutcome cfg profile state)
  unfolding apply_profile
  apply_profile_records db c h = elim (Option-cases (resolve_radio uci normalize cfg profile c)) [
    | inl e ↦ cc (rw (e, apply_profile) at h)
    | inr (ap_radio, e) ↦
        let mesh_radio : String = resolve_mesh_radio uci normalize cfg ap_radio c in
        let wrote = author_profile bolt uci formats normalize cfg profile ap_radio mesh_radio c in
        elim (Bool-cases wrote.0) [
          | inr w ↦ cc (rw (e, apply_profile, w) at h)
          | inl w ↦
              let (state, verified, db', stored, reads) =
                finish-reads (verify_backhaul uci formats cfg profile wrote.1) db
                  (rw (e, apply_profile, w) at h) in
              (
                db',
                rw (e, apply_profile, w) stored,
                (state, reads, verify_backhaul-IsOutcome wrote.1 state verified),
              )
        ]
  ]
