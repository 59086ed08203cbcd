-- ===== src/Profiles/Verify/Polling.antt =====
-- What the polls decide, and after how many attempts.
use omm.Prelude.{
  ℕ, zero, suc, ◌+◌, ◌≤◌, ◌<◌, ◌≡◌, ◌≢◌, sym, refl, ◌∙◌, true, false, Bool-cases, Option-cases, inl,
  inr, some, arith, eqb, ◌==◌,
}
use omm.Models.{Profile}
use omm.Uci.{Uci}
use omm.Uci.Action.{seq-ok, seq-IsStable}
use omm.Batman.Mac.{Formats}
use omm.Profiles.{Config, Inspector, mesh_section}
use omm.Profiles.Verify.{rounds, poll, is_up, degrade, verify_backhaul, degraded_state, mesh_state}

-- Every attempt from `i` on, of `n`, says that the layer is down.
abbrev pub IsDownFor : Inspector → ℕ → ℕ → Type 0
IsDownFor probe i n = (j : ℕ) → i ≤ j → j < i + n → probe j ≡ some false

pub poll-false : (probe : Inspector) (n i : ℕ) → poll probe n i ≡ false → IsDownFor probe i n
unfolding poll
poll-false probe zero i h j low high = absurd (omega (arith, low, high))
poll-false probe (suc n) i h j low high = elim (Option-cases (probe i)) [
  | inl e ↦ cc (rw (e, poll) at h)
  | inr (true, e) ↦ cc (rw (e, poll) at h)
  | inr (false, e) ↦
      let rest : poll probe n (i + 1) ≡ false = rw (e, poll) at h in
      elim (Bool-cases (eqb i j)) [
        | inl at ↦ let same : i ≡ j = ground (arith, at) in rw (← same) e
        | inr ne ↦
            poll-false probe n (i + 1) rest j (ground (arith, low, ne)) (ground (arith, high))
      ]
]

-- An attempt is heard to say something else, or to fail.
pub poll-true :
    (probe : Inspector) (n i : ℕ)
    → poll probe n i ≡ true
    → (j : ℕ) × (j < i + n) × (probe j ≢ some false)
unfolding poll
poll-true probe zero i h = cc h
poll-true probe (suc n) i h = elim (Option-cases (probe i)) [
  | inl e ↦ (i, omega arith, λ down. cc (rw e at down))
  | inr (true, e) ↦ (i, omega arith, λ down. cc (rw e at down))
  | inr (false, e) ↦
      let (j, low, heard) = poll-true probe n (i + 1) (rw (e, poll) at h) in
      (j, omega (arith, low), heard)
]

poll_down : (probe : Inspector) (n i : ℕ) → IsDownFor probe i n → poll probe n i ≡ false
unfolding poll
poll_down probe zero i h = refl
poll_down probe (suc n) i h =
    rw (h i (omega arith) (omega arith), poll)
      (poll_down probe n (i + 1) (λ j low high. h j (omega (arith, low)) (omega (arith, high))))

module _ (uci : Uci) (formats : Formats) where
  degrade-gone :
      (c : uci.Config)
      → (degrade uci formats c).0 ≡ true
      → uci.has_section "wireless" mesh_section (degrade uci formats c).1 ≡ false
  unfolding degrade
  degrade-gone c ok =
      let (del, _, e) = seq-ok uci (uci.delete "wireless" mesh_section) _ c ok in
      rw e (
        seq-IsStable uci "wireless" mesh_section (uci.commit "wireless") uci.reload
          (λ c'. uci.commit_sections "wireless" c' "wireless" mesh_section)
          (λ c'. uci.reload_sections c' "wireless" mesh_section)
          (uci.delete "wireless" mesh_section c).1
        ∙ uci.delete_gone "wireless" mesh_section c del)

  -- The inspector of the mesh said at each attempt that it is down.
  abbrev pub IsMeshDown : Config → Type 0
  IsMeshDown cfg =
      (probe : Inspector) × (cfg.mesh ≡ some probe)
      × IsDownFor probe 0 (rounds cfg.mesh_verify_attempts)

  up_false : (cfg : Config) → is_up cfg cfg.mesh ≡ false → IsMeshDown cfg
  unfolding is_up
  up_false cfg h = elim (Option-cases cfg.mesh) [
    | inl e ↦ cc (rw e at h)
    | inr (probe, e) ↦ (probe, e, poll-false probe (rounds cfg.mesh_verify_attempts) 0 (rw e at h))
  ]

  -- The check of the backhaul degrades to multi-AP only if the profile has a mesh, the mesh is
  -- no standby, and the inspector found it down at every attempt from the first to the last;
  -- the section of the mesh is then gone.
  pub verify_degrades :
      (cfg : Config) (profile : Profile) (c : uci.Config)
      → (verify_backhaul uci formats cfg profile c).0 ≡ some degraded_state
      → ((profile.mesh_ssid == "") ≡ false)
        × (cfg.mesh_standby ≡ false)
        × IsMeshDown cfg
        × (uci.has_section "wireless" mesh_section (verify_backhaul uci formats cfg profile c).1
            ≡ false)
  unfolding verify_backhaul
  verify_degrades cfg profile c h = elim (Bool-cases (profile.mesh_ssid == "")) [
    | inl a ↦ cc (rw a at h)
    | inr a ↦ elim (Bool-cases cfg.mesh_standby) [
      | inl b ↦ cc (rw (a, b) at h)
      | inr b ↦ elim (Bool-cases (is_up cfg cfg.mesh)) [
        | inl d ↦ cc (rw (a, b, d) at h)
        | inr d ↦ elim (Bool-cases (degrade uci formats c).0) [
          | inr e ↦ cc (rw (a, b, d, e) at h)
          | inl e ↦ (a, b, up_false cfg d, rw (a, b, d, e) (degrade-gone c e))
        ]
      ]
    ]
  ]

  pub verify_up :
      (cfg : Config) (profile : Profile) (c : uci.Config) (probe : Inspector) (j : ℕ)
      → (profile.mesh_ssid == "") ≡ false
      → cfg.mesh ≡ some probe
      → j < rounds cfg.mesh_verify_attempts
      → probe j ≢ some false
      → verify_backhaul uci formats cfg profile c ≡ (some mesh_state, c)
  unfolding verify_backhaul
  verify_up cfg profile c probe j a inspects within up = elim (Bool-cases cfg.mesh_standby) [
    | inl b ↦ rw (a, b) refl
    | inr b ↦ elim (Bool-cases (is_up cfg cfg.mesh)) [
      | inl d ↦ rw (a, b, d) refl
      | inr d ↦
          let (other, same, down) = up_false cfg d in
          let alike : some probe ≡ some other = sym inspects ∙ same in
          let at : probe ≡ other = ground (arith, alike) in
          absurd (up (rw at (down j (omega arith) (omega (arith, within)))))
    ]
  ]
