-- ===== src/Led/Shown.antt =====
-- What the LED shows after `Update`, and what a failed write leaves.
use Prim.Native.String.{◌++◌}
use text.Mathlib.TextLemmas.{append_assoc}
use omm.Prelude.{
  String, ◌≡◌, ◌≢◌, refl, sym, ◌∙◌, Bool, true, false, Bool-cases, inl, inr, ◌==◌, ◌&&◌, arith, ap,
}
use omm.Led.Files.{
  Sysfs, attr_path, led_path, present, write_file, set_trigger, set_brightness, itoa, base,
}
use omm.Led.{
  State, unclaimed, enrolling, active, Pattern, pattern_for, apply, Reactor, eq_state, update, kept,
  failed,
}

eq_state-true : (s t : State) → eq_state s t ≡ true → s ≡ t
eq_state-true unclaimed unclaimed h = refl
eq_state-true enrolling enrolling h = refl
eq_state-true active active h = refl
eq_state-true unclaimed enrolling h = cc
eq_state-true unclaimed active h = cc
eq_state-true enrolling unclaimed h = cc
eq_state-true enrolling active h = cc
eq_state-true active unclaimed h = cc
eq_state-true active enrolling h = cc

eq_state_refl : (s : State) → eq_state s s ≡ true
eq_state_refl unclaimed = refl
eq_state_refl enrolling = refl
eq_state_refl active = refl

eq_state-false : (s t : State) → s ≢ t → eq_state s t ≡ false
eq_state-false s t ne = elim (Bool-cases (eq_state s t)) [
  | inl e ↦ absurd (ne (eq_state-true s t e))
  | inr e ↦ e
]

module _ (sysfs : Sysfs) where
  -- What the LED does in the state: a fast or a slow blinking of the kernel, or a steady light.
  abbrev pub IsShown : String → State → sysfs.Files → Type 0
  IsShown name unclaimed fs = sysfs.trigger (led_path sysfs name) fs ≡ "timer"
  IsShown name enrolling fs = sysfs.trigger (led_path sysfs name) fs ≡ "heartbeat"
  IsShown name active fs =
      (sysfs.trigger (led_path sysfs name) fs ≡ "none")
      × (sysfs.lit (led_path sysfs name) fs ≡ true)

  -- What the reactor remembers is what the LED shows, if the board has the LED.
  abbrev pub IsSynced : Reactor → sysfs.Files → Type 0
  IsSynced r fs = r.set ≡ true → present sysfs r.name fs ≡ true → IsShown r.name r.last fs

  path_of : (name attr : String) → attr_path sysfs name attr ≡ led_path sysfs name ++ "/" ++ attr
  path_of name attr = sym (
      append_assoc (base sysfs) ("/" ++ name) ("/" ++ attr)
      ∙ ap (λ x. base sysfs ++ x) (append_assoc "/" name ("/" ++ attr)))

  write_file-present :
      (name attr value : String) (fs : sysfs.Files)
      → present sysfs name (write_file sysfs name attr value fs).1 ≡ present sysfs name fs
  unfolding write_file present
  write_file-present name attr value fs = elim (Bool-cases (present sysfs name fs)) [
    | inl e ↦ rw (e, path_of name attr) (sysfs.write_stat (led_path sysfs name) attr value fs ∙ e)
    | inr e ↦ rw e e
  ]

  set_trigger-present :
      (name trigger : String) (fs : sysfs.Files)
      → present sysfs name (set_trigger sysfs name trigger fs).1 ≡ present sysfs name fs
  unfolding set_trigger
  set_trigger-present name trigger fs = write_file-present name "trigger" trigger fs

  set_trigger-trigger :
      (name trigger : String) (fs : sysfs.Files)
      → present sysfs name fs ≡ true
      → (set_trigger sysfs name trigger fs).0 ≡ true
      → sysfs.trigger (led_path sysfs name) (set_trigger sysfs name trigger fs).1 ≡ trigger
  unfolding set_trigger write_file
  set_trigger-trigger name trigger fs here ok =
      rw (here, path_of name "trigger")
        (sysfs.write_trigger (led_path sysfs name) trigger fs
          (rw (here, path_of name "trigger") at ok))

  set_brightness-lit :
      (name : String) (fs : sysfs.Files)
      → present sysfs name fs ≡ true
      → sysfs.trigger (led_path sysfs name) fs ≡ "none"
      → (set_brightness sysfs name 255 fs).0 ≡ true
      → IsShown name active (set_brightness sysfs name 255 fs).1
  unfolding set_brightness write_file itoa
  set_brightness-lit name fs here none' ok =
      rw (here, path_of name "brightness")
        (sysfs.write_brightness (led_path sysfs name) fs none'
          (rw (here, path_of name "brightness") at ok))

  apply_shows :
      (name : String) (s : State) (fs : sysfs.Files)
      → present sysfs name fs ≡ true
      → (apply sysfs name (pattern_for s) fs).0 ≡ true
      → IsShown name s (apply sysfs name (pattern_for s) fs).1
  unfolding apply pattern_for
  apply_shows name unclaimed fs here ok = elim (Bool-cases (set_trigger sysfs name "timer" fs).0) [
    | inl t ↦ rw t (set_trigger-trigger name "timer" fs here t)
    | inr f ↦ cc (rw f at ok)
  ]
  apply_shows name enrolling fs here ok =
      elim (Bool-cases (set_trigger sysfs name "heartbeat" fs).0) [
        | inl t ↦ rw t (set_trigger-trigger name "heartbeat" fs here t)
        | inr f ↦ cc (rw f at ok)
      ]
  apply_shows name active fs here ok =
      let first = set_trigger sysfs name "none" fs in
      elim (Bool-cases first.0) [
        | inl t ↦
            let still : present sysfs name first.1 ≡ true =
              set_trigger-present name "none" fs ∙ here in
            rw t (
              set_brightness-lit name first.1 still (set_trigger-trigger name "none" fs here t)
                (rw t at ok))
        | inr f ↦ cc (rw f at ok)
      ]

  apply-present :
      (name : String) (p : Pattern) (fs : sysfs.Files)
      → present sysfs name (apply sysfs name p fs).1 ≡ present sysfs name fs
  unfolding apply set_trigger set_brightness
  apply-present name p fs =
      let first = write_file sysfs name "trigger" p.trigger fs in
      let kept' = write_file-present name "trigger" p.trigger fs in
      elim (Bool-cases first.0) [
        | inl t ↦ elim (Bool-cases (p.trigger == "none")) [
          | inl n ↦
              rw (t, n) (write_file-present name "brightness" (itoa p.brightness) first.1 ∙ kept')
          | inr n ↦ rw (t, n) kept'
        ]
        | inr f ↦ rw f kept'
      ]

  -- If what the reactor remembers is what the LED shows, an Update that does not fail leaves
  -- the LED, if the board has it, as the new state asks: blinking by the trigger timer if
  -- unclaimed and heartbeat if enrolling, and lit with no trigger if active; the reactor
  -- remembers that state, again as shown.
  pub update_shows :
      (r : Reactor) (s : State) (fs : sysfs.Files)
      → IsSynced r fs
      → (update sysfs r s fs).0 ≢ failed
      → (present sysfs r.name fs ≡ true → IsShown r.name s (update sysfs r s fs).2)
        × IsSynced (update sysfs r s fs).1 (update sysfs r s fs).2
        × ((update sysfs r s fs).1 ≡ record r { last = s; set = true })
  unfolding update
  update_shows r s fs synced fine = elim (Bool-cases (r.set && eq_state s r.last)) [
    | inl e ↦
        let set : r.set ≡ true = ground (arith, e) in
        let last : s ≡ r.last = eq_state-true s r.last (ground (arith, e)) in
        rw e (
          λ here. rw last (synced set here),
          synced,
          rw last (ap (λ (b : Bool). record r { set = b }) set),
        )
    | inr e ↦ elim (Bool-cases (apply sysfs r.name (pattern_for s) fs).0) [
      | inl ok ↦
          let shown : (present sysfs r.name fs ≡ true
              → IsShown r.name s (apply sysfs r.name (pattern_for s) fs).1) =
            λ here. apply_shows r.name s fs here ok in
          rw (e, ok)
            (shown, λ _ here. shown (sym (apply-present r.name (pattern_for s) fs) ∙ here), refl)
      | inr f ↦ absurd (fine (rw (e, f) refl))
    ]
  ]

  -- If the reactor remembers another state than active, the LED is there, the write of its
  -- trigger succeeds and that of its brightness fails, the Update to active fails with the
  -- trigger written, and an Update back to the old state writes nothing.
  pub update_stale :
      (r : Reactor) (fs : sysfs.Files)
      → r.set ≡ true
      → r.last ≢ active
      → present sysfs r.name fs ≡ true
      → (set_trigger sysfs r.name "none" fs).0 ≡ true
      → (set_brightness sysfs r.name 255 (set_trigger sysfs r.name "none" fs).1).0 ≡ false
      → ((update sysfs r active fs).0 ≡ failed)
        × (update sysfs r r.last (update sysfs r active fs).2
            ≡ (kept, r, (update sysfs r active fs).2))
  unfolding update apply pattern_for
  update_stale r fs set ne here t b =
      rw (set, eq_state-false active r.last (λ e. ne (sym e)), eq_state_refl r.last, t, b)
        (refl, refl)
