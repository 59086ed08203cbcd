-- ===== src/Led/Tests.antt =====
-- The theorems about the LED on a file system whose files are the values of a function of the path.
use Prim.Native.String.{◌++◌}
use text.Mathlib.TextLemmas.{append_cancel_left}
use omm.Prelude.{
  String, ◌≡◌, ◌≢◌, refl, Bool, Bool-cases, true, false, inl, inr, ◌==◌, if◌then◌else◌, eq_refl,
  eq-false_of_ne, eq_iff, not,
}
use omm.Led.Files.{Sysfs, present, set_trigger, set_brightness, write_file, base, itoa}
use omm.Led.{Reactor, enrolling, active, pattern_for, update, wrote, apply}
use omm.Led.Shown.{IsShown, IsSynced, update_shows}

abbrev put : String → String → (String → String) → String → String
put p v fs q = if p == q then v else fs q

put_same : (p v : String) (fs : String → String) → put p v fs p ≡ v
put_same p v fs = rw (eq_refl p) refl

abbrev write : String → String → String → (String → String) → Bool × (String → String)
write broken p v fs = if p == broken then (false, fs) else (true, put p v fs)

apart : (led : String) → led ++ "/" ++ "brightness" ≢ led ++ "/" ++ "trigger"
apart led h = cc (
    (eq_iff "/brightness" "/trigger").1
      (append_cancel_left led ("/" ++ "brightness") ("/" ++ "trigger") h))

-- Every LED is there, and each write succeeds but those of one file; the text of a file is what
-- was written to it last.
abbrev toy : String → Sysfs
toy broken = record {
  Files = String → String;
  root = "";
  stat = λ p fs. true;
  write = write broken;
  trigger = λ led fs. fs (led ++ "/" ++ "trigger");
  lit = λ led fs. not (fs (led ++ "/" ++ "brightness") == "0");
  write_trigger = λ led v fs ok. elim (Bool-cases ((led ++ "/" ++ "trigger") == broken)) [
    | inl e ↦ cc (rw e at ok)
    | inr e ↦ rw e (put_same (led ++ "/" ++ "trigger") v fs)
  ];
  write_brightness = λ led fs none' ok. elim (Bool-cases ((led ++ "/" ++ "brightness") == broken)) [
    | inl e ↦ cc (rw e at ok)
    | inr e ↦
        rw
          (
            e,
            eq-false_of_ne (led ++ "/" ++ "brightness") (led ++ "/" ++ "trigger") (apart led),
            eq_refl (led ++ "/" ++ "brightness"),
          )
          (none', refl)
  ];
  write_stat = λ led attr v fs. refl;
}

abbrev blank : String → String
blank p = ""

abbrev fresh : Reactor
fresh = record { name = "status"; last = enrolling; set = false }

update_active : (update (toy "none") fresh active blank).0 ≡ wrote
unfolding update apply set_trigger set_brightness write_file present base pattern_for
update_active = refl

update_shows_example :
    (present (toy "none") "status" blank ≡ true
      → IsShown (toy "none") "status" active (update (toy "none") fresh active blank).2)
    × IsSynced
        (toy "none")
        (update (toy "none") fresh active blank).1
        (update (toy "none") fresh active blank).2
    × ((update (toy "none") fresh active blank).1 ≡ record fresh { last = active; set = true })
update_shows_example =
    update_shows (toy "none") fresh active blank (λ h. cc) (λ e. cc (update_active, e))

abbrev broken : String
broken = "/sys/class/leds/status/brightness"

abbrev joining : Reactor
joining = record { name = "status"; last = enrolling; set = true }

enrolling≢active : enrolling ≢ active
enrolling≢active e = cc

status_present : present (toy broken) "status" blank ≡ true
unfolding present
status_present = refl

trigger_written : (set_trigger (toy broken) "status" "none" blank).0 ≡ true
unfolding set_trigger write_file present base
trigger_written = refl

brightness_refused :
    (set_brightness (toy broken) "status" 255 (set_trigger (toy broken) "status" "none" blank).1).0
    ≡ false
unfolding set_trigger set_brightness write_file present base
brightness_refused = refl

decimal : itoa 255 ≡ "255"
unfolding itoa
decimal = refl
