-- ===== src/Led/Files.antt =====
-- internal/deviceled/led.go: the controller that writes the LED's files. The LED class of the kernel
-- is the interface `Sysfs`: what `Stat` and `Write` answer, and what the LEDs then do.
use Prim.Native.String.{◌++◌, slice}
use omm.Prelude.{String, ◌≡◌, Bool, true, ℕ, zero, suc, ◌+◌, ◌/◌, ◌%◌, ◌==◌, if◌then◌else◌, ltb}

pub record Sysfs : Type 1 where
  pub Files : Type 0
  -- `Base`
  pub root : String
  pub stat : String → Files → Bool
  pub write : String → String → Files → Bool × Files
  -- The active trigger of the LED, which its file shows in brackets, and whether the brightness is
  -- not zero.
  pub trigger : String → Files → String
  pub lit : String → Files → Bool
  -- A name that is written to the file of the trigger with no error is then the active trigger.
  pub write_trigger :
      (led v : String) (fs : Files)
      → (write (led ++ "/" ++ "trigger") v fs).0 ≡ true
      → trigger led (write (led ++ "/" ++ "trigger") v fs).1 ≡ v
  -- Without a trigger the brightness is the one that is written, up to the highest of the LED.
  pub write_brightness :
      (led : String) (fs : Files)
      → trigger led fs ≡ "none"
      → (write (led ++ "/" ++ "brightness") "255" fs).0 ≡ true
      → (trigger led (write (led ++ "/" ++ "brightness") "255" fs).1 ≡ "none")
        × (lit led (write (led ++ "/" ++ "brightness") "255" fs).1 ≡ true)
  -- A LED does not come or go by a write to its files.
  pub write_stat :
      (led attr v : String) (fs : Files)
      → stat led (write (led ++ "/" ++ attr) v fs).1 ≡ stat led fs

-- `strconv.Itoa` on the brightness, which is never negative: the digits, with fuel for each.
digit : ℕ → String
digit n = slice "0123456789" n (n + 1)

digits : ℕ → ℕ → String
unfolding digit
digits zero n = digit n
digits (suc fuel) n =
    let high = digits fuel (n / 10) in if ltb n 10 then digit n else high ++ digit (n % 10)

-- The fuel is enough, since a number has no more digits than its value, but for 0, which takes none.
unfoldable pub itoa : ℕ → String
unfolding digits
itoa n = digits n n

module _ (sysfs : Sysfs) where
  unfoldable pub base : String
  base = if sysfs.root == "" then "/sys/class/leds" else sysfs.root

  abbrev pub led_path : String → String
  led_path name = base ++ "/" ++ name

  abbrev pub attr_path : String → String → String
  attr_path name attr = base ++ "/" ++ name ++ "/" ++ attr

  unfoldable pub present : String → sysfs.Files → Bool
  unfolding base
  present name fs = sysfs.stat (led_path name) fs

  -- False where the write failed.
  unfoldable pub write_file : String → String → String → sysfs.Files → Bool × sysfs.Files
  unfolding present base
  write_file name attr value fs =
      if present name fs then sysfs.write (attr_path name attr) value fs else (true, fs)

  unfoldable pub set_brightness : String → ℕ → sysfs.Files → Bool × sysfs.Files
  unfolding write_file itoa
  set_brightness name value fs = write_file name "brightness" (itoa value) fs

  unfoldable pub set_trigger : String → String → sysfs.Files → Bool × sysfs.Files
  unfolding write_file
  set_trigger name trigger fs = write_file name "trigger" trigger fs
