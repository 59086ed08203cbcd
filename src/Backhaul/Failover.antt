-- ===== src/Backhaul/Failover.antt =====
-- What the failover loop does, round by round and over a whole run.
use omm.Prelude.{
  String, ◌≡◌, ◌≢◌, refl, Bool, true, false, Bool-cases, inl, inr, ◌⊎◌, List, [], ◌∷◌, ◌++◌, ◌==◌,
  All, arith, eq_iff, eq-false_of_ne, ne_of_eq-false, not, sym, ap, ◌∙◌, if◌then◌else◌,
}
use omm.Backhaul.{
  Round, Event, activate, deactivate, on_switch, backhaul_ethernet, backhaul_wireless, observe,
  switch, step, run, decide, actuation,
}

-- A reading that tells the state of the wire.
abbrev pub IsKnown : String → Type 0
IsKnown carrier = (carrier ≡ backhaul_ethernet) ⊎ (carrier ≡ backhaul_wireless)

pub decide_known :
    (carrier current : String)
    → IsKnown carrier
    → decide carrier current ≡ (carrier, not (carrier == current))
unfolding decide
decide_known carrier current (inl e) = rw e refl
decide_known carrier current (inr e) = rw e refl

decide_unknown :
    (carrier current : String) → ¬ IsKnown carrier → decide carrier current ≡ (current, false)
unfolding decide
decide_unknown carrier current n =
    rw
      (
        eq-false_of_ne carrier backhaul_ethernet (λ e. n (inl e)),
        eq-false_of_ne carrier backhaul_wireless (λ e. n (inr e)),
      )
      refl

decide_same : (carrier : String) → decide carrier carrier ≡ (carrier, false)
unfolding decide
decide_same carrier = ground (arith, eq_iff carrier "ethernet", eq_iff carrier "wireless")

IsKnown-cases : (carrier : String) → IsKnown carrier ⊎ (¬ IsKnown carrier)
IsKnown-cases carrier = elim (Bool-cases (carrier == backhaul_ethernet)) [
  | inl y ↦ inl (inl ((eq_iff carrier backhaul_ethernet).0 y))
  | inr y ↦ elim (Bool-cases (carrier == backhaul_wireless)) [
    | inl z ↦ inl (inr ((eq_iff carrier backhaul_wireless).0 z))
    | inr z ↦ inr λ k. elim k [
      | inl e ↦ ne_of_eq-false carrier backhaul_ethernet y e
      | inr e ↦ ne_of_eq-false carrier backhaul_wireless z e
    ]
  ]
]

-- A round in which the wire's state is unknown, or is what the node uses already.
abbrev pub IsQuiet : Round → String → Type 0
IsQuiet r current = (¬ IsKnown r.carrier) ⊎ (r.carrier ≡ observe r current)

pub step_rests :
    (records : Bool) (r : Round) (current : String)
    → IsQuiet r current
    → step records r current ≡ (observe r current, [])
unfolding step switch
step_rests records r current (inl n) = rw (decide_unknown r.carrier (observe r current) n) refl
step_rests records r current (inr e) = rw (e, decide_same (observe r current)) refl

-- The outcome of a round that actuates.
abbrev pub acted : Bool → Round → String → String × List Event
acted records r current =
    if r.actuates
    then (r.carrier, actuation r r.carrier ∷ (if records then on_switch r.carrier ∷ [] else []))
    else (observe r current, actuation r r.carrier ∷ [])

pub step_acts :
    (records : Bool) (r : Round) (current : String)
    → IsKnown r.carrier
    → r.carrier ≢ observe r current
    → step records r current ≡ acted records r current
unfolding step switch
step_acts records r current k n =
    rw
      (decide_known r.carrier (observe r current) k, eq-false_of_ne r.carrier (observe r current) n)
      refl

pub step-cases :
    (r : Round) (current : String)
    → IsQuiet r current ⊎ (IsKnown r.carrier × (r.carrier ≢ observe r current))
step-cases r current = elim (IsKnown-cases r.carrier) [
  | inr n ↦ inl (inl n)
  | inl k ↦ elim (Bool-cases (r.carrier == observe r current)) [
    | inl e ↦ inl (inr ((eq_iff r.carrier (observe r current)).0 e))
    | inr n ↦ inr (k, ne_of_eq-false r.carrier (observe r current) n)
  ]
]

step_settles :
    (records : Bool) (r : Round) (current : String)
    → IsKnown r.carrier
    → r.actuates ≡ true
    → (step records r current).0 ≡ r.carrier
step_settles records r current k ok = elim (step-cases r current) [
  | inl (inl n) ↦ absurd (n k)
  | inl (inr e) ↦ rw (step_rests records r current (inr e)) (sym e)
  | inr (k', n) ↦ rw (step_acts records r current k n, ok) refl
]

-- A round whose readings agree with the backhaul in use.
abbrev pub IsAgreed : String → Round → Type 0
IsAgreed carrier q = (q.carrier ≡ carrier) × ((q.observed ≡ "") ⊎ (q.observed ≡ carrier))

observe-agreed : (carrier : String) (q : Round) → IsAgreed carrier q → observe q carrier ≡ carrier
unfolding observe
observe-agreed carrier q (e, inl none') = rw none' refl
observe-agreed carrier q (e, inr same) = ground (arith, same)

run-agreed :
    (records : Bool) (carrier : String) (qs : List Round)
    → All (IsAgreed carrier) qs
    → run records qs carrier ≡ (carrier, [])
unfolding run
run-agreed records carrier [] h = refl
run-agreed records carrier (q ∷ qs) h =
    let same = observe-agreed carrier q h.0 in
    rw
      (
        step_rests records q carrier (inr (h.0.0 ∙ sym same)),
        same,
        run-agreed records carrier qs h.1,
      )
      refl

-- If in some round the carrier is known and the actuation, if any, succeeds, and every later
-- round reads the same carrier and observes no other backhaul, the loop is on the backhaul of
-- the carrier at the end, and the later rounds actuate nothing and record nothing.
pub run_settles :
    (records : Bool) (before : List Round) (r : Round) (quiet : List Round) (current : String)
    → IsKnown r.carrier
    → r.actuates ≡ true
    → All (IsAgreed r.carrier) quiet
    → run records (before ++ r ∷ quiet) current
      ≡ (r.carrier, (run records (before ++ r ∷ []) current).1)
unfolding run
run_settles records [] r quiet current k ok h =
    rw (step_settles records r current k ok, run-agreed records r.carrier quiet h) refl
run_settles records (b ∷ bs) r quiet current k ok h =
    rw (run_settles records bs r quiet (step records b current).0 k ok h) refl

-- What `OnSwitch` was told, in order.
unfoldable pub recorded : List Event → List String
recorded [] = []
recorded (on_switch backhaul ∷ es) = backhaul ∷ recorded es
recorded (_ ∷ es) = recorded es

-- Each of the backhauls differs from the one before it.
abbrev pub IsAlternating : String → List String → Type 0
IsAlternating current [] = Unit
IsAlternating current (b ∷ bs) = (current ≢ b) × IsAlternating b bs

abbrev pub last_of : String → List String → String
last_of current [] = current
last_of current (b ∷ bs) = last_of b bs

other_known :
    (carrier : String) → IsKnown carrier → carrier ≢ backhaul_wireless → carrier ≡ backhaul_ethernet
other_known carrier (inl e) ne = e
other_known carrier (inr e) ne = absurd (ne e)

-- The backhaul after the actuations that succeeded.
unfoldable pub in_effect : String → List Event → String
in_effect current [] = current
in_effect current (activate true ∷ es) = in_effect backhaul_wireless es
in_effect current (deactivate true ∷ es) = in_effect backhaul_ethernet es
in_effect current (_ ∷ es) = in_effect current es

-- In a loop that has OnSwitch and observes no actual backhaul, each recorded backhaul differs
-- from the one before, the first from the initial one, and the last is the one that the loop
-- ends on, which the actuations that succeeded left in effect.
pub run_records :
    (rs : List Round) (current : String)
    → All (λ r. r.observed ≡ "") rs
    → IsAlternating current (recorded (run true rs current).1)
      × (last_of current (recorded (run true rs current).1) ≡ (run true rs current).0)
      × (in_effect current (run true rs current).1 ≡ (run true rs current).0)
unfolding run recorded observe in_effect
run_records [] current h = (tt, refl, refl)
run_records (r ∷ rs) current h =
    let same : observe r current ≡ current = rw h.0 refl in
    let stays = run_records rs current h.1 in
    let moves = run_records rs r.carrier h.1 in
    elim (step-cases r current) [
      | inl q ↦ rw (step_rests true r current q, same) stays
      | inr (k, n) ↦ elim (Bool-cases r.actuates) [
        | inl ok ↦ elim (Bool-cases (r.carrier == backhaul_wireless)) [
          | inl w ↦
              let effect =
                ap (λ b. in_effect b (run true rs r.carrier).1)
                  ((eq_iff r.carrier backhaul_wireless).0 w) in
              rw (step_acts true r current k n, ok, w)
                (((λ e. n (sym e ∙ sym same)), moves.0), moves.1, sym effect ∙ moves.2)
          | inr w ↦
              let wired = other_known r.carrier k (ne_of_eq-false r.carrier backhaul_wireless w) in
              let effect = ap (λ b. in_effect b (run true rs r.carrier).1) wired in
              rw (step_acts true r current k n, ok, w)
                (((λ e. n (sym e ∙ sym same)), moves.0), moves.1, sym effect ∙ moves.2)
        ]
        | inr no' ↦ elim (Bool-cases (r.carrier == backhaul_wireless)) [
          | inl w ↦ rw (step_acts true r current k n, no', w, same) stays
          | inr w ↦ rw (step_acts true r current k n, no', w, same) stays
        ]
      ]
    ]
