-- ===== src/Onboard/Rounds.antt =====
-- What a run of the loop does at most.
use omm.Prelude.{
  String, ℕ, suc, ◌≤◌, ◌≡◌, refl, Bool, true, false, not, ◌&&◌, ◌||◌, Option-cases, Bool-cases, inl,
  inr, List, [], ◌∷◌, ◌++◌, ◌==◌, if◌then◌else◌, arith,
}
use omm.Prelude.Int.{pos, ltb_ℤ}
use omm.Onboard.{Deps, Round, Event, join, fall_back, decide, act, run}

-- How often the loop falls back.
abbrev pub count_falls : List Event → ℕ
count_falls [] = 0
count_falls (fall_back ∷ rest) = suc (count_falls rest)
count_falls (join url b ∷ rest) = count_falls rest

-- A Join that succeeds is the last event.
abbrev pub IsLastJoin : List Event → Type 0
IsLastJoin [] = Unit
IsLastJoin (fall_back ∷ rest) = IsLastJoin rest
IsLastJoin (join url true ∷ rest) = rest ≡ []
IsLastJoin (join url false ∷ rest) = IsLastJoin rest

-- What the loop may still do: fall back once, unless it did.
abbrev left : Bool → ℕ
left fell_back = if fell_back then 0 else 1

abbrev IsFine : Bool → List Event → Type 0
IsFine fell_back events = (count_falls events ≤ left fell_back) × IsLastJoin events

-- The choices of a round by clauses.
IsFine-join :
    (url : String) (b fell_back : Bool) (rest : List Event)
    → IsFine fell_back rest
    → IsFine fell_back (if b then join url b ∷ [] else (join url b ∷ []) ++ rest)
IsFine-join url true fell_back rest h = (omega arith, refl)
IsFine-join url false fell_back rest h = h

or_false : (b : Bool) → (b || false) ≡ b
or_false true = refl
or_false false = refl

or_true : (b : Bool) → (b || true) ≡ true
or_true true = refl
or_true false = refl

run-IsFine :
    (d : Deps) (fell_back : Bool) (rounds : List Round) → IsFine fell_back (run d fell_back rounds)
unfolding run act
run-IsFine d fell_back [] = (omega arith, tt)
run-IsFine d fell_back (r ∷ rounds) = elim (Bool-cases (r.complete && not r.complete_fails)) [
  | inl c ↦ rw c (omega arith, tt)
  | inr c ↦
      elim (Option-cases
        (decide r.complete r.active_home r.backhaul r.controllers d.self_home_id)) [
          | inr (url, e) ↦
              rw (c, e, act, or_false fell_back)
                (IsFine-join url r.joins fell_back (run d fell_back rounds)
                  (run-IsFine d fell_back rounds))
          | inl e ↦
              elim (Bool-cases (
                d.has_fallback
                && not fell_back
                && (r.active_home == "")
                && ltb_ℤ (pos 0) d.grace
                && r.late)) [
                  | inr f ↦ rw (c, e, act, f, or_false fell_back) (run-IsFine d fell_back rounds)
                  | inl f ↦
                      let first : fell_back ≡ false = ground (arith, f) in
                      let rest = run-IsFine d true rounds in
                      rw (c, e, act, f, or_true fell_back)
                        (rw first (omega (arith, rest.0)), rest.1)
                ]
        ]
]

-- Whatever the closures return in the rounds, the loop falls back to self-selection at most
-- once, and a Join that succeeds is the last thing that it does.
pub run_once :
    (d : Deps) (rounds : List Round)
    → (count_falls (run d false rounds) ≤ 1) × IsLastJoin (run d false rounds)
run_once d rounds = run-IsFine d false rounds
