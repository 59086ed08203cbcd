-- ===== src/Client/Lifecycle.antt =====
-- The state machine of `New`, whose transitions are those that it permits; `Fire` of
-- github.com/qmuntal/stateless is an error on any other.
use omm.Prelude.{Option, none, some, Bool, true, false, ◌≡◌, refl}

pub data State : Type 0 where
  unclaimed enrolling pending_approval active failed : State

pub data Trigger : Type 0 where
  enroll pending approve fail : Trigger

unfoldable pub fire : Trigger → State → Option State
fire enroll unclaimed = some enrolling
fire fail unclaimed = some failed
fire pending enrolling = some pending_approval
fire approve enrolling = some active
fire fail enrolling = some failed
fire approve pending_approval = some active
fire fail pending_approval = some failed
fire _ _ = none

-- Where the machine may fail, and where it may become active.
unfoldable pub can_fail : State → Bool
can_fail unclaimed = true
can_fail enrolling = true
can_fail pending_approval = true
can_fail _ = false

unfoldable pub can_approve : State → Bool
can_approve enrolling = true
can_approve pending_approval = true
can_approve _ = false

unfoldable pub is_active : State → Bool
is_active active = true
is_active _ = false

pub fire-approve : (s : State) → can_approve s ≡ true → fire approve s ≡ some active
unfolding fire can_approve
fire-approve enrolling h = refl
fire-approve pending_approval h = refl
fire-approve unclaimed h = cc h
fire-approve active h = cc h
fire-approve failed h = cc h

pub fire-fail : (s : State) → can_fail s ≡ true → fire fail s ≡ some failed
unfolding fire can_fail
fire-fail unclaimed h = refl
fire-fail enrolling h = refl
fire-fail pending_approval h = refl
fire-fail active h = cc h
fire-fail failed h = cc h

pub can_approve-can_fail : (s : State) → can_approve s ≡ true → can_fail s ≡ true
unfolding can_approve can_fail
can_approve-can_fail enrolling h = refl
can_approve-can_fail pending_approval h = refl
can_approve-can_fail unclaimed h = cc h
can_approve-can_fail active h = cc h
can_approve-can_fail failed h = cc h
