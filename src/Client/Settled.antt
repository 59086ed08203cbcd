-- ===== src/Client/Settled.antt =====
-- Where the machine of a client ends.
use omm.Prelude.{
  String, ℕ, true, ◌≡◌, refl, Bool-cases, Option-cases, inl, inr, Option, none, some, ◌⊎◌,
}
use omm.Models.{Status, pending_verification, pending_approval, approved, rejected}
use omm.Models as Models
use omm.Identity.{Crypto}
use omm.Store.Enrollments.{eq_status}
use omm.Enrollment.{RequestResult, Reply}
use omm.Client.Lifecycle.{
  State, unclaimed, enrolling, active, failed, Trigger, enroll, pending, approve, fail, fire,
  can_fail, can_approve, is_active, fire-approve, fire-fail, can_approve-can_fail,
}
use omm.Client.Lifecycle as Lifecycle
use omm.Client.{
  Identity, Transport, Controller, Message, post_request, post_verify, post_ack, Verdict, granted,
  refused, waiting, verdict, sign, call, wait_for_approval, acknowledge, confirm, poll, await,
  prove, exchange, enroll_with, as_challenge, as_reply, request_of, failed_from,
}

pub Verdict-cases : (v : Verdict) → (v ≡ granted) ⊎ (v ≡ refused) ⊎ (v ≡ waiting)
Verdict-cases granted = inl refl
Verdict-cases refused = inr (inl refl)
Verdict-cases waiting = inr (inr refl)

-- The state that goes with a result.
abbrev pub ended : Option Reply → State
ended none = failed
ended (some reply) = active

module _ (crypto : Crypto) (c : Controller) where
  -- A result comes with an active machine, and an error with one that can still fail.
  abbrev Fits : Option Reply → State → Type 0
  Fits none s = can_fail s ≡ true
  Fits (some reply) s = s ≡ active

  acknowledge-Fits :
      (t : Transport) (id : String) (s : State) (p : c.Peer)
      → can_approve s ≡ true
      → let r = acknowledge crypto c t id s p in Fits r.0 r.1
  unfolding acknowledge
  acknowledge-Fits t id s p h = elim (Option-cases (call crypto c t (post_ack id) as_reply p).0) [
    | inl e ↦ rw (e, acknowledge) (can_approve-can_fail s h)
    | inr (reply, e) ↦ rw (e, acknowledge, fire-approve s h) refl
  ]

  confirm-Fits :
      (t : Transport) (id : String) (reply : Reply) (s : State) (p : c.Peer)
      → can_approve s ≡ true
      → let r = confirm crypto c t id reply s p in Fits r.0 r.1
  unfolding confirm
  confirm-Fits t id reply s p h = elim (Verdict-cases (verdict reply.status)) [
    | inl e ↦ rw (e, confirm) (acknowledge-Fits t id s p h)
    | inr (inl e) ↦ rw (e, confirm) (can_approve-can_fail s h)
    | inr (inr e) ↦ rw (e, confirm) (can_approve-can_fail s h)
  ]

  poll-Fits :
      (ticks : ℕ) (t : Transport) (id : String) (s : State) (p : c.Peer)
      → can_approve s ≡ true
      → let r = poll crypto c ticks t id s p in Fits r.0 r.1
  unfolding poll
  poll-Fits ticks t id s p h = elim (Option-cases (wait_for_approval crypto c ticks t id p).0) [
    | inl e ↦ rw (e, poll) (can_approve-can_fail s h)
    | inr (reply, e) ↦ rw (e, poll) (confirm-Fits t id reply s _ h)
  ]

  await-Fits :
      (ticks : ℕ) (t : Transport) (id : String) (reply : Reply) (p : c.Peer)
      → let r = await crypto c ticks t id reply enrolling p in Fits r.0 r.1
  unfolding await fire
  await-Fits ticks t id reply p =
      elim (Bool-cases (eq_status reply.status Models.pending_approval)) [
        | inl e ↦
            rw (e, await)
              (poll-Fits ticks t id Lifecycle.pending_approval p (unfold can_approve in refl))
        | inr e ↦ rw (e, await) (confirm-Fits t id reply enrolling p (unfold can_approve in refl))
      ]

  prove-Fits :
      (ticks : ℕ) (t : Transport) (id : Identity) (ch : RequestResult) (p : c.Peer)
      → let r = prove crypto c ticks t id ch enrolling p in Fits r.0 r.1
  unfolding prove
  prove-Fits ticks t id ch p = elim (Option-cases (sign crypto c id ch.challenge)) [
    | inl e ↦ rw (e, prove) (unfold can_fail in refl)
    | inr (signature, e) ↦
        let m : Message =
          post_verify (record { enrollment_id = ch.enrollment_id; signature = signature }) in
        elim (Option-cases (call crypto c t m as_reply p).0) [
          | inl q ↦ rw (e, prove, q) (unfold can_fail in refl)
          | inr (reply, q) ↦ rw (e, prove, q) (await-Fits ticks t ch.enrollment_id reply _)
        ]
  ]

  exchange-Fits :
      (ticks : ℕ) (t : Transport) (id : Identity) (serial : String) (p : c.Peer)
      → let r = exchange crypto c ticks t id serial unclaimed p in Fits r.0 r.1
  unfolding exchange fire
  exchange-Fits ticks t id serial p =
      elim (Option-cases
        (call crypto c t (post_request (request_of crypto c id serial)) as_challenge p).0) [
          | inl q ↦ rw (q, exchange) (unfold can_fail in refl)
          | inr (ch, q) ↦ rw (q, exchange) (prove-Fits ticks t id ch _)
        ]

  fails : (s : State) → can_fail s ≡ true → failed_from crypto c s ≡ failed
  fails s h = rw (fire-fail s h, failed_from) refl

  -- An Enroll of a new client ends with the machine active if it gives a result and failed if
  -- it gives an error, whatever the controller answers.
  pub enroll_settles :
      (ticks : ℕ) (t : Transport) (id : Identity) (serial : String) (p : c.Peer)
      → let r = enroll_with crypto c ticks t id serial unclaimed p in r.1 ≡ ended r.0
  unfolding enroll_with
  enroll_settles ticks t id serial p =
      let fits = exchange-Fits ticks t id serial p in
      elim (Option-cases (exchange crypto c ticks t id serial unclaimed p).0) [
        | inl e ↦ rw (e, enroll_with) (fails _ (rw e at fits))
        | inr (reply, e) ↦ rw (e, enroll_with) (rw e at fits)
      ]

  -- An Enroll of a client that is active already is an error that sends nothing, and the client
  -- stays active.
  pub enroll_again :
      (ticks : ℕ) (t : Transport) (id : Identity) (serial : String) (p : c.Peer)
      → enroll_with crypto c ticks t id serial active p ≡ (none, active, p)
  unfolding enroll_with exchange fire
  enroll_again ticks t id serial p = refl
