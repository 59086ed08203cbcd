-- ===== src/Client/Service/Active.antt =====
-- A client that enrolled has an active enrollment at the controller.
use mathlib.Core.Path.{subst}
use omm.Prelude.{
  String, ℕ, zero, suc, Bool, false, ◌≡◌, refl, sym, ap, ◌∙◌, Option, some, Option-cases,
  Bool-cases, inl, inr, ◌⊎◌,
}
use omm.Models.{
  Enrollment, Status, pending_verification, pending_approval, approved, active, rejected,
  Status-discrete,
}
use omm.Identity.{Crypto}
use omm.Store.Bolt.{Bolt}
use omm.Store.Result.{ok}
use omm.Store.Db.{Db}
use omm.Store.Laws.{ok-injective}
use omm.Store.Enrollments.{eq_status, eq_status-true}
use omm.Store.Enrollments as Store
use omm.Enrollment as Enrollment
use omm.Enrollment.{
  Options, Env, Reply, RequestResult, VerifyInput, done, fault, Outcome, calling, replying,
  set_status, ack_found, result,
}
use omm.Enrollment.Outcomes.{calling-done, status-result, set_status-done}
use omm.Api.Response.{reply_body}
use omm.Api.Enroll.{enroll_status, enroll_ack}
use omm.Client.Lifecycle.{State, approve, fire}
use omm.Client.{
  Transport, get_enrollment, post_ack, granted, verdict, call, wait_for_approval, acknowledge,
  as_reply,
}
use omm.Client.Settled.{Verdict-cases}
use omm.Client.Service.{service, Serving, IsAdopting, serving-decoded, serve_message}

done_injective : {A : Type 0} {a b : A} → done a ≡ done b → a ≡ b
done_injective h = cc h

pub some_injective : {A : Type 0} {a b : A} → some a ≡ some b → a ≡ b
some_injective h = cc h

granted-active : (s : Status) → verdict s ≡ granted → eq_status s approved ≡ false → s ≡ active
unfolding verdict Status-discrete
granted-active active h n = refl
granted-active approved h n = cc n
granted-active pending_verification h n = cc h
granted-active pending_approval h n = cc h
granted-active rejected h n = cc h

module _ (bolt : Bolt) (crypto : Crypto) (opts : Options) (env : Env) (on_link : Bool) where
  -- The enrollment is stored, under its id, with the status.
  abbrev pub HasStatus : String → Status → Db bolt → Type 0
  HasStatus id s db =
      (e : Enrollment) × ((Store.get_enrollment bolt id db).0 ≡ ok e) × (e.id ≡ id) × (e.status ≡ s)

  ack_found-active :
      (e : Enrollment) (db : Db bolt) (r : Reply)
      → (Store.get_enrollment bolt e.id db).0 ≡ ok e
      → verdict e.status ≡ granted
      → (ack_found bolt crypto opts e db).0 ≡ done r
      → (r.status ≡ active) × HasStatus e.id active (ack_found bolt crypto opts e db).1
  unfolding ack_found
  ack_found-active e db r at g h = elim (Bool-cases (eq_status e.status approved)) [
    | inl p ↦
        let o = set_status bolt crypto opts active e db in
        let h' : o.0 ≡ done r = rw (p, ack_found) at h in
        let t = set_status-done bolt crypto opts active e db h' in
        let e' : Enrollment = record e { status = active } in
        rw (p, ack_found) (replied e' o.1 (sym t.reply ∙ h'), (e', t.reads, refl, refl))
    | inr p ↦
        let live = granted-active e.status g p in
        rw (p, ack_found) (replied e db (rw (p, ack_found) at h) ∙ live, (e, at, refl, live))
  ]
    where
      replied :
          (e : Enrollment) (d : Db bolt)
          → done (result bolt crypto opts e d) ≡ done r
          → r.status ≡ e.status
      replied e d q =
          sym (ap (λ (x : Reply). x.status) (done_injective q)) ∙ status-result bolt crypto opts e d

  ack-active :
      (id : String) (e : Enrollment) (db : Db bolt) (r : Reply)
      → (Store.get_enrollment bolt id db).0 ≡ ok e
      → e.id ≡ id
      → verdict e.status ≡ granted
      → (Enrollment.ack bolt crypto opts id db).0 ≡ done r
      → (r.status ≡ active) × HasStatus id active (Enrollment.ack bolt crypto opts id db).1
  unfolding Enrollment.ack Store.get_enrollment
  ack-active id e db r at own g h =
      let acked =
        ack_found-active e db r
          (subst (λ k. (Store.get_enrollment bolt k db).0 ≡ ok e) (sym own) at) g
          (rw (at, calling) at h) in
      rw (at, calling)
        (subst (λ k. (r.status ≡ active) × HasStatus k active (ack_found bolt crypto opts e db).1)
          own acked)

  get_keeps : (id : String) (db : Db bolt) → (Enrollment.get bolt crypto opts id db).1 ≡ db
  unfolding Enrollment.get Store.get_enrollment
  get_keeps id db = elim (Option-cases (bolt.get Enrollment db.enrollments id)) [
    | inl e ↦ rw (e, calling) refl
    | inr (x, e) ↦ rw (e, calling) refl
  ]

  granted-kept :
      (s s' : Status)
      → verdict s ≡ granted
      → (s' ≡ s) ⊎ ((s ≡ pending_approval) × (s' ≡ approved))
      → verdict s' ≡ granted
  unfolding verdict
  granted-kept s s' g (inl e) = rw e g
  granted-kept s s' g (inr (_, e)) = rw e refl

  module _ (others : ℕ → Db bolt → Db bolt)
      (fair : IsAdopting bolt crypto opts env on_link others) where
    -- The store that the next call meets.
    abbrev pub met : Serving bolt crypto opts env on_link → Db bolt
    met p = others p.calls p.db

    -- What an acknowledgement that the client accepts leaves.
    pub acknowledge-active :
        (t : Transport) (id : String) (s : State) (p : Serving bolt crypto opts env on_link)
        (r : Reply) (e : Enrollment)
        → (Store.get_enrollment bolt id p.db).0 ≡ ok e
        → e.id ≡ id
        → verdict e.status ≡ granted
        → (acknowledge crypto (service bolt crypto opts env on_link others) t id s p).0 ≡ some r
        → (r.status ≡ active)
          × HasStatus id active
              (acknowledge crypto (service bolt crypto opts env on_link others) t id s p).2.db
    unfolding acknowledge serve_message enroll_ack
    acknowledge-active t id s p r e at own g h =
        let ctrl = service bolt crypto opts env on_link others in
        let (e', at', own', moved) = fair.keeps_enrollment p.calls p.db id e at in
        elim (Option-cases (call crypto ctrl t (post_ack id) as_reply p).0) [
          | inl q ↦ absurd (cc (rw (q, acknowledge) at h))
          | inr (reply, q) ↦ elim (Option-cases (fire approve s)) [
            | inl f ↦ absurd (cc (rw (q, acknowledge, f) at h))
            | inr (s', f) ↦
                let (d, left) =
                  serving-decoded bolt crypto opts env on_link reply_body as_reply (λ a. refl)
                    (Enrollment.ack bolt crypto opts id) (met p) reply q in
                let (is, has) =
                  ack-active id e' (met p) reply at' (own' ∙ own)
                    (granted-kept e.status e'.status g moved) d in
                rw (q, acknowledge, f)
                  (
                    subst (λ (x : Reply). x.status ≡ active)
                        (some_injective (rw (q, acknowledge, f) at h)) is,
                    subst (λ (d : Db bolt). HasStatus id active d) (sym left) has,
                  )
          ]
        ]

    -- The service that a status was asked of.
    abbrev asked :
        Transport
        → String
        → Serving bolt crypto opts env on_link
        → Option Reply × Serving bolt crypto opts env on_link
    asked t id p =
        call crypto (service bolt crypto opts env on_link others) t (get_enrollment id) as_reply p

    -- The enrollment has the id, and the status of the reply.
    abbrev pub IsOf : String → Reply → Db bolt → Type 0
    IsOf id r db =
        (e : Enrollment) × ((Store.get_enrollment bolt id db).0 ≡ ok e)
        × (e.id ≡ id)
        × (r.status ≡ e.status)

    -- What an answer to it leaves.
    asked-IsOf :
        (t : Transport) (id : String) (p : Serving bolt crypto opts env on_link) (r : Reply)
        (e : Enrollment)
        → (Store.get_enrollment bolt id p.db).0 ≡ ok e
        → e.id ≡ id
        → (asked t id p).0 ≡ some r
        → IsOf id r (asked t id p).1.db
    unfolding serve_message enroll_status Enrollment.get
    asked-IsOf t id p r e at own h =
        let (d, left) =
          serving-decoded bolt crypto opts env on_link reply_body as_reply (λ a. refl)
            (Enrollment.get bolt crypto opts id) (met p) r h in
        let (e2, at2, same) =
          calling-done bolt crypto opts (Store.get_enrollment bolt id) (replying bolt crypto opts)
            (met p) d in
        let (e', at', own', moved) = fair.keeps_enrollment p.calls p.db id e at in
        let own2 : e2.id ≡ id =
          ap (λ (x : Enrollment). x.id) (ok-injective (sym at2 ∙ at')) ∙ own' ∙ own in
        subst (λ (d : Db bolt). IsOf id r d) (sym (left ∙ get_keeps id (met p)))
          (e2, at2, own2, replied e2 _ (rw same at d))
      where
        replied :
            (e : Enrollment) (d : Db bolt)
            → done (result bolt crypto opts e d) ≡ done r
            → r.status ≡ e.status
        replied e d q =
            sym (ap (λ (x : Reply). x.status) (done_injective q))
            ∙ status-result bolt crypto opts e d

    -- The polls end in a reply that is granted, with the status of the record.
    pub wait-granted :
        (ticks : ℕ) (t : Transport) (id : String) (p : Serving bolt crypto opts env on_link)
        (r : Reply) (e : Enrollment)
        → (Store.get_enrollment bolt id p.db).0 ≡ ok e
        → e.id ≡ id
        → let ctrl = service bolt crypto opts env on_link others in
          let o = wait_for_approval crypto ctrl ticks t id p in o.0 ≡ some r → IsOf id r o.1.db
    unfolding wait_for_approval
    wait-granted zero t id p r e at own h = elim (Option-cases (asked t id p).0) [
      | inl q ↦ absurd (cc (rw (q, wait_for_approval) at h))
      | inr (reply, q) ↦
          let is = asked-IsOf t id p reply e at own q in
          elim (Verdict-cases (verdict reply.status)) [
            | inl v ↦
                let same : reply ≡ r = some_injective (rw (q, wait_for_approval, v) at h) in
                rw (q, wait_for_approval, v)
                  (subst (λ (x : Reply). IsOf id x (asked t id p).1.db) same is)
            | inr (inl v) ↦ absurd (cc (rw (q, wait_for_approval, v) at h))
            | inr (inr v) ↦ absurd (cc (rw (q, wait_for_approval, v) at h))
          ]
    ]
    wait-granted (suc ticks) t id p r e at own h = elim (Option-cases (asked t id p).0) [
      | inl q ↦ absurd (cc (rw (q, wait_for_approval) at h))
      | inr (reply, q) ↦
          let is = asked-IsOf t id p reply e at own q in
          elim (Verdict-cases (verdict reply.status)) [
            | inl v ↦
                let same : reply ≡ r = some_injective (rw (q, wait_for_approval, v) at h) in
                rw (q, wait_for_approval, v)
                  (subst (λ (x : Reply). IsOf id x (asked t id p).1.db) same is)
            | inr (inl v) ↦ absurd (cc (rw (q, wait_for_approval, v) at h))
            | inr (inr v) ↦
                let (e2, at2, own2, _) = is in
                rw (q, wait_for_approval, v)
                  (wait-granted ticks t id (asked t id p).1 r e2 at2 own2
                    (rw (q, wait_for_approval, v) at h))
          ]
    ]
