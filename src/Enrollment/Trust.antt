-- ===== src/Enrollment/Trust.antt =====
-- The databases that the enrollment protocol reaches, and what holds of every enrollment in them.
use omm.Prelude.{String, ◌≡◌, refl, true, false, Bool, none, some}
use omm.Models.{Bytes, Enrollment, Status, approved, active}
use omm.Identity.{Crypto, node_id_from_public_key_der, verify_signature}
use omm.Store.Bolt.{Bolt}
use omm.Store.Result.{ok}
use omm.Store.Db.{Db, open_db}
use omm.Store.Enrollments.{get_enrollment}
use omm.Store.Laws.{found-eq-ok}
use omm.Store.Invariant.{IsConsistent-open_db}
use omm.Enrollment.{
  Options, Env, RequestInput, VerifyInput, is_provisioned, request, verify, adopt, reject, ack,
}
use omm.Enrollment.Authentic.{
  IsAuthentic, request-IsAuthentic, verify-IsAuthentic, adopt-IsAuthentic, reject-IsAuthentic,
  ack-IsAuthentic, is_unproved,
}

-- The calls that write, with what each takes from its surroundings.
pub data Call : Type 0 where
  requests : Env → RequestInput → Call
  verifies : Env → Bool → VerifyInput → Call
  adopts : Env → String → Call
  rejects acks : String → Call

proved_of_provisioned : (s : Status) → is_provisioned s ≡ true → is_unproved s ≡ false
unfolding is_provisioned
proved_of_provisioned approved h = refl
proved_of_provisioned active h = refl
proved_of_provisioned _ h = cc

module _ (bolt : Bolt) (crypto : Crypto) (opts : Options) where
  unfoldable pub serve : Call → Db bolt → Db bolt
  serve (requests env input) db = (request bolt crypto opts env input db).1
  serve (verifies env on_link input) db = (verify bolt crypto opts env on_link input db).1
  serve (adopts env node_id) db = (adopt bolt crypto opts env node_id db).1
  serve (rejects node_id) db = (reject bolt crypto opts node_id db).1
  serve (acks id) db = (ack bolt crypto opts id db).1

  -- The id of a new enrollment is one that no stored one has (a UUID).
  abbrev pub HasNewId : Call → Db bolt → Type 0
  HasNewId (requests env input) db = bolt.get Enrollment db.enrollments env.new_id ≡ none
  HasNewId _ db = Unit

  -- What a controller's database can be after any calls, successful or not.
  pub data Served : Db bolt → Type 0 where
    opened : Served (open_db bolt)
    then_served : {db : Db bolt} (c : Call) → HasNewId c db → Served db → Served (serve c db)

  serve-IsAuthentic :
      (c : Call) (db : Db bolt)
      → HasNewId c db
      → IsAuthentic bolt crypto opts db
      → IsAuthentic bolt crypto opts (serve c db)
  unfolding serve
  serve-IsAuthentic (requests env input) db f a =
      request-IsAuthentic bolt crypto opts env input db f a
  serve-IsAuthentic (verifies env on_link input) db f a =
      verify-IsAuthentic bolt crypto opts env on_link input db a
  serve-IsAuthentic (adopts env node_id) db f a =
      adopt-IsAuthentic bolt crypto opts env node_id db a
  serve-IsAuthentic (rejects node_id) db f a = reject-IsAuthentic bolt crypto opts node_id db a
  serve-IsAuthentic (acks id) db f a = ack-IsAuthentic bolt crypto opts id db a

  open_db-IsAuthentic : IsAuthentic bolt crypto opts (open_db bolt)
  unfolding open_db
  open_db-IsAuthentic = record {
    consistent = IsConsistent-open_db bolt;
    proved = λ k e p. cc (bolt.get-empty Enrollment k);
  }

  pub Served-IsAuthentic : {db : Db bolt} → Served db → IsAuthentic bolt crypto opts db
  Served-IsAuthentic opened = open_db-IsAuthentic
  Served-IsAuthentic (then_served {db = db} c f s) = serve-IsAuthentic c db f (Served-IsAuthentic s)

  -- After any sequence of enrollment calls from a new database, whichever of them fail, where
  -- each new enrollment has an id that no stored one has: an enrollment that is approved or
  -- active has a node id that is the hash of its public key, and some signature over its
  -- challenge verifies under that key.
  pub provisioned_is_signed :
      {db : Db bolt} (k : String) (e : Enrollment)
      → Served db
      → (get_enrollment bolt k db).0 ≡ ok e
      → is_provisioned e.status ≡ true
      → (node_id_from_public_key_der crypto e.public_key ≡ e.node_id)
        × (sig : Bytes) × (verify_signature crypto e.public_key e.challenge sig ≡ some true)
  unfolding get_enrollment
  provisioned_is_signed k e s at h =
      let p = (Served-IsAuthentic s).proved k e (found-eq-ok _ at) in
      let (sig, valid) = p.signed (proved_of_provisioned e.status h) in (p.named, sig, valid)
