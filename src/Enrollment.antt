-- ===== src/Enrollment.antt =====
-- internal/enrollment/enrollment.go: the controller's side of the enrollment of a node.
-- A handler takes the database and returns its result and the database that it leaves. The clock, the
-- id generator and the entropy of one call are its `Env`; the cryptography is the interface `Crypto`.
pub mod Authentic
pub mod Outcomes
pub mod Decisions
pub mod Adoption
pub mod Trust
pub mod Frame
mod Tests
use omm.Prelude.{
  String, Bool, true, false, Option, none, some, List, [], ◌∷◌, ◌==◌, if◌then◌else◌, not, ◌||◌,
  is_empty,
}
use omm.Prelude.Int.{ℤ}
use omm.Models.{
  Bytes, Node, Profile, Enrollment, Status, pending_verification, pending_approval, approved,
  active, rejected,
}
use omm.Identity.{Crypto, node_id_from_public_key_der, verify_signature}
use mathlib.Core.Option
use omm.Store.Bolt.{Bolt}
use omm.Store.Result.{Error, not_found, ok, err}
use omm.Store.Reads.{to_option}
use omm.Store.Db.{Db, Exec}
use omm.Store.Records.{get_node, create_node, get_profile}
use omm.Store.Enrollments.{
  create_enrollment, get_enrollment, get_enrollment_by_node_id, list_enrollments, update_enrollment,
  eq_status,
}

-- `AdoptPolicy`; the `default` case of its switch is `off`.
pub data AdoptPolicy : Type 0 where
  off onlink always : AdoptPolicy

unfoldable pub auto_adopt : AdoptPolicy → Bool → Bool
auto_adopt always peer_on_link = true
auto_adopt onlink peer_on_link = peer_on_link
auto_adopt off peer_on_link = false

-- A Home CA: `IssueCert`, where `none` is an error, and `CertificatePEM`.
pub record Ca : Type 0 where
  pub issue_cert : Bytes → Option Bytes
  pub certificate_pem : Bytes

pub record Options : Type 0 where
  pub home_id : String
  pub adopt_policy : AdoptPolicy
  pub ca : Option Ca

-- `opts.Now()`, `opts.NewID()`, and the bytes that `opts.Rand` gives, or `none` if it fails.
pub record Env : Type 0 where
  pub now : ℤ
  pub new_id : String
  pub entropy : Option Bytes

pub record RequestInput : Type 0 where
  pub node_id : String
  pub serial : String
  pub public_key : Bytes

pub record RequestResult : Type 0 where
  pub enrollment_id : String
  pub challenge : Bytes

pub record VerifyInput : Type 0 where
  pub enrollment_id : String
  pub signature : Bytes

-- `Result`, with nil fields as `none`.
pub record Reply : Type 0 where
  pub status : Status
  pub home_id : String
  pub profile : Option Profile
  pub certificate : Option Bytes
  pub ca_certificate : Option Bytes

pub data Fault : Type 0 where
  missing_fields identity_mismatch no_entropy invalid_signature not_adoptable : Fault
  storage : Error → Fault

pub data Outcome (A : Type 0) : Type 0 where
  done : A → Outcome A
  fault : Fault → Outcome A

-- The node gets the profile and a certificate once it is approved or active.
unfoldable pub is_provisioned : Status → Bool
is_provisioned approved = true
is_provisioned active = true
is_provisioned _ = false

module _ (bolt : Bolt) (crypto : Crypto) (opts : Options) where
  -- What a handler does to the database.
  abbrev pub Handler : Type 0 → Type 0
  Handler A = Db bolt → Outcome A × Db bolt

  -- A call of the repository, whose error the handler returns.
  abbrev pub calling : {A B : Type 0} → Exec bolt A → (A → Handler B) → Handler B
  calling call rest db =
      let (r, db') = call db in elim r [ ok a ↦ rest a db' | err e ↦ (fault (storage e), db') ]

  -- The certificate for a key that is not empty, if the Home has a CA and it issues one.
  unfoldable pub issued : Bytes → Option Bytes
  issued key = elim opts.ca [
    | none ↦ none
    | some ca ↦ if is_empty key then none else ca.issue_cert key
  ]

  unfoldable pub ca_certificate : Option Bytes → Option Bytes
  ca_certificate none = none
  ca_certificate (some cert) = Option.map (λ (ca : Ca). ca.certificate_pem) opts.ca

  unfoldable pub result : Enrollment → Db bolt → Reply
  unfolding is_provisioned issued ca_certificate
  result e db =
      if is_provisioned e.status
      then record {
        status = e.status;
        home_id = e.home_id;
        profile = to_option (get_profile bolt e.home_id db).0;
        certificate = issued e.public_key;
        ca_certificate = ca_certificate (issued e.public_key);
      }
      else record {
        status = e.status;
        home_id = e.home_id;
        profile = none;
        certificate = none;
        ca_certificate = none;
      }

  abbrev pub replying : Enrollment → Handler Reply
  replying e db = (done (result e db), db)

  -- The record is stored with the status, and the reply is made from it.
  unfoldable pub set_status : Status → Enrollment → Handler Reply
  unfolding result
  set_status status e =
      let e' = record e { status = status } in calling (update_enrollment bolt e') λ _. replying e'

  unfoldable pub node_of : Env → Enrollment → Node
  node_of env e = record {
    id = e.node_id;
    serial = e.serial;
    current_home = e.home_id;
    trusted_homes = e.home_id ∷ [];
    last_seen = env.now;
  }

  -- The node's inventory record is created only if there is none.
  unfoldable pub approve : Env → Enrollment → Handler Reply
  unfolding set_status node_of
  approve env e db =
      let (r, db') = get_node bolt e.node_id db in
      elim r [
        | ok n ↦ set_status approved e db'
        | err not_found ↦
            calling (create_node bolt (node_of env e)) (λ _. set_status approved e) db'
        | err x ↦ (fault (storage x), db')
      ]

  -- The two cases of `Request`, by what the node index has.
  abbrev pub reissued : RequestInput → Bytes → Enrollment → Enrollment
  reissued input challenge existing = record existing {
    serial = input.serial;
    public_key = input.public_key;
    challenge = challenge;
    status = pending_verification;
  }

  abbrev pub challenging : String → Bytes → Handler RequestResult
  challenging id challenge db = (done (record { enrollment_id = id; challenge = challenge }), db)

  unfoldable pub reissue : RequestInput → Bytes → Enrollment → Handler RequestResult
  reissue input challenge existing =
      calling (update_enrollment bolt (reissued input challenge existing))
        λ _. challenging existing.id challenge

  abbrev pub fresh_enrollment : Env → RequestInput → Bytes → Enrollment
  fresh_enrollment env input challenge = record {
    id = env.new_id;
    node_id = input.node_id;
    serial = input.serial;
    public_key = input.public_key;
    challenge = challenge;
    status = pending_verification;
    home_id = opts.home_id;
    created_at = env.now;
  }

  unfoldable pub enroll : Env → RequestInput → Bytes → Handler RequestResult
  enroll env input challenge =
      calling (create_enrollment bolt (fresh_enrollment env input challenge))
        λ _. challenging env.new_id challenge

  unfoldable pub challenge_node : Env → RequestInput → Bytes → Handler RequestResult
  unfolding reissue enroll
  challenge_node env input challenge db =
      let (r, db') = get_enrollment_by_node_id bolt input.node_id db in
      elim r [
        | ok existing ↦ reissue input challenge existing db'
        | err not_found ↦ enroll env input challenge db'
        | err x ↦ (fault (storage x), db')
      ]

  unfoldable pub request : Env → RequestInput → Handler RequestResult
  unfolding challenge_node
  request env input db =
      if input.node_id == "" || is_empty input.public_key
      then (fault missing_fields, db)
      else if not (node_id_from_public_key_der crypto input.public_key == input.node_id)
      then (fault identity_mismatch, db)
      else elim env.entropy [
        | none ↦ (fault no_entropy, db)
        | some challenge ↦ challenge_node env input challenge db
      ]

  -- The policy adopts the node at once, or leaves it to the operator.
  unfoldable pub settle : Env → Bool → Enrollment → Handler Reply
  unfolding result approve auto_adopt
  settle env peer_on_link e =
      if auto_adopt opts.adopt_policy peer_on_link then approve env e else replying e

  -- A signature that verifies moves the enrollment to pending approval, whatever its status was.
  unfoldable pub verified : Env → Bool → Enrollment → Handler Reply
  unfolding settle
  verified env peer_on_link e =
      let e' = record e { status = pending_approval } in
      calling (update_enrollment bolt e') λ _. settle env peer_on_link e'

  -- What `Verify` does with the enrollment that it finds.
  unfoldable pub check_signature : Env → Bool → VerifyInput → Enrollment → Handler Reply
  unfolding verified
  check_signature env peer_on_link input e db =
      elim (verify_signature crypto e.public_key e.challenge input.signature) [
        | some true ↦ verified env peer_on_link e db
        | _ ↦ (fault invalid_signature, db)
      ]

  unfoldable pub verify : Env → Bool → VerifyInput → Handler Reply
  unfolding check_signature
  verify env peer_on_link input =
      calling (get_enrollment bolt input.enrollment_id) (check_signature env peer_on_link input)

  unfoldable pub adopt_pending : Env → Enrollment → Handler Reply
  unfolding approve
  adopt_pending env e db =
      if eq_status e.status pending_approval then approve env e db else (fault not_adoptable, db)

  unfoldable pub adopt : Env → String → Handler Reply
  unfolding adopt_pending
  adopt env node_id = calling (get_enrollment_by_node_id bolt node_id) (adopt_pending env)

  unfoldable pub list : Option Status → Handler (List Enrollment)
  list status = calling (list_enrollments bolt status) λ es db. (done es, db)

  unfoldable pub list_pending : Handler (List Enrollment)
  unfolding list
  list_pending = list (some pending_approval)

  unfoldable pub reject : String → Handler Reply
  unfolding set_status
  reject node_id = calling (get_enrollment_by_node_id bolt node_id) (set_status rejected)

  unfoldable pub get : String → Handler Reply
  unfolding result
  get id = calling (get_enrollment bolt id) replying

  unfoldable pub ack_found : Enrollment → Handler Reply
  unfolding set_status
  ack_found e = if eq_status e.status approved then set_status active e else replying e

  unfoldable pub ack : String → Handler Reply
  unfolding ack_found
  ack id = calling (get_enrollment bolt id) ack_found
