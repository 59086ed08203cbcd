-- ===== src/Client/Tests.antt =====
-- The theorems about the client, against a controller that adopts every node and one that is silent.
use Prim.Native.Nat.{compare, Ordering}
use omm.Prelude.{
  ◌≡◌, refl, ℕ, eqb, true, false, Bool, Option, none, some, [], ◌∷◌, ◌==◌, if◌then◌else◌,
}
use omm.Prelude.Int.{pos}
use omm.Models.{Bytes, Home, Enrollment, Status-discrete, active}
use omm.Identity.{Crypto, ecdsa, node_id_from_public_key_der, verify_signature}
use omm.Store.Memory.{memory}
use omm.Store.Result.{ok}
use omm.Store.Reads.{certificate_or, to_option}
use omm.Store.Db.{Db, open_db}
use omm.Store.Records.{get_home, get_node, create_node, get_profile, upsert_home}
use omm.Store.Invariant.{IsConsistent-open_db}
use omm.Store.Enrollments.{
  get_enrollment, get_enrollment_by_node_id, create_enrollment, update_enrollment,
}
use omm.Enrollment.{Options, Env, Reply, off, always, is_provisioned}
use omm.Enrollment as Enrollment
use omm.Api.Response.{Response, Body, write_json}
use omm.Api.Enroll.{enroll_request, enroll_verify, enroll_status, enroll_ack}
use omm.Client.Lifecycle.{unclaimed, fire}
use omm.Client.{
  Identity, Tls, plain, Controller, Message, post_request, get_home as asks_home, enroll_with,
  exchange, prove, await, poll, wait_for_approval, confirm, acknowledge, decoded, is_success,
  verdict, sign, join, join_and_record, remote_home,
}
use omm.Client.Settled.{enroll_settles, ended}
use omm.Client.Recorded.{pinned_home, join_and_record_home}
use omm.Client.Service.{service, serve_message}

abbrev same_bytes : Bytes → Bytes → Bool
same_bytes [] [] = true
same_bytes (a ∷ xs) (b ∷ ys) = elim (compare a b) [ Ordering.eq ↦ same_bytes xs ys | _ ↦ false ]
same_bytes _ _ = false

abbrev toy : Crypto
toy = record {
  Key = Bytes;
  sha256 = λ bs. bs;
  parse_pkix_public_key = λ bs. some (ecdsa bs);
  verify_asn1 = λ key digest sig. same_bytes digest sig;
}

abbrev options : Options
options = record { home_id = "attic"; adopt_policy = always; ca = none }

abbrev env : Env
env = record { now = pos 5; new_id = "e1"; entropy = some (9 ∷ []) }

abbrev device : Identity
device = record {
  public_key_der = 10 ∷ [];
  private_key_pem = [];
  sign_asn1 = λ digest. some digest;
}

abbrev reply : Reply
reply = record {
  status = active;
  home_id = "attic";
  profile = none;
  certificate = none;
  ca_certificate = none;
}

abbrev alone : ℕ → Db memory → Db memory
alone n db = db

-- The operator adopts the node before the third call, which is the first poll.
abbrev operated : ℕ → Db memory → Db memory
operated n db =
    if eqb n 2
    then (Enrollment.adopt memory toy (record options { adopt_policy = off }) env "0a" db).1
    else db

polled :
    (enroll_with toy
      (service memory toy (record options { adopt_policy = off }) env false operated)
      1
      plain
      device
      "s1"
      unclaimed
      (record { calls = 0; db = open_db memory })).0
    ≡ some reply
unfolding enroll_with exchange fire prove await poll wait_for_approval confirm acknowledge decoded
    is_success verdict sign serve_message enroll_request enroll_verify enroll_status enroll_ack
    Enrollment.request Enrollment.verify Enrollment.ack Enrollment.get Enrollment.adopt
    Enrollment.is_provisioned memory open_db node_id_from_public_key_der verify_signature
    Status-discrete get_enrollment get_enrollment_by_node_id create_enrollment update_enrollment
    create_node get_node get_profile
polled = refl

-- A controller that does not answer.
abbrev silent : Controller
silent = record { Peer = Unit {0}; send = λ transport message p. (none, p) }

enroll_settles_example :
    (enroll_with toy silent 3 plain device "s1" unclaimed tt).1
    ≡ ended (enroll_with toy silent 3 plain device "s1" unclaimed tt).0
enroll_settles_example = enroll_settles toy silent 3 plain device "s1" tt

abbrev attic : Home
attic = record {
  id = "";
  name = "The attic";
  controller = "c1";
  bssid = "";
  certificate = [];
  last_seen = pos 1;
}

abbrev certified : Reply
certified = record reply { certificate = some (1 ∷ []); ca_certificate = some (2 ∷ []) }

-- A controller that grants at once, and knows its Home.
abbrev generous : Message → Unit {0} → Option Response × Unit {0}
generous (post_request input) p = (
  some (write_json 200 (Body.challenge_body (record { enrollment_id = "e1"; challenge = [] }))),
  p,
)
generous (asks_home id) p = (some (write_json 200 (Body.home_body attic)), p)
generous _ p = (some (write_json 200 (Body.reply_body certified)), p)

abbrev granting : Controller
granting = record { Peer = Unit {0}; send = λ transport. generous }

abbrev tls : Tls
tls = record { x509_key_pair = λ leaf key. true; append_certs_from_pem = λ ca. true }

join_and_record_home_example :
    let joined =
      pinned_home toy granting memory tls
        (pos 7)
        0
        device
        "https://c1"
        "s1"
        tt
        (open_db memory)
        "attic"
        (2 ∷ [])
        attic in
    (get_home memory "attic"
      (join_and_record toy granting memory tls
        (pos 7)
        0
        device
        "https://c1"
        "s1"
        tt
        (open_db memory)).2).0
    ≡ (if joined.id == "attic"
        then ok (record joined {
          certificate =
              certificate_or joined.certificate
                (to_option (get_home memory joined.id (open_db memory)).0);
        })
        else (get_home memory "attic" (open_db memory)).0)
unfolding join enroll_with exchange fire prove await confirm acknowledge decoded is_success verdict
    sign memory open_db node_id_from_public_key_der Status-discrete remote_home upsert_home
join_and_record_home_example =
    join_and_record_home toy granting memory tls (pos 7) 0 device "https://c1" "s1" tt
      (open_db memory) certified attic (1 ∷ []) (2 ∷ []) "attic" refl refl
      (refl, refl, refl, refl, refl, refl, refl) refl (IsConsistent-open_db memory) refl
