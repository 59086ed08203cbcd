-- ===== src/Enrollment/Tests.antt =====
-- The theorems about enrollment at concrete inputs: a toy hash and signature scheme, over the
-- buckets of `Store.Memory`.
use Prim.Native.Nat.{compare, Ordering}
use omm.Prelude.{◌≡◌, ◌≢◌, refl, true, false, Bool, Option, none, some, [], ◌∷◌}
use omm.Prelude.Int.{pos}
use omm.Models.{
  Bytes, Node, Enrollment, Status, Status-discrete, pending_verification, pending_approval,
  approved, active,
}
use omm.Identity.{Crypto, ecdsa, node_id_from_public_key_der, verify_signature}
use omm.Store.Memory.{memory}
use omm.Store.Result.{ok}
use omm.Store.Db.{Db, open_db}
use omm.Store.Records.{get_node, create_node, get_profile}
use omm.Store.Enrollments.{
  get_enrollment, get_enrollment_by_node_id, create_enrollment, update_enrollment,
}
use omm.Enrollment.{
  Options, Env, RequestInput, VerifyInput, Reply, done, off, request, verify, adopt, ack,
  is_provisioned,
}
use omm.Enrollment.Outcomes.{node_or}
use omm.Enrollment.Decisions.{verify_decides, settled}
use omm.Enrollment.Adoption.{member_of, adopt_decides}
use omm.Enrollment.Trust.{
  requests, verifies, adopts, serve, Served, opened, then_served, provisioned_is_signed,
}

abbrev same_bytes : Bytes → Bytes → Bool
same_bytes [] [] = true
same_bytes (a ∷ xs) (b ∷ ys) = elim (compare a b) [ Ordering.eq ↦ same_bytes xs ys | _ ↦ false ]
same_bytes _ _ = false

-- The hash is the text itself, and a signature is a copy of what is signed.
abbrev toy : Crypto
toy = record {
  Key = Bytes;
  sha256 = λ bs. bs;
  parse_pkix_public_key = λ bs. some (ecdsa bs);
  verify_asn1 = λ key digest sig. same_bytes digest sig;
}

abbrev options : Options
options = record { home_id = "attic"; adopt_policy = off; ca = none }

abbrev env : Env
env = record { now = pos 5; new_id = "e1"; entropy = some (9 ∷ []) }

abbrev ask : RequestInput
ask = record { node_id = "0a"; serial = "s1"; public_key = 10 ∷ [] }

abbrev proof : VerifyInput
proof = record { enrollment_id = "e1"; signature = 9 ∷ [] }

abbrev forged : VerifyInput
forged = record { enrollment_id = "e1"; signature = 8 ∷ [] }

asked : Db memory
unfolding serve request verify adopt ack memory open_db node_id_from_public_key_der verify_signature
    Status-discrete get_enrollment get_enrollment_by_node_id create_enrollment update_enrollment
    create_node get_node get_profile
asked = serve memory toy options (requests env ask) (open_db memory)

proved : Db memory
unfolding serve verify asked
proved = serve memory toy options (verifies env false proof) asked

adopted : Db memory
unfolding serve adopt proved
adopted = serve memory toy options (adopts env "0a") proved

abbrev pending : Enrollment
pending = record {
  id = "e1";
  node_id = "0a";
  serial = "s1";
  public_key = 10 ∷ [];
  challenge = 9 ∷ [];
  status = pending_verification;
  home_id = "attic";
  created_at = pos 5;
}

asked_stored : (get_enrollment memory "e1" asked).0 ≡ ok pending
unfolding memory asked get_enrollment
asked_stored = refl

abbrev reply_of : (s : Status) → Reply
reply_of s = record {
  status = s;
  home_id = "attic";
  profile = none;
  certificate = none;
  ca_certificate = none;
}

proof_accepted :
    (verify memory toy options env false proof asked).0 ≡ done (reply_of pending_approval)
unfolding memory asked verify verify_signature
proof_accepted = refl

verify_decides_example :
    (e : Enrollment) × ((get_enrollment memory "e1" asked).0 ≡ ok e)
    × (verify_signature toy e.public_key e.challenge (9 ∷ []) ≡ some true)
    × (pending_approval ≡ settled memory toy options false)
    × ((get_enrollment memory e.id (verify memory toy options env false proof asked).1).0
        ≡ ok (record e { status = settled memory toy options false }))
verify_decides_example =
    verify_decides memory toy options env false proof asked (reply_of pending_approval)
      proof_accepted

forged_refused :
    ◌≢◌ {A = Option Bool} (verify_signature toy (10 ∷ []) (9 ∷ []) (8 ∷ [])) (some true)
unfolding verify_signature
forged_refused h = cc

adoption_accepted : (adopt memory toy options env "0a" proved).0 ≡ done (reply_of approved)
unfolding memory proved adopt verify_signature
adoption_accepted = refl

adopt_decides_example :
    (e : Enrollment) × ((get_enrollment_by_node_id memory "0a" proved).0 ≡ ok e)
    × (e.status ≡ pending_approval)
    × ◌≡◌ {A = Status} approved approved
    × ((get_enrollment memory e.id (adopt memory toy options env "0a" proved).1).0
        ≡ ok (record e { status = approved }))
    × ((get_node memory e.node_id (adopt memory toy options env "0a" proved).1).0
        ≡ ok (node_or (member_of env.now e) (memory.get Node proved.nodes e.node_id)))
adopt_decides_example =
    adopt_decides memory toy options env "0a" proved (reply_of approved) adoption_accepted

asked_by_node : (get_enrollment_by_node_id memory "0a" asked).0 ≡ ok pending
unfolding memory asked get_enrollment_by_node_id
asked_by_node = refl

adopted_stored : (get_enrollment memory "e1" adopted).0 ≡ ok (record pending { status = approved })
unfolding memory adopted get_enrollment verify_signature
adopted_stored = refl

acknowledged : (ack memory toy options "e1" adopted).0 ≡ done (reply_of active)
unfolding memory adopted ack verify_signature
acknowledged = refl

adopted-Served : Served memory toy options adopted
unfolding adopted proved asked memory
adopted-Served =
    then_served (adopts env "0a") tt
      (then_served (verifies env false proof) tt (then_served (requests env ask) refl opened))

provisioned_is_signed_example :
    (node_id_from_public_key_der toy (10 ∷ []) ≡ "0a")
    × (sig : Bytes) × (verify_signature toy (10 ∷ []) (9 ∷ []) sig ≡ some true)
unfolding is_provisioned
provisioned_is_signed_example =
    provisioned_is_signed memory toy options "e1" (record pending { status = approved })
      adopted-Served adopted_stored refl
