-- ===== src/Api/Response.antt =====
-- What the handlers answer: the status codes of net/http that they use, and the bodies before they
-- are written as JSON.
use omm.Prelude.{String, ℕ, Bool, List}
use omm.Prelude.Int.{ℤ}
use omm.Models.{Home, Node, Profile, BackhaulState, Status}
use omm.Store.Result.{Error, not_found}
use omm.Enrollment.{
  Reply, RequestResult, Fault, identity_mismatch, invalid_signature, not_adoptable, storage,
}
use omm.Topology.{Graph}

abbrev pub status_ok : ℕ
status_ok = 200

abbrev pub status_created : ℕ
status_created = 201

abbrev pub status_accepted : ℕ
status_accepted = 202

abbrev pub status_no_content : ℕ
status_no_content = 204

abbrev pub status_bad_request : ℕ
status_bad_request = 400

abbrev pub status_unauthorized : ℕ
status_unauthorized = 401

abbrev pub status_not_found : ℕ
status_not_found = 404

abbrev pub status_conflict : ℕ
status_conflict = 409

abbrev pub status_internal_server_error : ℕ
status_internal_server_error = 500

abbrev pub status_bad_gateway : ℕ
status_bad_gateway = 502

-- The errors that a body tells of.
pub data ApiError : Type 0 where
  -- the body is not the JSON that is expected
  decoding : ApiError
  missing : List String → ApiError
  stored : Error → ApiError
  enrolling : Fault → ApiError
  home_unknown : String → ApiError
  other_home apply_profile home_in_use claimed no_ssid no_uplink no_scan : ApiError
  certificate_required no_join : ApiError

pub record EnrollmentSummary : Type 0 where
  pub id : String
  pub node_id : String
  pub serial : String
  pub status : Status
  pub home_id : String
  pub created_at : ℤ

pub record SetupResponse : Type 0 where
  pub setup_complete : Bool
  pub node_id : String
  pub serial : String
  pub home_id : String
  pub home_name : String

pub record ScanController : Type 0 where
  pub home_id : String
  pub name : String
  pub controller_id : String
  pub api : String

pub record HomeSelectionCandidate : Type 0 where
  pub home_id : String
  pub signal : ℤ
  pub last_active : ℤ
  pub self_controlled : Bool

pub record HomeSelectionResponse : Type 0 where
  pub recommended_home_id : String
  pub active_home_id : String
  pub candidates : List HomeSelectionCandidate

pub data Body : Type 0 where
  blank : Body
  failure : ApiError → Body
  status_response : String → Body
  management_status_response : String → BackhaulState → Body
  homes_response : List Home → Body
  home_body : Home → Body
  profile_response : Profile → Body
  nodes_response : List Node → Body
  node_body : Node → Body
  active_home_response : String → Body
  setup_response : SetupResponse → Body
  -- `{"setup_complete": true}` and `{"provisioned": true}`
  setup_completed uplink_provisioned : Body
  challenge_body : RequestResult → Body
  reply_body : Reply → Body
  enrollments_response : List EnrollmentSummary → Body
  graph_body : Graph → Body
  home_selection_body : HomeSelectionResponse → Body
  scan_response : List ScanController → Body

pub record Response : Type 0 where
  pub status : ℕ
  pub body : Body

abbrev pub write_json : ℕ → Body → Response
write_json status payload = record { status = status; body = payload }

unfoldable pub respond_error : ℕ → ApiError → Response
respond_error status e = write_json status (failure e)

-- `errors.Is(err, storage.ErrNotFound)` and the other cases, by the error that the service gives.
unfoldable pub enroll_error_status : Fault → ℕ
enroll_error_status (storage not_found) = status_not_found
enroll_error_status identity_mismatch = status_bad_request
enroll_error_status invalid_signature = status_unauthorized
enroll_error_status not_adoptable = status_conflict
enroll_error_status _ = status_internal_server_error

unfoldable pub respond_enroll_error : Fault → Response
unfolding respond_error enroll_error_status
respond_enroll_error e = respond_error (enroll_error_status e) (enrolling e)

-- The status of a store error in a handler that tells only ErrNotFound apart.
unfoldable pub store_error_status : Error → ℕ
store_error_status not_found = status_not_found
store_error_status _ = status_internal_server_error
