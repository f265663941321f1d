-- ===== src/Api/Messages.antt =====
-- pkg/adtp/types.go and errors.go: requests, responses and external codes. A response is the value that is
-- encoded, with the status; an error's text is left out. Of a request's JSON the members are left out that no
-- handler reads (metadata, exp_seconds of a delegation, reason). Scope and status are Go strings, read as in
-- internal/revocation.
use adtp.Prelude.{ℕ, ℤ, Bool, Option, List, [], Text, codes, Result, ok, err}
use adtp.Credential.Capability.{Capability, Constraint}
use adtp.Lifecycle.{AgentState}
use adtp.Revocation.Authority.{RevocationScope, RevocationStatus}
use adtp.Revocation.Entry.{RevocationList}
use adtp.Revocation.Reconciliation.{ReconciliationReport}
use adtp.Verify.Errors.{
  VerificationError, External, ext_malformed, ext_revoked, ext_retry, ext_denied, external,
  RiskTier,
}
use adtp.Verify.Caveats.{Params}

abbrev pub code_malformed : Text
code_malformed = codes "ADTP_MALFORMED"

abbrev pub code_denied : Text
code_denied = codes "ADTP_DENIED"

abbrev pub code_revoked : Text
code_revoked = codes "ADTP_REVOKED"

abbrev pub code_retry : Text
code_retry = codes "ADTP_RETRY"

abbrev pub code_rate_limited : Text
code_rate_limited = codes "ADTP_RATE_LIMITED"

class_code : External → Text
class_code ext_malformed = code_malformed
class_code ext_revoked = code_revoked
class_code ext_retry = code_retry
class_code ext_denied = code_denied

-- ExternalCode, of an error that is there.
unfoldable pub external_code : VerificationError → Text
unfolding external class_code
external_code e = class_code (external e.code)

pub record RegisterAgentRequest : Type 0 where
  pub sponsor_did : Text

pub record IssueCredentialRequest : Type 0 where
  pub agent_did : Text
  pub capabilities : List Capability
  pub exp_seconds : ℤ

pub record DelegateRequest : Type 0 where
  pub parent_cid : Text
  pub audience_did : Text
  pub caveats : List Constraint
  pub depth_left : ℤ

pub record VerifyRequest : Type 0 where
  pub chain_cids : List Text
  pub invocation : Text
  pub action : Text
  pub resource : Text
  pub parameters : Params

pub record RevokeRequest : Type 0 where
  pub subject_cid : Text
  pub subject_did : Text
  pub scope : RevocationScope
  pub status : RevocationStatus

pub record VerifyResponse : Type 0 where
  pub authorized : Bool
  pub chain_depth : ℕ
  pub risk_tier : RiskTier
  pub error_code : Text

pub record StatusResponse : Type 0 where
  pub cid : Text
  pub revoked : Bool
  pub status : Option RevocationStatus
  pub seq : ℤ

pub record AgentResponse : Type 0 where
  pub did : Text
  pub sponsor_did : Text
  pub state : AgentState
  pub registered_at : ℤ
  pub activated_at : ℤ

-- What a handler writes. A failure has its status and its external code, which may be empty.
pub data Response : Type 0 where
  failure : (status : ℕ) (code : Text) → Response
  agent_created : (did sponsor_did : Text) (state : AgentState) → Response
  credential_issued : (cid token : Text) → Response
  delegation_issued : (cid raw : Text) → Response
  verified : VerifyResponse → Response
  revocation_posted : (seq : ℤ) (status : RevocationStatus) (cascade_count : ℕ) → Response
  revocations_listed : RevocationList → Response
  status_found : StatusResponse → Response
  agent_found : AgentResponse → Response
  healthy : (platform_did : Text) → Response
  reconciled : ReconciliationReport → Response

abbrev pub bad_request : Response
bad_request = failure 400 code_malformed

abbrev pub server_error : Response
server_error = failure 500 []

-- What json.Decoder makes of a body that is limited to 64 KiB and may have no unknown members.
pub data Body (T : Type 0) : Type 0 where
  too_large malformed_json : Body T
  decoded : T → Body T

-- readJSON
unfoldable pub read_json : {T : Type 0} → Body T → Result Response T
read_json too_large = err (failure 413 code_malformed)
read_json malformed_json = err bad_request
read_json (decoded req) = ok req
