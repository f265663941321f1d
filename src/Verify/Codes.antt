-- ===== src/Verify/Codes.antt =====
-- The texts of the error codes of internal/verify/errors.go, which the audit log records.
use adtp.Prelude.{Text, codes}
use adtp.Verify.Errors.{ErrorCode}
use adtp.Verify.Errors

unfoldable pub code_text : ErrorCode → Text
code_text Errors.sig_invalid = codes "AGENT_ERR_V001_SIG_INVALID"
code_text Errors.expired = codes "AGENT_ERR_V002_EXPIRED"
code_text Errors.not_yet_valid = codes "AGENT_ERR_V003_NOT_YET_VALID"
code_text Errors.revoked = codes "AGENT_ERR_V004_REVOKED"
code_text Errors.suspended = codes "AGENT_ERR_V005_SUSPENDED"
code_text Errors.compromised = codes "AGENT_ERR_V006_COMPROMISED"
code_text Errors.cap_insufficient = codes "AGENT_ERR_V007_CAPABILITY_INSUFFICIENT"
code_text Errors.attenuation = codes "AGENT_ERR_V008_ATTENUATION_VIOLATION"
code_text Errors.chain_broken = codes "AGENT_ERR_V009_CHAIN_BROKEN"
code_text Errors.chain_too_deep = codes "AGENT_ERR_V010_CHAIN_TOO_DEEP"
code_text Errors.circular = codes "AGENT_ERR_V011_CIRCULAR_DELEGATION"
code_text Errors.untrusted_root = codes "AGENT_ERR_V012_UNTRUSTED_ROOT"
code_text Errors.cross_org = codes "AGENT_ERR_V013_CROSS_ORG_VIOLATION"
code_text Errors.pop_failed = codes "AGENT_ERR_V014_POP_FAILED"
code_text Errors.expiry_escalate = codes "AGENT_ERR_V015_EXPIRY_ESCALATION"
code_text Errors.branching = codes "AGENT_ERR_V016_BRANCHING_UNSUPPORTED"
code_text Errors.malformed = codes "AGENT_ERR_V017_MALFORMED"
code_text Errors.cid_mismatch = codes "AGENT_ERR_V018_CID_MISMATCH"
code_text Errors.unregistered = codes "AGENT_ERR_V019_UNREGISTERED"
code_text Errors.revoc_unavailable = codes "AGENT_ERR_O001_REVOC_UNAVAILABLE"
code_text Errors.did_resolution = codes "AGENT_ERR_O002_DID_RESOLUTION_FAILED"
code_text Errors.clock_skew = codes "AGENT_ERR_O003_CLOCK_SKEW"
code_text Errors.proof_cache_miss = codes "AGENT_ERR_O004_PROOF_CACHE_MISS"
code_text Errors.key_storage = codes "AGENT_ERR_O005_KEY_STORAGE_UNAVAILABLE"
code_text Errors.trust_unavailable = codes "AGENT_ERR_O006_TRUST_POLICY_UNAVAILABLE"
code_text Errors.audit_unavailable = codes "AGENT_ERR_O007_AUDIT_LOG_UNAVAILABLE"
