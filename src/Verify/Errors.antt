-- ===== src/Verify/Errors.antt =====
-- internal/verify/errors.go: error codes, their external form, and risk tiers.
-- A verification error keeps its step and its code; the text and the cause are for logs.
use adtp.Prelude.{ℕ}

pub data ErrorCode : Type 0 where
  sig_invalid expired not_yet_valid revoked suspended compromised : ErrorCode
  cap_insufficient attenuation chain_broken chain_too_deep circular untrusted_root : ErrorCode
  cross_org pop_failed expiry_escalate branching malformed cid_mismatch unregistered : ErrorCode
  revoc_unavailable did_resolution clock_skew proof_cache_miss key_storage : ErrorCode
  trust_unavailable audit_unavailable : ErrorCode

pub record VerificationError : Type 0 where
  pub step : ℕ
  pub code : ErrorCode

abbrev pub verr : ℕ → ErrorCode → VerificationError
verr step code = record { step = step; code = code }

pub data External : Type 0 where
  ext_malformed ext_denied ext_revoked ext_retry : External

-- VerificationError.External
unfoldable pub external : ErrorCode → External
external malformed = ext_malformed
external chain_broken = ext_malformed
external chain_too_deep = ext_malformed
external circular = ext_malformed
external branching = ext_malformed
external cid_mismatch = ext_malformed
external revoked = ext_revoked
external suspended = ext_revoked
external compromised = ext_revoked
external revoc_unavailable = ext_retry
external did_resolution = ext_retry
external proof_cache_miss = ext_retry
external trust_unavailable = ext_retry
external audit_unavailable = ext_retry
external _ = ext_denied

pub data RiskTier : Type 0 where
  analytics low medium high : RiskTier
