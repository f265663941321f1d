-- ===== src/Verify/Config.antt =====
-- The verifier's configuration and the records of internal/verify, without the code that uses them.
-- Interfaces are the functions that the verifier calls. The clock, the risk classifier and the order
-- of iteration over a Go map are given from outside; OnSlow, latencies and loggers are left out.
use adtp.Prelude.{Bool, Option, List, Text, ℤ, Result}
use adtp.Credential.Capability.{Capability}
use adtp.Delegation.{Chain, ProofStore}
use adtp.Revocation.Entry.{RevocationEntry}
use adtp.Verify.Errors.{RiskTier, VerificationError}
use adtp.Verify.Caveats.{Params}

pub record TrustPolicy : Type 0 where
  pub platforms : List Text
  pub max_delegation_depth : ℤ

pub data LookupErr : Type 0 where
  lookup_failed : LookupErr

pub record VerifierConfig : Type 0 where
  pub verifier_did : Text
  pub trusted_root_dids : Text → Bool
  pub max_chain_depth : ℤ
  pub clock_skew_seconds : ℤ
  pub risk_tier_fn : Option (Text → RiskTier)
  pub proof_store : Option ProofStore
  pub revocation_cache : Option (Text → Result LookupErr (Option RevocationEntry))
  pub registration_store : Option (Text → Text → Bool)
  pub trust_policies : List TrustPolicy
  pub audit_log : Bool
  pub expected_channel_binding : Text
  pub start_time : ℤ
  pub metering_enabled : Bool

pub record OnBehalfOf : Type 0 where
  pub principal : Text
  pub authorization_cid : Text
  pub action : Text
  pub resource : Text

pub record InvocationRun : Type 0 where
  pub delegation_cid : Text
  pub action : Text
  pub resource : Text
  pub parameters : Params

pub record UcanInvocation : Type 0 where
  pub typ : Text
  pub iss : Text
  pub aud : Text
  pub iat : ℤ
  pub exp : ℤ
  pub nonce : Text
  pub cb : Text
  pub obo : Option OnBehalfOf
  pub run : InvocationRun
  pub sig : Text

-- The readings of the clock during one verification, in seconds, and two in nanoseconds that the
-- nonce cache makes.
pub record Clock : Type 0 where
  pub temporal : ℤ
  pub authorization : ℤ
  pub possession : ℤ
  pub nonce_stored : ℤ
  pub nonce_tested : ℤ
  pub audit : ℤ
  pub append : ℤ

pub record VerificationResult : Type 0 where
  pub accepted : Bool
  pub chain : Option Chain
  pub authorized_capability : Option Capability
  pub error : Option VerificationError
