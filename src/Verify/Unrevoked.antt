-- ===== src/Verify/Unrevoked.antt =====
-- internal/verify/steps.go: step 6, the revocation status of every subject of the chain.
pub mod Denied
pub mod Cascaded
use adtp.Prelude.{
  Bool, true, false, Option, none, some, List, [], ◌∷◌, Text, Text-eq, ℕ-eq, ℤ-eq, contains,
  if◌then◌else◌, Result, ok, err,
}
use adtp.Delegation.{ChainElement, Chain}
use adtp.Revocation.Authority.{RevocationStatus}
use adtp.Revocation.Authority
use adtp.Revocation.Entry.{RevocationEntry}
use adtp.Verify.Errors.{VerificationError, ErrorCode, RiskTier, high, medium, verr}
use adtp.Verify.Errors
use adtp.Verify.Config.{LookupErr, VerifierConfig}
use adtp.Verify.Elements.{Step, elem_aud}

unfoldable pub status_error : RevocationStatus → Option VerificationError
status_error Authority.revoked = some (verr 6 Errors.revoked)
status_error Authority.decommissioned = some (verr 6 Errors.revoked)
status_error Authority.suspended = some (verr 6 Errors.suspended)
status_error Authority.compromised = some (verr 6 Errors.compromised)
status_error Authority.cascade = some (verr 6 Errors.compromised)
status_error _ = none

-- The set of subjects: every element's CID and audience, each once.
add_subject : Text → List Text → List Text
unfolding contains
add_subject s ss = if contains ss s then ss else s ∷ ss

unfoldable pub subjects : List ChainElement → List Text
unfolding add_subject elem_aud
subjects [] = []
subjects (e ∷ es) = add_subject e.cid (add_subject (elem_aud e) (subjects es))

-- What one lookup says: deny, or go on.
unfoldable pub is_high : RiskTier → Bool
is_high high = true
is_high _ = false

entry_error : Option RevocationEntry → Option VerificationError
unfolding status_error
entry_error none = none
entry_error (some e) = status_error e.status

unfoldable pub subject_error :
    RiskTier → Result LookupErr (Option RevocationEntry) → Option VerificationError
unfolding is_high entry_error
subject_error tier (err e) = if is_high tier then some (verr 6 Errors.revoc_unavailable) else none
subject_error tier (ok entry) = entry_error entry

unfoldable pub check_subjects :
    (Text → Result LookupErr (Option RevocationEntry)) → RiskTier → List Text → Step
unfolding subject_error
check_subjects lookup tier [] = ok tt
check_subjects lookup tier (s ∷ ss) =
    let rest = check_subjects lookup tier ss in
    elim (subject_error tier (lookup s)) [ none ↦ rest | some e ↦ err e ]

-- `iterate` is the order in which Go visits the set.
unfoldable pub step6_revocation : (List Text → List Text) → Chain → VerifierConfig → RiskTier → Step
unfolding subjects check_subjects
step6_revocation iterate chain config tier = elim config.revocation_cache [
  | none ↦ ok tt
  | some lookup ↦ check_subjects lookup tier (iterate (subjects chain.elements))
]
