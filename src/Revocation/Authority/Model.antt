-- ===== src/Revocation/Authority/Model.antt =====
-- The authority model of specification sections 13.1 and 13.3, as relations.
use adtp.Prelude.{◌≡◌, refl, ◌↔◌, true, some, List, arith, ok, contains}
use adtp.Revocation.Authority.{
  RevocationAuthority, platform, hop_issuer, subject, sponsor, RevocationScope, credential, subtree,
  identity, RevocationStatus, revoked, suspended, reinstated, compromised, decommissioned, cascade,
  RevocationStatus-eq, RevocationScope-eq, authority_statuses, authority_scopes, status_eq,
  scope_eq, validate_authority, validate_reinstatement,
}

-- Who may set which status.
pub data MaySet : RevocationAuthority → RevocationStatus → Type 0 where
  platform_revokes : MaySet platform revoked
  platform_suspends : MaySet platform suspended
  platform_reinstates : MaySet platform reinstated
  platform_compromises : MaySet platform compromised
  platform_decommissions : MaySet platform decommissioned
  platform_cascades : MaySet platform cascade
  issuer_revokes : MaySet hop_issuer revoked
  issuer_suspends : MaySet hop_issuer suspended
  issuer_reinstates : MaySet hop_issuer reinstated
  subject_revokes : MaySet subject revoked
  subject_compromises : MaySet subject compromised
  sponsor_revokes : MaySet sponsor revoked
  sponsor_compromises : MaySet sponsor compromised
  sponsor_decommissions : MaySet sponsor decommissioned

-- Who may revoke with which breadth.
pub data MayUse : RevocationAuthority → RevocationScope → Type 0 where
  platform_credential : MayUse platform credential
  platform_subtree : MayUse platform subtree
  platform_identity : MayUse platform identity
  issuer_credential : MayUse hop_issuer credential
  issuer_subtree : MayUse hop_issuer subtree
  subject_credential : MayUse subject credential
  subject_identity : MayUse subject identity
  sponsor_identity : MayUse sponsor identity

-- The rank of section 13.3.
pub data Outranks : RevocationAuthority → RevocationAuthority → Type 0 where
  itself : {a : RevocationAuthority} {s : RevocationStatus} → MaySet a s → Outranks a a
  issuer_subject : Outranks hop_issuer subject
  sponsor_subject : Outranks sponsor subject
  sponsor_issuer : Outranks sponsor hop_issuer
  platform_subject : Outranks platform subject
  platform_issuer : Outranks platform hop_issuer
  platform_sponsor : Outranks platform sponsor

ruleset status_rules = (
  platform_revokes, platform_suspends, platform_reinstates, platform_compromises,
  platform_decommissions, platform_cascades, issuer_revokes, issuer_suspends, issuer_reinstates,
  subject_revokes, subject_compromises, sponsor_revokes, sponsor_compromises, sponsor_decommissions,
)

ruleset scope_rules = (
  platform_credential, platform_subtree, platform_identity, issuer_credential, issuer_subtree,
  subject_credential, subject_identity, sponsor_identity,
)

ruleset rank_rules = (
  itself, issuer_subject, sponsor_subject, sponsor_issuer, platform_subject, platform_issuer,
  platform_sponsor,
)

setter :
    (a : RevocationAuthority) (s : RevocationStatus) (c : RevocationScope)
    → validate_authority a s c ≡ ok tt
    → MaySet a s
unfolding validate_authority
setter platform s c h = grind (arith, status_rules, contains)
setter a s c h = grind (arith, status_rules, contains)

user :
    (a : RevocationAuthority) (s : RevocationStatus) (c : RevocationScope)
    → validate_authority a s c ≡ ok tt
    → MayUse a c
unfolding validate_authority
user platform s c h = grind (arith, scope_rules, contains)
user a s c h = grind (arith, scope_rules, contains)

status_allowed :
    {a : RevocationAuthority} {s : RevocationStatus}
    → MaySet a s
    → (xs : List RevocationStatus) × (authority_statuses a ≡ some xs) × (contains xs s ≡ true)
unfolding authority_statuses contains status_eq
status_allowed platform_revokes = (_, refl, refl)
status_allowed _ = (_, refl, refl)

scope_allowed :
    {a : RevocationAuthority} {c : RevocationScope}
    → MayUse a c
    → contains (authority_scopes a) c ≡ true
unfolding authority_scopes contains scope_eq
scope_allowed platform_credential = refl
scope_allowed _ = refl

validated :
    {a : RevocationAuthority} {s : RevocationStatus} {c : RevocationScope}
    → MaySet a s
    → MayUse a c
    → validate_authority a s c ≡ ok tt
unfolding validate_authority
validated m u =
    let (xs, e, f) = status_allowed m in rw (e, validate_authority) (rw f (rw (scope_allowed u)))

-- ValidateAuthority accepts exactly the statuses and scopes that section 13.1 gives the authority.
pub validate_authority_iff :
    (a : RevocationAuthority) (s : RevocationStatus) (c : RevocationScope)
    → (validate_authority a s c ≡ ok tt) ↔ (MaySet a s × MayUse a c)
validate_authority_iff a s c = (λ h. (setter a s c h, user a s c h), λ (m, u). validated m u)

ranked_above : (a b : RevocationAuthority) → validate_reinstatement a b ≡ ok tt → Outranks a b
unfolding validate_reinstatement
ranked_above platform b h =
    grind (arith, rank_rules, platform_revokes, issuer_revokes, subject_revokes, sponsor_revokes)
ranked_above a b h =
    grind (arith, rank_rules, platform_revokes, issuer_revokes, subject_revokes, sponsor_revokes)

self_rank :
    {a : RevocationAuthority} {s : RevocationStatus}
    → MaySet a s
    → validate_reinstatement a a ≡ ok tt
unfolding validate_reinstatement
self_rank platform_revokes = refl
self_rank _ = refl

ranked : {a b : RevocationAuthority} → Outranks a b → validate_reinstatement a b ≡ ok tt
unfolding validate_reinstatement
ranked (itself m) = self_rank m
ranked issuer_subject = refl
ranked _ = refl

-- ValidateReinstatement accepts exactly a reinstater that is the suspender or ranks above it, in the
-- order platform, sponsor, hop issuer, subject.
validate_reinstatement_iff :
    (a b : RevocationAuthority) → (validate_reinstatement a b ≡ ok tt) ↔ Outranks a b
validate_reinstatement_iff a b = (ranked_above a b, ranked)
