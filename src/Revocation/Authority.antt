-- ===== src/Revocation/Authority.antt =====
-- internal/revocation/authority.go: the authority model.
-- The three enumerations are Go strings, so a value outside the constants is possible (`other`).
pub mod Model
use adtp.Prelude.{
  ℕ, ◌≡◌, refl, ◌↔◌, Bool, true, false, Option, none, some, List, [], ◌∷◌, arith, ltb, Text,
  Text-eq, Eq, ◌==◌, eq_iff, contains, if◌then◌else◌, Result, ok, err,
}

pub data RevocationAuthority : Type 0 where
  platform hop_issuer subject sponsor : RevocationAuthority
  other : Text → RevocationAuthority

pub data RevocationScope : Type 0 where
  credential subtree identity : RevocationScope
  other : Text → RevocationScope

pub data RevocationStatus : Type 0 where
  revoked suspended reinstated compromised decommissioned cascade : RevocationStatus
  other : Text → RevocationStatus

pub data AuthorityErr : Type 0 where
  unknown_authority status_not_permitted scope_not_permitted insufficient_authority : AuthorityErr

unfoldable pub status_eq : RevocationStatus → RevocationStatus → Bool
status_eq revoked revoked = true
status_eq suspended suspended = true
status_eq reinstated reinstated = true
status_eq compromised compromised = true
status_eq decommissioned decommissioned = true
status_eq cascade cascade = true
status_eq (RevocationStatus.other s) (RevocationStatus.other t) = s == t
status_eq _ _ = false

pub status_eq_iff : (s t : RevocationStatus) → (status_eq s t ≡ true) ↔ (s ≡ t)
unfolding status_eq
status_eq_iff (RevocationStatus.other s) (RevocationStatus.other t) = ground (arith, eq_iff s t)
status_eq_iff s t = ground arith

instance abbrev pub RevocationStatus-eq : Eq RevocationStatus
RevocationStatus-eq = record { beq = status_eq; beq_iff = status_eq_iff }

unfoldable pub scope_eq : RevocationScope → RevocationScope → Bool
scope_eq credential credential = true
scope_eq subtree subtree = true
scope_eq identity identity = true
scope_eq (RevocationScope.other s) (RevocationScope.other t) = s == t
scope_eq _ _ = false

pub scope_eq_iff : (s t : RevocationScope) → (scope_eq s t ≡ true) ↔ (s ≡ t)
unfolding scope_eq
scope_eq_iff (RevocationScope.other s) (RevocationScope.other t) = ground (arith, eq_iff s t)
scope_eq_iff s t = ground arith

instance abbrev pub RevocationScope-eq : Eq RevocationScope
RevocationScope-eq = record { beq = scope_eq; beq_iff = scope_eq_iff }

authority_statuses : RevocationAuthority → Option (List RevocationStatus)
authority_statuses platform =
    some (revoked ∷ suspended ∷ reinstated ∷ compromised ∷ decommissioned ∷ cascade ∷ [])
authority_statuses hop_issuer = some (revoked ∷ suspended ∷ reinstated ∷ [])
authority_statuses subject = some (revoked ∷ compromised ∷ [])
authority_statuses sponsor = some (revoked ∷ compromised ∷ decommissioned ∷ [])
authority_statuses (RevocationAuthority.other a) = none

-- Indexing a missing inner map finds nothing.
authority_scopes : RevocationAuthority → List RevocationScope
authority_scopes platform = credential ∷ subtree ∷ identity ∷ []
authority_scopes hop_issuer = credential ∷ subtree ∷ []
authority_scopes subject = credential ∷ identity ∷ []
authority_scopes sponsor = identity ∷ []
authority_scopes (RevocationAuthority.other a) = []

authority_rank : RevocationAuthority → Option ℕ
authority_rank subject = some 1
authority_rank hop_issuer = some 2
authority_rank sponsor = some 3
authority_rank platform = some 4
authority_rank (RevocationAuthority.other a) = none

unfoldable pub validate_authority :
    RevocationAuthority → RevocationStatus → RevocationScope → Result AuthorityErr Unit
unfolding authority_statuses authority_scopes status_eq scope_eq contains
validate_authority authority status scope = elim (authority_statuses authority) [
  | none ↦ err unknown_authority
  | some statuses ↦
      if contains statuses status
      then if contains (authority_scopes authority) scope then ok tt else err scope_not_permitted
      else err status_not_permitted
]

unfoldable pub validate_reinstatement :
    RevocationAuthority → RevocationAuthority → Result AuthorityErr Unit
unfolding authority_rank
validate_reinstatement reinstater suspender = elim (authority_rank reinstater) [
  | none ↦ err unknown_authority
  | some r ↦ elim (authority_rank suspender) [
    | none ↦ err unknown_authority
    | some s ↦ if ltb r s then err insufficient_authority else ok tt
  ]
]
