-- ===== src/Verify/Unrevoked/Denied.antt =====
-- What step 6 decides: which answers of the revocation cache let a chain pass.
use adtp.Prelude.{
  ◌≡◌, refl, ◌≢◌, ◌↔◌, ◌⊎◌, inl, inr, sym, subst, ◌∙◌, true, Option, none, some, List, [], ◌∷◌,
  arith, Text, Text-eq, contains, contains_iff, false-ne-true, Bool-cases, Occurs, Result, ok, err,
  Option-cases,
}
use adtp.Delegation.{ChainElement, Chain}
use adtp.Revocation.Authority.{RevocationStatus}
use adtp.Revocation.Authority
use adtp.Revocation.Entry.{RevocationEntry}
use adtp.Verify.Errors.{RiskTier, high}
use adtp.Verify.Errors
use adtp.Verify.Config.{LookupErr, VerifierConfig}
use adtp.Verify.Elements.{elem_aud}
use adtp.Verify.Unrevoked.{
  status_error, add_subject, subjects, is_high, entry_error, subject_error, check_subjects,
  step6_revocation,
}

-- `s` is the CID or the audience of an element.
abbrev pub IsSubject : Text → List ChainElement → Type 0
IsSubject s [] = ⊥
IsSubject s (e ∷ es) = (s ≡ e.cid) ⊎ (s ≡ elem_aud e) ⊎ IsSubject s es

-- A status that the code does not name, or a reinstatement.
abbrev pub Lifted : RevocationStatus → Type 0
Lifted Authority.reinstated = Unit
Lifted (Authority.other t) = Unit
Lifted Authority.revoked = ⊥
Lifted Authority.decommissioned = ⊥
Lifted Authority.suspended = ⊥
Lifted Authority.compromised = ⊥
Lifted Authority.cascade = ⊥

-- An answer that does not deny: a failed lookup outside the high tier, no entry, or a lifted one.
abbrev pub Clear : RiskTier → Result LookupErr (Option RevocationEntry) → Type 0
Clear tier (err e) = tier ≢ high
Clear tier (ok none) = Unit
Clear tier (ok (some e)) = Lifted e.status

status_error_iff : (st : RevocationStatus) → (status_error st ≡ none) ↔ Lifted st
unfolding status_error
status_error_iff Authority.revoked = ground arith
status_error_iff Authority.decommissioned = ground arith
status_error_iff Authority.suspended = ground arith
status_error_iff Authority.compromised = ground arith
status_error_iff Authority.cascade = ground arith
status_error_iff Authority.reinstated = ground arith
status_error_iff (Authority.other t) = ground arith

is_high_iff : (tier : RiskTier) → (is_high tier ≡ true) ↔ (tier ≡ high)
unfolding is_high
is_high_iff Errors.analytics = ground arith
is_high_iff Errors.low = ground arith
is_high_iff Errors.medium = ground arith
is_high_iff high = ground arith

subject_error_iff :
    (tier : RiskTier) (r : Result LookupErr (Option RevocationEntry))
    → (subject_error tier r ≡ none) ↔ Clear tier r
unfolding subject_error entry_error status_error is_high
subject_error_iff tier (err e) = ground (arith, is_high_iff tier)
subject_error_iff tier (ok none) = ground arith
subject_error_iff tier (ok (some e)) = status_error_iff e.status

add_subject_iff :
    (s t : Text) (ss : List Text) → Occurs s (add_subject t ss) ↔ ((s ≡ t) ⊎ Occurs s ss)
unfolding add_subject
add_subject_iff s t ss = ground (arith, contains_iff ss t)

pub subjects_iff : (es : List ChainElement) (s : Text) → Occurs s (subjects es) ↔ IsSubject s es
unfolding subjects
subjects_iff [] s = ground arith
subjects_iff (e ∷ es) s = ground (
  arith,
  add_subject_iff s e.cid (add_subject (elem_aud e) (subjects es)),
  add_subject_iff s (elem_aud e) (subjects es),
  subjects_iff es s,
)

check_subjects-cons :
    (lookup : Text → Result LookupErr (Option RevocationEntry)) (tier : RiskTier) (s : Text)
    (ss : List Text)
    → (check_subjects lookup tier (s ∷ ss) ≡ ok tt)
      ↔ ((subject_error tier (lookup s) ≡ none) × (check_subjects lookup tier ss ≡ ok tt))
unfolding check_subjects
check_subjects-cons lookup tier s ss = elim (Option-cases (subject_error tier (lookup s))) [
  | inl q ↦ ground (arith, q)
  | inr (e, q) ↦ ground (arith, q)
]

check_subjects_iff :
    (lookup : Text → Result LookupErr (Option RevocationEntry)) (tier : RiskTier) (ss : List Text)
    → (check_subjects lookup tier ss ≡ ok tt) ↔ ((s : Text) → Occurs s ss → Clear tier (lookup s))
unfolding check_subjects
check_subjects_iff lookup tier [] = (λ h s o. absurd o, λ h. refl)
check_subjects_iff lookup tier (s ∷ ss) = (
  λ h t o.
      let (p, q) = (check_subjects-cons lookup tier s ss).0 h in
      elim o [
        | inl e ↦
            subst (λ x. Clear tier (lookup x)) (sym e) ((subject_error_iff tier (lookup s)).0 p)
        | inr o ↦ (check_subjects_iff lookup tier ss).0 q t o
      ],
  λ h. (check_subjects-cons lookup tier s ss).1 (
    (subject_error_iff tier (lookup s)).1 (h s (inl refl)),
    (check_subjects_iff lookup tier ss).1 (λ t o. h t (inr o)),
  ),
)

pub IsSubject-cases : (s : Text) (es : List ChainElement) → IsSubject s es ⊎ (¬ IsSubject s es)
IsSubject-cases s es = elim (Bool-cases (contains (subjects es) s)) [
  | inl t ↦ inl ((subjects_iff es s).0 ((contains_iff (subjects es) s).0 t))
  | inr f ↦
      inr (λ o. false-ne-true (sym f ∙ (contains_iff (subjects es) s).1 ((subjects_iff es s).1 o)))
]

step6-check :
    (iterate : List Text → List Text) (chain : Chain) (config : VerifierConfig) (tier : RiskTier)
    (lookup : Text → Result LookupErr (Option RevocationEntry))
    → config.revocation_cache ≡ some lookup
    → step6_revocation iterate chain config tier
      ≡ check_subjects lookup tier (iterate (subjects chain.elements))
unfolding step6_revocation
step6-check iterate chain config tier lookup h = rw h refl

-- With a revocation cache, and an iteration that visits exactly the members of the set, step 6 passes
-- exactly if no answer about the CID or the audience of any element of the chain denies.
pub step6_revocation_iff :
    (iterate : List Text → List Text) (chain : Chain) (config : VerifierConfig) (tier : RiskTier)
    (lookup : Text → Result LookupErr (Option RevocationEntry))
    → ((xs : List Text) (s : Text) → Occurs s (iterate xs) ↔ Occurs s xs)
    → config.revocation_cache ≡ some lookup
    → (step6_revocation iterate chain config tier ≡ ok tt)
      ↔ ((s : Text) → IsSubject s chain.elements → Clear tier (lookup s))
step6_revocation_iff iterate chain config tier lookup keeps h = (
  λ passed s o.
      (check_subjects_iff lookup tier _).0
        (sym (step6-check iterate chain config tier lookup h) ∙ passed) s
        ((keeps _ s).1 ((subjects_iff chain.elements s).1 o)),
  λ clear.
      step6-check iterate chain config tier lookup h
      ∙ (check_subjects_iff lookup tier _).1
          (λ s o. clear s ((subjects_iff chain.elements s).0 ((keeps _ s).0 o))),
)
