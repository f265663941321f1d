-- ===== src/Api/Cascaded.antt =====
-- The report of a compromise, with the delegation before it and the verification after it, through the API.
use adtp.Prelude.{
  ℕ, ℤ, List, true, ◌≡◌, ◌≢◌, ◌↔◌, ◌⊎◌, inl, inr, refl, sym, subst, ◌∙◌, some, [], Text, Occurs, ok,
  ok_inj,
}
use adtp.Delegation.{Chain, build_chain}
use adtp.Revocation.Authority.{RevocationStatus, compromised, cascade}
use adtp.Revocation.Entry.{RevocationEntry}
use adtp.Revocation.Cache.{get_status}
use adtp.Api.Messages.{
  DelegateRequest, RevokeRequest, VerifyRequest, VerifyResponse, verified, decoded,
  delegation_issued, revocation_posted,
}
use adtp.Api.Service.{Env, Service, Daemon, Draws, proofs}
use adtp.Api.Handlers.{chain_cids, handle_delegate}
use adtp.Api.Delegated.{handle_delegate-Issued}
use adtp.Revocation.Cache.Sequence.{Keeps, Update, apply_all, apply_all-Keeps}
use adtp.Revocation.Registration.Links.{Linked}
use adtp.Store.Memory
use adtp.Verify.Unrevoked.Denied.{IsSubject, IsSubject-cases}
use adtp.Verify.Unrevoked.Cascaded.{Relieved, step6_revocation-Relieved}
use adtp.Api.Verification.{verifier_config, handle_verify}
use adtp.Api.Verification.Authorized.{IsAuthorized, handle_verify-IsAuthorized}
use adtp.Api.Revocations.{handle_revoke}
use adtp.Api.Revocations.Compromised.{handle_revoke-Revoked}

module _ (env : Env) (svc : Service) (delegating revoking : Draws) where
  -- When the API has delegated a credential, and an ancestor in the chain that BuildChain then finds for it is
  -- reported as compromised with success, GetStatus says CASCADE of the credential.
  pub handle_revoke-delegated :
      (req : DelegateRequest) (report : RevokeRequest) (d d' d'' : Daemon) (cid shown : Text)
      (chain : Chain) (seq : ℤ) (status : RevocationStatus) (n : ℕ)
      → handle_delegate env svc delegating (decoded req) d ≡ (d', delegation_issued cid shown)
      → build_chain env.world.codecs (proofs d') cid svc.config.verify.max_chain_depth ≡ ok chain
      → Occurs report.subject_cid (chain_cids chain)
      → cid ≢ report.subject_cid
      → handle_revoke env svc revoking (decoded report) d' ≡ (d'', revocation_posted seq status n)
      → report.status ≡ compromised
      → report.subject_cid ≢ []
      → (e : RevocationEntry) × (get_status d''.store.revocations cid ≡ some e)
        × (e.status ≡ cascade)
  handle_revoke-delegated req report d d' d'' cid shown chain seq status n delegated built o ne
        revoked c s =
      let (raw, _, _, registered) =
        handle_delegate-Issued env svc delegating req d d' cid shown delegated in
      let same : registered.chain ≡ chain = ok_inj (sym registered.built ∙ built) in
      let o' : Occurs report.subject_cid (chain_cids registered.chain) =
        subst (λ h. Occurs report.subject_cid (chain_cids h)) (sym same) o in
      let entries = handle_revoke-Revoked env svc revoking report d' d'' seq status n revoked c s in
      entries.descendants cid (registered.registered report.subject_cid o') ne

module _ (env : Env) (svc : Service) (revoking asking : Draws) where
  cache_read :
      (d : Daemon)
      → (verifier_config svc d).revocation_cache
        ≡ some (λ subject. ok (get_status d.store.revocations subject))
  unfolding verifier_config Memory.get_status
  cache_read d = refl

  -- Let a compromise be reported with success, and `k` be the compromised CID or a credential in whose registered
  -- chain it was. Whatever entries and lists the revocation cache is given from then on, a request is answered
  -- "authorized" only for a chain in which `k` is no element's CID or audience, unless `k` has since got an entry
  -- with a higher sequence whose status does not deny. (The iteration over a set is assumed to visit exactly its
  -- members.)
  pub handle_verify-handle_revoke :
      (report : RevokeRequest) (d d' d'' : Daemon) (seq : ℤ) (status : RevocationStatus) (n : ℕ)
      (us : List (Update env.world.codecs.crypto env.entries)) (req : VerifyRequest)
      (r : VerifyResponse) (k : Text)
      → ((xs : List Text) (x : Text) → Occurs x (env.world.iterate xs) ↔ Occurs x xs)
      → handle_revoke env svc revoking (decoded report) d ≡ (d', revocation_posted seq status n)
      → report.status ≡ compromised
      → report.subject_cid ≢ []
      → (k ≡ report.subject_cid) ⊎ Linked d.store.registrations k report.subject_cid
      → apply_all env.world.codecs.crypto env.entries d'.store.revocations us
        ≡ d''.store.revocations
      → (handle_verify env svc asking (decoded req) d'').1 ≡ verified r
      → r.authorized ≡ true
      → (a : IsAuthorized env svc asking req d'') × ((¬ IsSubject k a.chain.elements)
          ⊎ Relieved k d'.store.revocations d''.store.revocations)
  handle_verify-handle_revoke report d d' d'' seq status n us req r k visits revoked c s hit updates
        answered t =
      let entries = handle_revoke-Revoked env svc revoking report d d' seq status n revoked c s in
      let a = handle_verify-IsAuthorized env svc asking req d'' r answered t in
      let kept =
        subst (λ m. Keeps k d'.store.revocations.entries m.entries) updates
          (apply_all-Keeps env.world.codecs.crypto env.entries k d'.store.revocations us) in
      elim (IsSubject-cases k a.chain.elements) [
        | inr other ↦ (a, inl other)
        | inl subject ↦ (
          a,
          inr (
              step6_revocation-Relieved report.subject_cid d.store.registrations d.store.revocations
                d'.store.revocations d''.store.revocations env.world.iterate a.chain
                (verifier_config svc d'') _ k entries kept visits (cache_read d'') subject hit
                a.passed.unrevoked),
        )
      ]
