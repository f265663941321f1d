-- ===== src/Api/Revocations/Compromised.antt =====
-- POST /v1/revoke with a compromised credential.
use adtp.Prelude.{
  ℕ, ℤ, ◌≡◌, ◌≢◌, refl, sym, ap, ◌∙◌, ◌&&◌, not, [], Text, ok, err, map_err-eq-ok, Result-cases,
  err-ne-ok, lookup, lookup-insert, some, if◌then◌else◌, ◌==◌, Text-eq, eq_iff, Bool-cases, inl,
  inr,
}
use adtp.Prelude.Steps.{lift, >>=-eq-ok, lift-eq-ok, pure-eq-ok}
use adtp.Credential.Capability.{is_empty, is_empty-false}
use adtp.Revocation.Authority.{compromised, status_eq, RevocationStatus, RevocationStatus-eq}
use adtp.Revocation.Entry.{RevocationEntry, subject_key}
use adtp.Revocation.Cache.{MemoryRevocationCache}
use adtp.Revocation.Cache
use adtp.Revocation.Cache.Sequence.{revoke_iff}
use adtp.Revocation.Cascade.{append_audit, push_batch, execute_cascade}
use adtp.Revocation.Cascade.Posted.{KeepsEntries}
use adtp.Revocation.Cascade.Revoked.{Revoked, entry_of, execute_cascade-revokes}
use adtp.Revocation.Registration.{MemoryRegistrationIndex}
use adtp.Revocation.Registration
use adtp.Store.Memory
use adtp.Api.Messages.{
  RevokeRequest, Response, decoded, revocation_posted, failure, server_error, bad_request,
  code_denied,
}
use adtp.Api.Service.{Env, Service, Daemon, Draws, Handled, written, or_respond, append}
use adtp.Api.Service
use adtp.Api.Handlers.{refuse_if}
use adtp.Api.Outcome.{
  OnlyFails, decoded-ok, refuse_if-eq-ok, >>=-OnlyFails, lift-OnlyFails, map_err-Answered,
  fail_if-Answered, reading-OnlyFails, note-OnlyFails, or_respond-OnlyFails, pure-OnlyFails,
}
use adtp.Api.Revocations.{
  or_fail, cascade_services, post_cascade, post_entry, post, revoking, handle_revoke,
}

abbrev cache_of : Daemon → MemoryRevocationCache
cache_of d = d.store.revocations

abbrev index_of : Daemon → MemoryRegistrationIndex
index_of d = d.store.registrations

module _ (env : Env) (logged : ℕ → ℤ) where
  -- A Revoke that succeeds stores its entry.
  revoked :
      (e : RevocationEntry) (d d' : Daemon)
      → (cascade_services env logged).revoke e d ≡ (d', ok tt)
      → ((key : Text)
          → lookup key (cache_of d').entries
            ≡ (if subject_key e.subject == key then some e else lookup key (cache_of d).entries))
        × (d'.store.registrations ≡ d.store.registrations)
  unfolding cascade_services or_fail Service.revoke Memory.revoke
  revoked e d d' h =
      elim (Result-cases (Cache.revoke env.world.codecs.crypto env.entries (cache_of d) e)) [
        | err (f, q) ↦ absurd (err-ne-ok (ap (λ p. p.1) (rw (q, cascade_services) at h)))
        | ok (cache, q) ↦
            let (_, _, _, stored) =
              (revoke_iff env.world.codecs.crypto env.entries (cache_of d) cache e).0 q in
            let end : record d { store = record d.store { revocations = cache } } ≡ d' =
              ap (λ p. p.0) (rw (q, cascade_services) at h) in
            (
              λ key.
                  ap (λ t. lookup key (cache_of t).entries) (sym end)
                  ∙ ap (λ c. lookup key c.entries) stored
                  ∙ lookup-insert (subject_key e.subject) key e (cache_of d).entries,
              ap (λ t. t.store.registrations) (sym end),
            )
      ]

  cascade_services-KeepsEntries :
      KeepsEntries
        (cascade_services env logged)
        (entry_of (cascade_services env logged) cache_of index_of)
  unfolding cascade_services or_fail append push_batch append_audit
  cascade_services-KeepsEntries = record {
    revoked = λ e h. (revoked e _ _ h).0;
    pushed = λ batch h key. ap (λ r. lookup key (cache_of r.0).entries) (sym h);
    appended = λ event_type cid payload h key. ap (λ r. lookup key (cache_of r.0).entries) (sym h);
    revoked_finds =
        λ e h cid. ap (λ r. ok (Registration.find_descendants r cid)) ((revoked e _ _ h).1);
    appended_finds = λ event_type cid' payload h cid.
        ap (λ r. ok (Registration.find_descendants (index_of r.0) cid)) (sym h);
  }

  finds_index :
      (d : Daemon) (cid : Text)
      → (cascade_services env logged).find_descendants d cid
        ≡ ok (Registration.find_descendants (index_of d) cid)
  unfolding cascade_services
  finds_index d cid = refl

module _ (env : Env) (svc : Service) (draws : Draws) where
  post_cascade-OnlyFails : (req : RevokeRequest) → OnlyFails (post_cascade env svc draws req)
  unfolding post_cascade
  post_cascade-OnlyFails req =
      >>=-OnlyFails _ _ (or_respond-OnlyFails server_error _ tt) (λ report. pure-OnlyFails _)

  post_entry-OnlyFails : (req : RevokeRequest) → OnlyFails (post_entry env svc draws req)
  unfolding post_entry
  post_entry-OnlyFails req =
      >>=-OnlyFails _ _ (reading-OnlyFails _ (λ d r q. absurd (err-ne-ok (sym q)))) (λ seq.
        >>=-OnlyFails _ _ (lift-OnlyFails _ (map_err-Answered (failure 403 code_denied) _ tt))
          (λ entry.
            >>=-OnlyFails _ _ (or_respond-OnlyFails (failure 409 []) _ tt)
              (λ _. >>=-OnlyFails _ _ (note-OnlyFails env draws.logged _) (λ _. pure-OnlyFails _))))

  post-OnlyFails : (req : RevokeRequest) → OnlyFails (post env svc draws req)
  unfolding post
  post-OnlyFails req =
      elim (Bool-cases (req.status == compromised && not (is_empty req.subject_cid))) [
        | inl t ↦ rw t (post_cascade-OnlyFails req)
        | inr f ↦ rw f (post_entry-OnlyFails req)
      ]

  revoking-OnlyFails : (req : RevokeRequest) → OnlyFails (revoking env svc draws req)
  unfolding revoking refuse_if
  revoking-OnlyFails req =
      >>=-OnlyFails _ _ (lift-OnlyFails _ (fail_if-Answered _ bad_request tt)) (λ _.
        >>=-OnlyFails _ _ (lift-OnlyFails _ (map_err-Answered (failure 403 code_denied) _ tt))
          (λ _. post-OnlyFails req))

  post_cascade-Revoked :
      (req : RevokeRequest) (d d' : Daemon) (r : Response)
      → post_cascade env svc draws req d ≡ (d', ok r)
      → Revoked req.subject_cid (index_of d) (cache_of d) (cache_of d')
  unfolding post_cascade or_respond
  post_cascade-Revoked req d d' r h =
      let ran = >>=-eq-ok (or_respond server_error _) _ h in
      let (end, _) = pure-eq-ok _ ran.then in
      let executed = map_err-eq-ok (λ _. server_error) _ (ap (λ p. p.1) ran.first) in
      let to : (execute_cascade (cascade_services env draws.logged) env.world.codecs.crypto
            env.entries draws.reading req.subject_cid svc.platform_key d).0
          ≡ d' =
        ap (λ p. p.0) ran.first ∙ end in
      execute_cascade-revokes (cascade_services env draws.logged) cache_of index_of
        (cascade_services-KeepsEntries env draws.logged) (finds_index env draws.logged)
        env.world.codecs.crypto env.entries draws.reading req.subject_cid svc.platform_key d d'
        ran.value (λ i. (to i, executed i))

  post-eq-post_cascade :
      (req : RevokeRequest)
      → req.status ≡ compromised
      → req.subject_cid ≢ []
      → post env svc draws req ≡ post_cascade env svc draws req
  unfolding post status_eq
  post-eq-post_cascade req c n =
      rw (is_empty-false req.subject_cid n) (rw ((eq_iff req.status compromised).1 c) refl)

  -- When the handler answers the report of a compromised credential with success, GetStatus says COMPROMISED of
  -- it and CASCADE of each credential with it in its registered chain, and of all others what it said.
  pub handle_revoke-Revoked :
      (req : RevokeRequest) (d d' : Daemon) (seq : ℤ) (status : RevocationStatus) (n : ℕ)
      → handle_revoke env svc draws (decoded req) d ≡ (d', revocation_posted seq status n)
      → req.status ≡ compromised
      → req.subject_cid ≢ []
      → Revoked req.subject_cid (index_of d) (cache_of d) (cache_of d')
  unfolding handle_revoke revoking
  handle_revoke-Revoked req d d' seq status n h c some_cid =
      let ended =
        decoded-ok (revoking env svc draws) req d (revoking-OnlyFails req) (λ f. absurd f) h in
      let named = >>=-eq-ok (refuse_if _ bad_request) _ ended in
      let permitted = >>=-eq-ok (lift _) _ named.then in
      let (same, _) = lift-eq-ok _ permitted.first in
      let (start, _) = refuse_if-eq-ok _ bad_request named.first in
      let post : post_cascade env svc draws req d ≡ (d', ok (revocation_posted seq status n)) =
        ap (λ m. m d) (sym (post-eq-post_cascade req c some_cid))
        ∙ ap (post env svc draws req) (start ∙ same)
        ∙ permitted.then in
      post_cascade-Revoked req d d' (revocation_posted seq status n) post
