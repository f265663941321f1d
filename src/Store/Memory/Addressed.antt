-- ===== src/Store/Memory/Addressed.antt =====
-- The stored credentials: addressed by their content, listed in the order in which they came.
use adtp.Prelude.{
  err-ne-ok, ◌≡◌, ◌≢◌, refl, sym, ap, subst, ◌∙◌, ◌⊎◌, inl, inr, Option, none, some, List, [], ◌∷◌,
  arith, Text, Text-eq, ◌==◌, eq_iff, if◌then◌else◌, Result, ok, err, eq_refl, ok_or, lookup,
  Bool-cases,
}
use adtp.Signing.{Crypto}
use adtp.Credential.Capability.{is_empty}
use adtp.Credential.Cid.{compute_cid}
use adtp.Lifecycle.{Agent}
use adtp.Revocation.Entry.{RevocationEntry, RevocationList, EntryCodec, RevocationErr}
use adtp.Revocation.Cache.{MemoryRevocationCache}
use adtp.Store.Memory.{
  MemoryStore, credential_not_found, new_store, put_agent, put_credential, get, list_credentials,
  register, revoke, update_from_list, with_cache,
}
use adtp.Store.Memory.Credentials.{
  IsAddressed, get-put_credential, same_credentials, put_credential-IsAddressed,
}

-- The calls that change a store.
pub data Call : Type 0 where
  agent_put : Option Agent → Call
  credential_put : Text → Call
  registered : Text → List Text → Call
  entry_revoked : RevocationEntry → Call
  list_applied : RevocationList → Text → Call

module _ (crypto : Crypto) (codec : EntryCodec) where
  unfoldable pub perform : MemoryStore → Call → MemoryStore
  unfolding put_agent put_credential register revoke update_from_list
  perform s (agent_put agent) = (put_agent s agent).0
  perform s (credential_put raw) = (put_credential crypto s raw).0
  perform s (registered credential_cid chain_cids) = register s credential_cid chain_cids
  perform s (entry_revoked entry) = (revoke crypto codec s entry).0
  perform s (list_applied list issuer_pub) = (update_from_list crypto codec s list issuer_pub).0

  unfoldable pub perform_all : MemoryStore → List Call → MemoryStore
  unfolding perform
  perform_all s [] = s
  perform_all s (c ∷ cs) = perform_all (perform s c) cs

  with_cache-credentials :
      (s : MemoryStore) (r : Result RevocationErr MemoryRevocationCache)
      → ((with_cache s r).0.credentials ≡ s.credentials)
        × ((with_cache s r).0.cred_order ≡ s.cred_order)
  unfolding with_cache
  with_cache-credentials s (ok cache) = (refl, refl)
  with_cache-credentials s (err e) = (refl, refl)

  put_agent-credentials :
      (s : MemoryStore) (agent : Option Agent)
      → ((put_agent s agent).0.credentials ≡ s.credentials)
        × ((put_agent s agent).0.cred_order ≡ s.cred_order)
  unfolding put_agent
  put_agent-credentials s none = (refl, refl)
  put_agent-credentials s (some agent) = elim (Bool-cases (is_empty agent.did)) [
    | inl t ↦ rw t (refl, refl)
    | inr f ↦ rw f (refl, refl)
  ]

  -- Calls other than PutCredential leave the credentials, and PutCredential adds one.
  perform-credentials :
      (s : MemoryStore) (c : Call)
      → ((raw : Text) × (perform s c ≡ (put_credential crypto s raw).0))
        ⊎ ((perform s c).credentials ≡ s.credentials) × ((perform s c).cred_order ≡ s.cred_order)
  unfolding perform register revoke update_from_list
  perform-credentials s (agent_put agent) = inr (put_agent-credentials s agent)
  perform-credentials s (credential_put raw) = inl (raw, refl)
  perform-credentials s (registered credential_cid chain_cids) = inr (refl, refl)
  perform-credentials s (entry_revoked entry) = inr (with_cache-credentials s _)
  perform-credentials s (list_applied list issuer_pub) = inr (with_cache-credentials s _)

  perform-IsAddressed :
      (s : MemoryStore) (c : Call) → IsAddressed crypto s → IsAddressed crypto (perform s c)
  perform-IsAddressed s c h = elim (perform-credentials s c) [
    | inl (raw, q) ↦ subst (IsAddressed crypto) (sym q) (put_credential-IsAddressed crypto s raw h)
    | inr same ↦ same_credentials crypto s (perform s c) same h
  ]

  all-IsAddressed :
      (s : MemoryStore) (cs : List Call)
      → IsAddressed crypto s
      → IsAddressed crypto (perform_all s cs)
  unfolding perform_all
  all-IsAddressed s [] h = h
  all-IsAddressed s (c ∷ cs) h = all-IsAddressed (perform s c) cs (perform-IsAddressed s c h)

  -- Whatever is called on a new store, each stored text has the CID under which Get finds it, and
  -- ListCredentials gives exactly the CIDs that Get finds, each once.
  pub perform_all-IsAddressed : (cs : List Call) → IsAddressed crypto (perform_all new_store cs)
  unfolding new_store get list_credentials lookup
  perform_all-IsAddressed cs = all-IsAddressed new_store cs (record {
    addressed = λ cid raw g. absurd (err-ne-ok g);
    listed = λ cid. (λ o. absurd o, λ (raw, g). absurd (err-ne-ok g));
    distinct = tt;
  })

  held_put :
      (s : MemoryStore) (raw cid old : Text)
      → get s cid ≡ ok old
      → (new : Text) × (get ((put_credential crypto s raw).0) cid ≡ ok new)
  held_put s raw cid old g = elim (Bool-cases (compute_cid crypto.sha256 raw == cid)) [
    | inl t ↦
        (raw, get-put_credential crypto s raw cid ∙ ap (λ b. if b then ok raw else get s cid) t)
    | inr f ↦
        (old, get-put_credential crypto s raw cid ∙ ap (λ b. if b then ok raw else get s cid) f ∙ g)
  ]

  held :
      (s : MemoryStore) (c : Call) (cid old : Text)
      → get s cid ≡ ok old
      → (new : Text) × (get (perform s c) cid ≡ ok new)
  unfolding get
  held s c cid old g = elim (perform-credentials s c) [
    | inl (raw, q) ↦ let (new, g') = held_put s raw cid old g in (new, ap (λ t. get t cid) q ∙ g')
    | inr (p, _) ↦ (old, ap (λ m. ok_or credential_not_found (lookup cid m)) p ∙ g)
  ]

  all_held :
      (s : MemoryStore) (cs : List Call) (cid old : Text)
      → get s cid ≡ ok old
      → (new : Text) × (get (perform_all s cs) cid ≡ ok new)
  unfolding perform_all
  all_held s [] cid old g = (old, g)
  all_held s (c ∷ cs) cid old g =
      let (mid, g') = held s c cid old g in all_held (perform s c) cs cid mid g'

  -- A credential that was put into a store made by any calls is found under the returned CID after any
  -- further calls, and it is the same text, unless a different text with that CID has been put.
  put_credential_permanent :
      (before after : List Call) (raw : Text)
      → (found : Text) × (get
            (perform_all ((put_credential crypto (perform_all new_store before) raw).0) after)
            ((put_credential crypto (perform_all new_store before) raw).1)
          ≡ ok found)
        × ((found ≡ raw)
            ⊎ ((found ≢ raw) × (compute_cid crypto.sha256 found ≡ compute_cid crypto.sha256 raw)))
  unfolding put_credential
  put_credential_permanent before after raw =
      let s = perform_all new_store before in
      let t = (put_credential crypto s raw).0 in
      let cid = compute_cid crypto.sha256 raw in
      let first : get t cid ≡ ok raw =
        get-put_credential crypto s raw cid
        ∙ ap (λ b. if b then ok raw else get s cid) (eq_refl cid) in
      let (found, g) = all_held t after cid raw first in
      let end =
        all-IsAddressed t after
          (put_credential-IsAddressed crypto s raw (perform_all-IsAddressed before)) in
      (
        found,
        g,
        elim (Bool-cases (found == raw)) [
          | inl q ↦ inl ((eq_iff found raw).0 q)
          | inr n ↦ inr (λ q. absurd (ground (arith, eq_iff found raw)), end.addressed cid found g)
        ],
      )
