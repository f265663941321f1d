-- ===== src/Api/Kept.antt =====
-- What the steps of the handlers leave of the stored credentials and the registration index.
use adtp.Prelude.{
  ℕ, ℤ, ◌≡◌, refl, sym, ap, subst, ◌∙◌, inl, inr, some, List, Text, Text-eq, ok, ok_inj, eq_iff,
  Occurs, lookup-insert,
}
use adtp.Audit.{AuditEntry}
use adtp.Credential.Cid.{compute_cid}
use adtp.Revocation.Registration.{MemoryRegistrationIndex}
use adtp.Revocation.Registration.Links.{Linked, register_iff}
use adtp.Store.Memory
use adtp.Api.Service.{Env, Daemon, proofs, put_credential, register, note, append}

abbrev pub index_of : Daemon → MemoryRegistrationIndex
index_of d = d.store.registrations

-- The proof store is made of the stored credentials.
pub proofs-same :
    (d d' : Daemon) → d.store.credentials ≡ d'.store.credentials → proofs d ≡ proofs d'
unfolding proofs Memory.get
proofs-same d d' h = ap (λ c. proofs (record d { store = record d.store { credentials = c } })) h

pub register-links :
    (cid : Text) (cids : List Text) (d d' : Daemon)
    → register cid cids d ≡ (d', ok tt)
    → (d.store.credentials ≡ d'.store.credentials)
      × ((a b : Text)
          → (Linked (index_of d) a b → Linked (index_of d') a b)
            × (Occurs b cids → Linked (index_of d') cid b))
unfolding register Memory.register
register-links cid cids d d' h = (
  ap (λ p. p.0.store.credentials) h,
  λ a b. (
    λ l.
        subst (λ x. Linked x a b) (ap (λ p. index_of p.0) h)
          ((register_iff (index_of d) cid cids a b).1 (inl l)),
    λ o.
        subst (λ x. Linked x cid b) (ap (λ p. index_of p.0) h)
          ((register_iff (index_of d) cid cids cid b).1 (inr (refl, o))),
  ),
)

module _ (env : Env) where
  pub put_credential-keeps :
      (raw cid : Text) (d d' : Daemon)
      → put_credential env raw d ≡ (d', ok cid)
      → index_of d ≡ index_of d'
  unfolding put_credential
  put_credential-keeps raw cid d d' h = ap (λ p. index_of p.0) h

  pub note-keeps :
      (logged : ℕ → ℤ) (entry : AuditEntry) (d d' : Daemon)
      → note env logged entry d ≡ (d', ok tt)
      → (d.store.credentials ≡ d'.store.credentials) × (index_of d ≡ index_of d')
  unfolding note append
  note-keeps logged entry d d' h = (ap (λ p. p.0.store.credentials) h, ap (λ p. index_of p.0) h)

  pub put_credential-addressed :
      (raw cid : Text) (d d' : Daemon)
      → put_credential env raw d ≡ (d', ok cid)
      → compute_cid env.world.codecs.crypto.sha256 raw ≡ cid
  unfolding put_credential Memory.put_credential
  put_credential-addressed raw cid d d' h = ok_inj (ap (λ p. p.1) h)

  pub put_credential-stored :
      (raw cid : Text) (d d' : Daemon)
      → put_credential env raw d ≡ (d', ok cid)
      → proofs d' cid ≡ some raw
  unfolding put_credential proofs Memory.put_credential Memory.get
  put_credential-stored raw cid d d' h =
      let new : Text = compute_cid env.world.codecs.crypto.sha256 raw in
      let e : new ≡ cid = put_credential-addressed raw cid d d' h in
      let there : proofs ((put_credential env raw d).0) cid ≡ some raw =
        rw (lookup-insert new cid raw d.store.credentials) (rw ((eq_iff new cid).1 e) refl) in
      ap (λ p. proofs p.0 cid) (sym h) ∙ there
