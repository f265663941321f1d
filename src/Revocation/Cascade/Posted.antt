-- ===== src/Revocation/Cascade/Posted.antt =====
-- What the entries that a cascade posts leave, for any services that keep what is posted.
use adtp.Prelude.{
  ℕ, suc, ◌≡◌, ◌≢◌, refl, sym, ap, ◌∙◌, inl, inr, Option, some, List, [], ◌∷◌, arith, Text, Text-eq,
  ℕ-eq, ◌==◌, eq_iff, if◌then◌else◌, Bool-cases, ok, map_err-eq-ok, ℤ, pos, add64, Occurs, contains,
  contains_iff, eq_refl, not_true,
}
use adtp.Prelude.Steps.{lift, reading, >>=-eq-ok, pure-eq-ok, lift-eq-ok, reading-eq-ok}
use adtp.Signing.{Crypto}
use adtp.Credential.Capability.{is_empty}
use adtp.Audit.{Payload}
use adtp.Revocation.Authority.{RevocationScope, RevocationStatus, credential, cascade}
use adtp.Revocation.Entry.{
  RevocationEntry, RevocationAuth, EntryCodec, subject_key, create_revocation_entry-shape,
}
use adtp.Revocation.Cascade.{
  CascadeErr, revocation_error, Services, append_audit, push_batch, post, post_all,
}

-- The services hold one entry for each subject, Revoke sets it, and nothing else changes it or the index.
pub record KeepsEntries {S : Type 0} (services : Services S)
    (entry_of : S → Text → Option RevocationEntry) : Type 0 where
  pub revoked :
      (e : RevocationEntry) {s s' : S}
      → services.revoke e s ≡ (s', ok tt)
      → (key : Text)
      → entry_of s' key ≡ (if subject_key e.subject == key then some e else entry_of s key)
  pub pushed :
      (batch : List RevocationEntry) {s s' : S}
      → push_batch services batch s ≡ (s', ok tt)
      → (key : Text) → entry_of s' key ≡ entry_of s key
  pub appended :
      (event_type cred_cid : Text) (payload : Payload) {s s' : S}
      → append_audit services event_type cred_cid payload s ≡ (s', ok tt)
      → (key : Text) → entry_of s' key ≡ entry_of s key
  pub revoked_finds :
      (e : RevocationEntry) {s s' : S}
      → services.revoke e s ≡ (s', ok tt)
      → (cid : Text) → services.find_descendants s' cid ≡ services.find_descendants s cid
  pub appended_finds :
      (event_type cred_cid : Text) (payload : Payload) {s s' : S}
      → append_audit services event_type cred_cid payload s ≡ (s', ok tt)
      → (cid : Text) → services.find_descendants s' cid ≡ services.find_descendants s cid

subject_key-cid : (cid : Text) → subject_key (record { cid = cid; did = [] }) ≡ cid
unfolding subject_key is_empty
subject_key-cid [] = refl
subject_key-cid (c ∷ cid) = refl

module _ {S : Type 0} (services : Services S) (entry_of : S → Text → Option RevocationEntry)
    (keeps : KeepsEntries services entry_of) (crypto : Crypto) (codec : EntryCodec)
    (clock : ℕ → ℤ) where
  -- One entry on `cid` has been posted, and nothing else.
  pub record IsPosted (status : RevocationStatus) (cid : Text) (s s' : S) (e : RevocationEntry)
      : Type 0 where
    pub has_status : e.status ≡ status
    pub sets : (key : Text) → entry_of s' key ≡ (if cid == key then some e else entry_of s key)
    pub finds : (key : Text) → services.find_descendants s' key ≡ services.find_descendants s key

  pub post-IsPosted :
      (scope : RevocationScope) (status : RevocationStatus) (auth : RevocationAuth) (key : Text)
      (n : ℕ) (cid : Text) (s s' : S) (e : RevocationEntry)
      → post services crypto codec clock scope status auth key n cid s ≡ (s', ok e)
      → IsPosted status cid s s' e
  unfolding post
  post-IsPosted scope status auth key n cid s s' e h =
      let read = >>=-eq-ok (reading (λ t. services.current_seq t cid)) _ h in
      let made = >>=-eq-ok (lift _) _ read.then in
      let done = >>=-eq-ok (services.revoke made.value) _ made.then in
      let (same0, _) = reading-eq-ok (λ t. services.current_seq t cid) read.first in
      let (same1, created) = lift-eq-ok _ made.first in
      let (end, out) = pure-eq-ok made.value done.then in
      let (subject, has, _) =
        create_revocation_entry-shape crypto codec (record { cid = cid; did = [] }) scope status
          auth (add64 read.value (pos 1)) [] key (clock n) made.value
          (map_err-eq-ok revocation_error _ created) in
      let revoked : services.revoke e s ≡ (s', ok tt) =
        ap (λ x. services.revoke x s) (sym out)
        ∙ ap (services.revoke made.value) (same0 ∙ same1)
        ∙ done.first
        ∙ ap (λ t. (t, ok tt)) end in
      let on : subject_key e.subject ≡ cid =
        ap (λ x. subject_key x.subject) (sym out) ∙ ap subject_key subject ∙ subject_key-cid cid in
      record {
        has_status = ap (λ x. x.status) (sym out) ∙ has;
        sets =
            λ k. keeps.revoked e revoked k ∙ ap (λ t. if t == k then some e else entry_of s k) on;
        finds = keeps.revoked_finds e revoked;
      }

  -- Each of `ds` has a CASCADE entry, and nothing else has changed.
  pub record AllPosted (ds : List Text) (s s' : S) : Type 0 where
    pub found :
        (d : Text)
        → Occurs d ds
        → (e : RevocationEntry) × (entry_of s' d ≡ some e) × (e.status ≡ cascade)
    pub others : (k : Text) → ¬ Occurs k ds → entry_of s' k ≡ entry_of s k

  pub set_at :
      (status : RevocationStatus) (cid : Text) (s s' : S) (e : RevocationEntry)
      → IsPosted status cid s s' e
      → entry_of s' cid ≡ some e
  set_at status cid s s' e p =
      p.sets cid ∙ ap (λ t. if t then some e else entry_of s cid) (eq_refl cid)

  pub set_elsewhere :
      (status : RevocationStatus) (cid : Text) (s s' : S) (e : RevocationEntry) (k : Text)
      → IsPosted status cid s s' e
      → k ≢ cid
      → entry_of s' k ≡ entry_of s k
  set_elsewhere status cid s s' e k p n =
      p.sets k
      ∙ ap (λ t. if t then some e else entry_of s k)
          (not_true (cid == k) (λ t. n (sym ((eq_iff cid k).0 t))))

  AllPosted-cons :
      (d : Text) (ds : List Text) (s mid s' : S) (e : RevocationEntry)
      → IsPosted cascade d s mid e
      → AllPosted ds mid s'
      → AllPosted (d ∷ ds) s s'
  AllPosted-cons d ds s mid s' e p rest = record {
    found = λ k o. elim (Bool-cases (contains ds k)) [
      | inl t ↦ rest.found k ((contains_iff ds k).0 t)
      | inr f ↦ elim o [
        | inl q ↦ (
          e,
          rest.others k (λ i. absurd (ground (arith, contains_iff ds k)))
              ∙ ap (entry_of mid) q
              ∙ set_at cascade d s mid e p,
          p.has_status,
        )
        | inr i ↦ rest.found k i
      ]
    ];
    others = λ k n.
        rest.others k (λ i. n (inr i)) ∙ set_elsewhere cascade d s mid e k p (λ q. n (inl q));
  }

  pub post_all-AllPosted :
      (auth : RevocationAuth) (key : Text) (n : ℕ) (ds : List Text) (s s' : S)
      (es : List RevocationEntry)
      → post_all services crypto codec clock auth key n ds s ≡ (s', ok es)
      → AllPosted ds s s'
  unfolding post_all
  post_all-AllPosted auth key n [] s s' es h =
      let (end, _) = pure-eq-ok {E = CascadeErr} [] h in
      record { found = λ d o. absurd o; others = λ k _. ap (λ t. entry_of t k) (sym end) }
  post_all-AllPosted auth key n (d ∷ ds) s s' es h =
      let one = >>=-eq-ok (post services crypto codec clock credential cascade auth key n d) _ h in
      let all = >>=-eq-ok (post_all services crypto codec clock auth key (suc n) ds) _ one.then in
      let (end, _) = pure-eq-ok (one.value ∷ all.value) all.then in
      AllPosted-cons d ds s one.middle s' one.value
        (post-IsPosted credential cascade auth key n d s one.middle one.value one.first)
        (post_all-AllPosted auth key (suc n) ds one.middle s' all.value
          (all.first ∙ ap (λ t. (t, ok all.value)) end))
