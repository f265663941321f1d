-- ===== src/Verify/Pop/Replay.antt =====
-- What VerifyInvocation leaves in the nonce cache, and that a nonce is not accepted twice in its window.
use adtp.Prelude.{
  eq_iff, ◌==◌, All, List, [], ◌∷◌, ◌≡◌, refl, ◌≢◌, inl, inr, Bool, true, false, Option, none, some,
  arith, Text, Text-eq, eq_refl, Result, ok, err, Result-cases, Bool-cases, ℤ, ◌+ℤ◌, ◌<ℤ◌, ltb_ℤ,
  lookup, lookup-insert, ap, sym, ◌∙◌, subst,
}
use adtp.Signing.{Crypto}
use adtp.Verify.Errors.{VerificationError, pop_failed, verr}
use adtp.Verify.Config.{UcanInvocation}
use adtp.Verify.Pop.{
  MemoryNonceCache, after_load, check_and_store, nonce_ttl, invocation_checks, spend,
  verify_invocation,
}

-- A nonce that is stored as fresh expires at the time given.
after_load-fresh :
    (found : Option ℤ) (c : MemoryNonceCache) (nonce : Text) (expiry now : ℤ)
    → (after_load found c nonce expiry now).1 ≡ false
    → lookup nonce (after_load found c nonce expiry now).0 ≡ some expiry
unfolding after_load
after_load-fresh none c nonce expiry now h =
    ground (arith, lookup-insert nonce nonce expiry c, eq_refl nonce)
after_load-fresh (some prev) c nonce expiry now h = elim (Bool-cases (ltb_ℤ now prev)) [
  | inl live ↦ absurd (ground arith)
  | inr over ↦ rw over (ground (arith, lookup-insert nonce nonce expiry c, eq_refl nonce))
]

after_load-live :
    (expiry : ℤ) (c : MemoryNonceCache) (nonce : Text) (next now : ℤ)
    → now <ℤ expiry
    → after_load (some expiry) c nonce next now ≡ (c, true)
unfolding after_load
after_load-live expiry c nonce next now h = ground arith

-- A live nonce stays, whatever CheckAndStore is asked before it expires.
after_load-other :
    (found : Option ℤ) (c : MemoryNonceCache) (nonce other : Text) (expiry now : ℤ)
    → (other == nonce) ≡ false
    → lookup nonce (after_load found c other expiry now).0 ≡ lookup nonce c
unfolding after_load
after_load-other none c nonce other expiry now h =
    ground (arith, lookup-insert other nonce expiry c)
after_load-other (some prev) c nonce other expiry now h = elim (Bool-cases (ltb_ℤ now prev)) [
  | inl live ↦ rw live refl
  | inr over ↦ rw over (ground (arith, lookup-insert other nonce expiry c))
]

check_and_store-live :
    (c : MemoryNonceCache) (nonce : Text) (expiry ttl stored_at tested_at : ℤ)
    → lookup nonce c ≡ some expiry
    → tested_at <ℤ expiry
    → check_and_store c nonce ttl stored_at tested_at ≡ (c, true)
unfolding check_and_store
check_and_store-live c nonce expiry ttl stored_at tested_at h l =
    rw h (after_load-live expiry c nonce (stored_at +ℤ ttl) tested_at l)

check_and_store-keeps :
    (c : MemoryNonceCache) (nonce other : Text) (expiry ttl stored_at tested_at : ℤ)
    → lookup nonce c ≡ some expiry
    → tested_at <ℤ expiry
    → lookup nonce (check_and_store c other ttl stored_at tested_at).0 ≡ some expiry
unfolding check_and_store
check_and_store-keeps c nonce other expiry ttl stored_at tested_at h l =
    elim (Bool-cases (other == nonce)) [
      | inl same ↦
          let e : nonce ≡ other = sym ((eq_iff other nonce).0 same) in
          ap (λ r. lookup nonce r.0)
            (check_and_store-live c other expiry ttl stored_at tested_at
              (subst (λ n. lookup n c ≡ some expiry) e h) l)
          ∙ h
      | inr new ↦
          after_load-other (lookup other c) c nonce other (stored_at +ℤ ttl) tested_at new ∙ h
    ]

check_and_store-fresh :
    (c : MemoryNonceCache) (nonce : Text) (ttl stored_at tested_at : ℤ)
    → (check_and_store c nonce ttl stored_at tested_at).1 ≡ false
    → lookup nonce (check_and_store c nonce ttl stored_at tested_at).0 ≡ some (stored_at +ℤ ttl)
unfolding check_and_store
check_and_store-fresh c nonce ttl stored_at tested_at h =
    after_load-fresh (lookup nonce c) c nonce (stored_at +ℤ ttl) tested_at h

-- A call of VerifyInvocation: what it is given, and the times that it reads.
pub record Call : Type 0 where
  pub inv : UcanInvocation
  pub aud : Text
  pub leaf : Text
  pub now : ℤ
  pub stored_at : ℤ
  pub tested_at : ℤ

not_ok : (e : VerificationError) → err e ≢ ok tt
not_ok e h = cc

module _ (crypto : Crypto) (unsigned : UcanInvocation → Option Text)
    (parse_did : Text → Option Text) where
  -- What an accepted invocation says of the answer of the nonce cache.
  abbrev Spent : MemoryNonceCache × Bool → MemoryNonceCache × Result VerificationError Unit → Type 0
  Spent found out = (found.1 ≡ false) × (out.0 ≡ found.0)

  spend-Spent :
      (found : MemoryNonceCache × Bool)
      → (spend crypto unsigned parse_did found).1 ≡ ok tt
      → Spent found (spend crypto unsigned parse_did found)
  unfolding spend
  spend-Spent (c, true) h = cc
  spend-Spent (c, false) h = (refl, refl)

  checked-spends :
      (c : MemoryNonceCache) (inv : UcanInvocation) (aud leaf : Text) (now stored_at tested_at : ℤ)
      → invocation_checks crypto unsigned parse_did inv aud leaf now ≡ ok tt
      → verify_invocation crypto unsigned parse_did c inv aud leaf now stored_at tested_at
        ≡ spend crypto unsigned parse_did
            (check_and_store c inv.nonce (nonce_ttl inv.exp now) stored_at tested_at)
  unfolding verify_invocation
  checked-spends c inv aud leaf now stored_at tested_at q = rw (q, verify_invocation) refl

  unchecked-refused :
      (c : MemoryNonceCache) (inv : UcanInvocation) (aud leaf : Text) (now stored_at tested_at : ℤ)
      {e : VerificationError}
      → invocation_checks crypto unsigned parse_did inv aud leaf now ≡ err e
      → verify_invocation crypto unsigned parse_did c inv aud leaf now stored_at tested_at
        ≡ (c, err e)
  unfolding verify_invocation
  unchecked-refused c inv aud leaf now stored_at tested_at q = rw (q, verify_invocation) refl

  accepted-fresh :
      (c d : MemoryNonceCache) (inv : UcanInvocation) (aud leaf : Text)
      (now stored_at tested_at : ℤ)
      → verify_invocation crypto unsigned parse_did c inv aud leaf now stored_at tested_at
        ≡ (d, ok tt)
      → Spent (check_and_store c inv.nonce (nonce_ttl inv.exp now) stored_at tested_at) (d, ok tt)
  accepted-fresh c d inv aud leaf now stored_at tested_at h =
      elim (Result-cases (invocation_checks crypto unsigned parse_did inv aud leaf now)) [
        | err (e, q) ↦
            let out = sym (unchecked-refused c inv aud leaf now stored_at tested_at q) ∙ h in
            absurd (not_ok e (ap (λ r. r.1) out))
        | ok (u, q) ↦
            let found = check_and_store c inv.nonce (nonce_ttl inv.exp now) stored_at tested_at in
            let out = sym (checked-spends c inv aud leaf now stored_at tested_at q) ∙ h in
            subst (Spent found) out (spend-Spent found (ap (λ r. r.1) out))
      ]

  seen-refused :
      (c : MemoryNonceCache) (inv : UcanInvocation) (aud leaf : Text) (now stored_at tested_at : ℤ)
      → check_and_store c inv.nonce (nonce_ttl inv.exp now) stored_at tested_at ≡ (c, true)
      → (e : VerificationError) × (verify_invocation crypto unsigned parse_did c inv aud leaf now
            stored_at tested_at
          ≡ (c, err e))
  unfolding spend
  seen-refused c inv aud leaf now stored_at tested_at h =
      elim (Result-cases (invocation_checks crypto unsigned parse_did inv aud leaf now)) [
        | err (e, q) ↦ (e, unchecked-refused c inv aud leaf now stored_at tested_at q)
        | ok (u, q) ↦ (
          verr 10 pop_failed,
          checked-spends c inv aud leaf now stored_at tested_at q
              ∙ ap (spend crypto unsigned parse_did) h,
        )
      ]

  abbrev pub call : MemoryNonceCache → Call → MemoryNonceCache × Result VerificationError Unit
  call c k =
      verify_invocation crypto unsigned parse_did c k.inv k.aud k.leaf k.now k.stored_at k.tested_at

  -- The cache after some calls.
  abbrev pub serve : MemoryNonceCache → List Call → MemoryNonceCache
  serve c [] = c
  serve c (k ∷ ks) = serve (call c k).0 ks

  spend-cache :
      (found : MemoryNonceCache × Bool) → (spend crypto unsigned parse_did found).0 ≡ found.0
  unfolding spend
  spend-cache (c, true) = refl
  spend-cache (c, false) = refl

  call-keeps :
      (c : MemoryNonceCache) (k : Call) (nonce : Text) (expiry : ℤ)
      → lookup nonce c ≡ some expiry
      → k.tested_at <ℤ expiry
      → lookup nonce (call c k).0 ≡ some expiry
  call-keeps c k nonce expiry h l =
      elim (Result-cases (invocation_checks crypto unsigned parse_did k.inv k.aud k.leaf k.now)) [
        | err (e, q) ↦
            ap (λ r. lookup nonce r.0)
              (unchecked-refused c k.inv k.aud k.leaf k.now k.stored_at k.tested_at q)
            ∙ h
        | ok (u, q) ↦
            let found =
              check_and_store c k.inv.nonce (nonce_ttl k.inv.exp k.now) k.stored_at k.tested_at in
            ap (λ r. lookup nonce r.0)
              (checked-spends c k.inv k.aud k.leaf k.now k.stored_at k.tested_at q)
            ∙ ap (lookup nonce) (spend-cache found)
            ∙ check_and_store-keeps c nonce k.inv.nonce expiry (nonce_ttl k.inv.exp k.now)
                k.stored_at k.tested_at h l
      ]

  serve-keeps :
      (c : MemoryNonceCache) (ks : List Call) (nonce : Text) (expiry : ℤ)
      → lookup nonce c ≡ some expiry
      → All (λ k. k.tested_at <ℤ expiry) ks
      → lookup nonce (serve c ks) ≡ some expiry
  serve-keeps c [] nonce expiry h l = h
  serve-keeps c (k ∷ ks) nonce expiry h (l, ls) =
      serve-keeps (call c k).0 ks nonce expiry (call-keeps c k nonce expiry h l) ls

  -- Once an invocation is accepted, every later one with its nonce is refused, whatever calls come in
  -- between, as long as all these calls look their nonces up before the stored nonce expires.
  pub verify_invocation_replay :
      (c d : MemoryNonceCache) (first again : Call) (between : List Call)
      → call c first ≡ (d, ok tt)
      → again.inv.nonce ≡ first.inv.nonce
      → All
          (λ k. k.tested_at <ℤ first.stored_at +ℤ nonce_ttl first.inv.exp first.now)
          (again ∷ between)
      → (e : VerificationError) × (call (serve d between) again ≡ (serve d between, err e))
  verify_invocation_replay c d first again between h n (l, ls) =
      let expiry = first.stored_at +ℤ nonce_ttl first.inv.exp first.now in
      let (fresh, kept) =
        accepted-fresh c d first.inv first.aud first.leaf first.now first.stored_at first.tested_at
          h in
      let stored : lookup first.inv.nonce d ≡ some expiry =
        ap (lookup first.inv.nonce) kept
        ∙ check_and_store-fresh c first.inv.nonce (nonce_ttl first.inv.exp first.now)
            first.stored_at first.tested_at fresh in
      let live : lookup again.inv.nonce (serve d between) ≡ some expiry =
        subst (λ x. lookup x (serve d between) ≡ some expiry) (sym n)
          (serve-keeps d between first.inv.nonce expiry stored ls) in
      seen-refused (serve d between) again.inv again.aud again.leaf again.now again.stored_at
        again.tested_at
        (check_and_store-live (serve d between) again.inv.nonce expiry
          (nonce_ttl again.inv.exp again.now) again.stored_at again.tested_at live l)
