-- ===== src/Verify/Pop.antt =====
-- internal/verify/pop.go: proof of possession and the nonce cache.
-- Times of the nonce cache are in nanoseconds. Its map allows one call at a time for a nonce.
pub mod Replay
use adtp.Prelude.{
  suc, ◌*◌, ◌-◌, Bool, true, false, not, Option, none, some, List, Text, Text-eq, codes, ◌==◌,
  if◌then◌else◌, Result, ok, err, ◌>>=◌, ◌>>◌, fail_if, map_err, ok_or, ℤ, pos, negsuc, ltb_ℤ,
  leb_ℤ, length, ℕ-eq, [], add64, sub64, to_int64, ◌+ℤ◌, lookup, insert,
}
use adtp.Signing.{Crypto, SigningErr, private_key_size, sign, encode_signature, verify_encoded}
use adtp.Identity.DidKey.{encode_did}
use adtp.Verify.Errors.{VerificationError, pop_failed, verr}
use adtp.Verify.Config.{UcanInvocation}
use adtp.Verify.Caveats.{Params}

abbrev pub invocation_typ : Text
invocation_typ = codes "adtp/inv/1"

abbrev pub invocation_lifetime : ℤ
invocation_lifetime = pos 300

abbrev pub invocation_freshness : ℤ
invocation_freshness = pos 60

abbrev pub invocation_clock_skew : ℤ
invocation_clock_skew = pos 60

-- nonce -> expiry
abbrev pub MemoryNonceCache : Type 0
MemoryNonceCache = List (Text × ℤ)

-- What LoadOrStore found: a nonce that is still within its window is a replay.
after_load : Option ℤ → MemoryNonceCache → Text → ℤ → ℤ → MemoryNonceCache × Bool
unfolding insert
after_load none c nonce expiry now = (insert nonce expiry c, false)
after_load (some prev) c nonce expiry now =
    if ltb_ℤ now prev then (c, true) else (insert nonce expiry c, false)

-- CheckAndStore: the time at which the expiry is computed, and the time at which it is compared.
unfoldable pub check_and_store : MemoryNonceCache → Text → ℤ → ℤ → ℤ → MemoryNonceCache × Bool
unfolding after_load lookup ◌+ℤ◌
check_and_store c nonce ttl stored_at tested_at =
    after_load (lookup nonce c) c nonce (stored_at +ℤ ttl) tested_at

-- A number of seconds as a time.Duration, an int64 of nanoseconds.
seconds : ℤ → ℤ
unfolding to_int64
seconds (pos n) = to_int64 (pos (n * 1000000000))
seconds (negsuc n) = to_int64 (negsuc (suc n * 1000000000 - 1))

unfoldable pub nonce_ttl : ℤ → ℤ → ℤ
unfolding seconds sub64
nonce_ttl exp now =
    let ttl = seconds (sub64 exp now) in if leb_ℤ ttl (pos 0) then seconds (pos 1) else ttl

is_some {ℓ} : {A : Type ℓ} → Option A → Bool
is_some none = false
is_some (some a) = true

module _ (crypto : Crypto) (unsigned : UcanInvocation → Option Text)
    (parse_did : Text → Option Text) where
  -- The checks of VerifyInvocation before the nonce is looked up.
  unfoldable pub invocation_checks :
      UcanInvocation → Text → Text → ℤ → Result VerificationError Unit
  unfolding is_some add64 sub64 verify_encoded
  invocation_checks inv expected_aud leaf_aud now = do
    fail_if (not (inv.typ == invocation_typ)) (verr 10 pop_failed)
    fail_if (is_some inv.obo) (verr 10 pop_failed)
    fail_if (not (inv.iss == leaf_aud)) (verr 10 pop_failed)
    fail_if (not (inv.aud == expected_aud)) (verr 10 pop_failed)
    fail_if (ltb_ℤ (add64 now invocation_clock_skew) inv.iat) (verr 10 pop_failed)
    fail_if (ltb_ℤ invocation_freshness (sub64 now inv.iat)) (verr 10 pop_failed)
    fail_if (ltb_ℤ inv.exp now) (verr 10 pop_failed)
    fail_if (ltb_ℤ (add64 inv.iat invocation_lifetime) inv.exp) (verr 10 pop_failed)
    pub_key ← ok_or (verr 10 pop_failed) (parse_did inv.iss)
    map_err (λ _. verr 10 pop_failed) (verify_encoded crypto (unsigned inv) inv.sig pub_key)

  -- What CheckAndStore found decides.
  spend : MemoryNonceCache × Bool → MemoryNonceCache × Result VerificationError Unit
  spend (c, true) = (c, err (verr 10 pop_failed))
  spend (c, false) = (c, ok tt)

  -- VerifyInvocation. The nonce is spent only after the signature verifies.
  unfoldable pub verify_invocation :
      MemoryNonceCache
      → UcanInvocation
      → Text
      → Text
      → ℤ
      → ℤ
      → ℤ
      → MemoryNonceCache × Result VerificationError Unit
  unfolding invocation_checks spend check_and_store nonce_ttl
  verify_invocation c inv expected_aud leaf_aud now stored_at tested_at =
      elim (invocation_checks inv expected_aud leaf_aud now) [
        | err e ↦ (c, err e)
        | ok _ ↦ spend (check_and_store c inv.nonce (nonce_ttl inv.exp now) stored_at tested_at)
      ]

-- The errors of CreateInvocation.
pub data InvocationErr : Type 0 where
  invalid_presenter_key no_randomness : InvocationErr
  signing_error : SigningErr → InvocationErr

-- CreateInvocation. `nonce` holds the random bytes, if they could be drawn.
unfoldable pub create_invocation :
    Crypto
    → (UcanInvocation → Option Text)
    → Text
    → Text
    → Text
    → Params
    → Text
    → Text
    → Text
    → Option Text
    → ℤ
    → Result InvocationErr UcanInvocation
unfolding encode_did sign encode_signature
create_invocation crypto unsigned leaf action resource params key verifier_did binding nonce now =
    do
      fail_if (not (length key == private_key_size)) invalid_presenter_key
      bytes ← ok_or no_randomness nonce
      let inv : UcanInvocation = record {
        typ = invocation_typ;
        iss = encode_did (crypto.public key);
        aud = verifier_did;
        iat = now;
        exp = add64 now invocation_lifetime;
        nonce = crypto.b64_encode bytes;
        cb = binding;
        obo = none;
        run = record {
          delegation_cid = leaf;
          action = action;
          resource = resource;
          parameters = params;
        };
        sig = [];
      }
      sig ← map_err signing_error (sign crypto (unsigned inv) key)
      ok (record inv { sig = encode_signature crypto sig })
