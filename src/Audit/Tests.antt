-- ===== src/Audit/Tests.antt =====
-- Runs of the audit log, and the theorems at concrete inputs.
use adtp.Prelude.{
  ◌≡◌, refl, ◌≢◌, sym, ◌∙◌, arith, ◌⊎◌, List, [], ◌∷◌, Text, text_eq, text_eq_iff, Bool, all_bytes,
  in_range, false-ne-true, codes, ok, err, ℤ, pos, inl, inr, some, none, Option, lookup, keys,
}
use adtp.Audit.{
  AuditEntry, AuditCodec, Hashed, Payload, text, number, MemoryAuditLog, capability_invoked,
  capability_denied, new_log, hashed, append, verify_chain, chain_tampered,
}
use native.Mathlib.Decide.{ℕ_discrete}
use adtp.Audit.Content.{
  SameFields, SameFields-cases, SameFields-join, IsFaithful, is_encoded, AllEncoded,
}
use adtp.Audit.Linked.{
  append_all, SameContent, Collision, verify_chain-append_all, verify_chain_tamper_evident,
}
use adtp.Samples.{audit_codec}

abbrev event : Text → AuditEntry
event what = record {
  entry_id = [];
  seq = pos 0;
  ts = pos 7;
  event_type = what;
  agent_id = codes "did:a";
  cred_cid = codes "b";
  chain_hash = [];
  payload = [];
  prev_hash = [];
  entry_hash = [];
}

abbrev events : List (AuditEntry × ℤ)
events = (event capability_invoked, pos 7) ∷ (event capability_denied, pos 8) ∷ []

abbrev logged : MemoryAuditLog
logged = append_all audit_codec new_log events

verify_chain-append_all_example : verify_chain audit_codec logged ≡ ok tt
verify_chain-append_all_example = verify_chain-append_all audit_codec events

logged_run : verify_chain audit_codec logged ≡ ok tt
unfolding verify_chain append_all append new_log text_eq
logged_run = refl

tampered_run :
    verify_chain audit_codec (record logged { entries = event capability_denied ∷ [] })
    ≡ err chain_tampered
unfolding verify_chain append_all append new_log text_eq
tampered_run = refl

-- Two logs whose entries have one payload, with its members in different orders.
abbrev depth_tier : Payload
depth_tier = (codes "depth", number (pos 2)) ∷ (codes "tier", text (codes "HIGH")) ∷ []

abbrev tier_depth : Payload
tier_depth = (codes "tier", text (codes "HIGH")) ∷ (codes "depth", number (pos 2)) ∷ []

abbrev with_payload : Payload → MemoryAuditLog
with_payload p = record {
  entries =
      record (event capability_invoked) {
        seq = pos 1;
        payload = p;
        entry_id = codes "1";
        entry_hash = codes "1";
      }
      ∷ record (event capability_denied) {
        seq = pos 2;
        prev_hash = codes "1";
        entry_id = codes "2";
        entry_hash = codes "2";
      }
      ∷ [];
  last_hash = codes "2";
  seq = pos 2;
}

-- The contents of their entries, and a codec that writes these two only, whatever the order of the members.
abbrev first : Hashed
first = record {
  seq = pos 1;
  ts = pos 7;
  prev_hash = [];
  event_type = capability_invoked;
  agent_id = codes "did:a";
  cred_cid = codes "b";
  chain_hash = [];
  payload = depth_tier;
}

abbrev second : Hashed
second = record first {
  seq = pos 2;
  prev_hash = codes "1";
  event_type = capability_denied;
  payload = [];
}

choose : {A B : Type 0} → A ⊎ (¬ A) → B ⊎ (¬ B) → Option Text
choose (inl _) _ = some (codes "1")
choose (inr _) (inl _) = some (codes "2")
choose (inr _) (inr _) = none

unfoldable write : Hashed → Option Text
unfolding choose SameFields-cases
write h = choose (SameFields-cases h first) (SameFields-cases h second)

abbrev strict_codec : AuditCodec
strict_codec = record { canonical = write; digest = λ t. t; make_entry_id = λ n t. t }

choose-eq-some :
    {A B : Type 0} (a : A ⊎ (¬ A)) (b : B ⊎ (¬ B)) (t : Text)
    → choose a b ≡ some t
    → ((t ≡ codes "1") × A) ⊎ ((t ≡ codes "2") × B)
unfolding choose
choose-eq-some (inl x) _ t q = inl (ground arith, x)
choose-eq-some (inr _) (inl y) t q = inr (ground arith, y)
choose-eq-some (inr _) (inr _) t q = absurd (ground arith)

written :
    (h : Hashed) (t : Text)
    → write h ≡ some t
    → ((t ≡ codes "1") × SameFields h first) ⊎ ((t ≡ codes "2") × SameFields h second)
unfolding write
written h t q = choose-eq-some (SameFields-cases h first) (SameFields-cases h second) t q

one_not_two : codes "1" ≢ codes "2"
unfolding text_eq
one_not_two q = false-ne-true ((text_eq_iff (codes "1") (codes "2")).1 q)

-- ASCII is valid UTF-8.
is_ascii : Text → Bool
unfolding all_bytes
is_ascii t = all_bytes (in_range 0 127) t

strict_codec-IsFaithful : IsFaithful is_ascii strict_codec
strict_codec-IsFaithful h k t _ _ p q = elim (written h t p) [
  | inl (a, x) ↦ elim (written k t q) [
    | inl (b, y) ↦ SameFields-join h k first x y
    | inr (b, y) ↦ absurd (one_not_two (sym a ∙ b))
  ]
  | inr (a, x) ↦ elim (written k t q) [
    | inl (b, y) ↦ absurd (one_not_two (sym b ∙ a))
    | inr (b, y) ↦ SameFields-join h k second x y
  ]
]

depth_first_run : verify_chain strict_codec (with_payload depth_tier) ≡ ok tt
unfolding verify_chain write choose text_eq lookup keys ℕ_discrete
depth_first_run = refl

tier_first_run : verify_chain strict_codec (with_payload tier_depth) ≡ ok tt
unfolding verify_chain write choose text_eq lookup keys ℕ_discrete
tier_first_run = refl

with_payload-AllEncoded :
    AllEncoded is_ascii (with_payload depth_tier).entries
    × AllEncoded is_ascii (with_payload tier_depth).entries
unfolding is_encoded hashed is_ascii
with_payload-AllEncoded = ((refl, (refl, tt)), (refl, (refl, tt)))

verify_chain_tamper_evident_example :
    SameContent strict_codec (with_payload depth_tier).entries (with_payload tier_depth).entries
    ⊎ Collision strict_codec (with_payload depth_tier).entries (with_payload tier_depth).entries
verify_chain_tamper_evident_example =
    verify_chain_tamper_evident strict_codec is_ascii (with_payload depth_tier)
      (with_payload tier_depth) strict_codec-IsFaithful with_payload-AllEncoded.0
      with_payload-AllEncoded.1 depth_first_run tier_first_run refl refl
