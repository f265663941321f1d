-- ===== src/Audit/Content.antt =====
-- When two hashed contents are the same: a payload is a Go map, so the order of its members does not count.
use native.Mathlib.Decide.{ℕ_discrete}
use adtp.Prelude.{
  ◌≡◌, ◌≢◌, ◌⊎◌, inl, inr, sym, ap, subst, ◌∙◌, Option, some, List, [], ◌∷◌, Text, Text-eq,
  Option-cases, Occurs, lookup, keys, keys_iff, Bool, true, ◌&&◌,
}
use adtp.Audit.{Field, text, number, Payload, AuditEntry, AuditCodec, Hashed, hashed}

Field-discrete : Discrete Field
Field-discrete = hlevel ℕ_discrete

Held-discrete : Discrete (Option Field)
unfolding Field-discrete
Held-discrete = hlevel Field-discrete

Hashed-discrete : Discrete Hashed
unfolding Field-discrete
Hashed-discrete = hlevel (ℕ_discrete, Field-discrete)

-- The same member under every key.
abbrev pub SameMap : Payload → Payload → Type 0
SameMap p q = (key : Text) → lookup key p ≡ lookup key q

-- The same fields, and the same payload as a map.
abbrev pub SameFields : Hashed → Hashed → Type 0
SameFields h k =
    (record h { payload = [] } ≡ record k { payload = [] }) × SameMap h.payload k.payload

pub SameFields-join : (h k c : Hashed) → SameFields h c → SameFields k c → SameFields h k
SameFields-join h k c a b = (a.0 ∙ sym b.0, λ key. a.1 key ∙ sym (b.1 key))

-- The same of two entries: all that the program hashes of them.
pub record SameEntry (e f : AuditEntry) : Type 0 where
  pub seq : e.seq ≡ f.seq
  pub ts : e.ts ≡ f.ts
  pub event_type : e.event_type ≡ f.event_type
  pub agent_id : e.agent_id ≡ f.agent_id
  pub cred_cid : e.cred_cid ≡ f.cred_cid
  pub chain_hash : e.chain_hash ≡ f.chain_hash
  pub prev_hash : e.prev_hash ≡ f.prev_hash
  pub payload : SameMap e.payload f.payload

pub hashed-SameEntry : (e f : AuditEntry) → SameFields (hashed e) (hashed f) → SameEntry e f
unfolding hashed
hashed-SameEntry e f (h, m) = record {
  seq = ap (λ (x : Hashed). x.seq) h;
  ts = ap (λ (x : Hashed). x.ts) h;
  event_type = ap (λ (x : Hashed). x.event_type) h;
  agent_id = ap (λ (x : Hashed). x.agent_id) h;
  cred_cid = ap (λ (x : Hashed). x.cred_cid) h;
  chain_hash = ap (λ (x : Hashed). x.chain_hash) h;
  prev_hash = ap (λ (x : Hashed). x.prev_hash) h;
  payload = m;
}

module _ (utf8_valid : Text → Bool) where
  field_encoded : Field → Bool
  field_encoded (text t) = utf8_valid t
  field_encoded (number _) = true

  payload_encoded : Payload → Bool
  unfolding field_encoded
  payload_encoded [] = true
  payload_encoded ((key, f) ∷ p) = utf8_valid key && field_encoded f && payload_encoded p

  -- All texts of the contents are valid UTF-8.
  unfoldable pub is_encoded : Hashed → Bool
  unfolding payload_encoded
  is_encoded h =
      utf8_valid h.prev_hash
      && utf8_valid h.event_type
      && utf8_valid h.agent_id
      && utf8_valid h.cred_cid
      && utf8_valid h.chain_hash
      && payload_encoded h.payload

  -- The canonical text of such contents says what they are. (json.Marshal writes U+FFFD for other bytes.)
  abbrev pub IsFaithful : AuditCodec → Type 0
  IsFaithful codec =
      (h k : Hashed) (t : Text)
      → is_encoded h ≡ true
      → is_encoded k ≡ true
      → codec.canonical h ≡ some t
      → codec.canonical k ≡ some t
      → SameFields h k

  abbrev pub AllEncoded : List AuditEntry → Type 0
  AllEncoded [] = Unit
  AllEncoded (e ∷ es) = (is_encoded (hashed e) ≡ true) × AllEncoded es

agree_on :
    (p q : Payload) (ks : List Text)
    → ((key : Text) → Occurs key ks → lookup key p ≡ lookup key q)
      ⊎ ((key : Text) × (lookup key p ≢ lookup key q))
unfolding Held-discrete
agree_on p q [] = inl (λ key o. absurd o)
agree_on p q (k ∷ ks) = elim (Held-discrete (lookup k p) (lookup k q)) [
  | no n ↦ inr (k, n)
  | yes e ↦ elim (agree_on p q ks) [
    | inr other ↦ inr other
    | inl all ↦ inl (λ key o. elim o [
      | inl same ↦ subst (λ x. lookup x p ≡ lookup x q) (sym same) e
      | inr later ↦ all key later
    ])
  ]
]

SameMap-cases : (p q : Payload) → SameMap p q ⊎ (¬ SameMap p q)
unfolding agree_on
SameMap-cases p q = elim (agree_on p q (keys p)) [
  | inr (key, n) ↦ inr (λ same. n (same key))
  | inl left ↦ elim (agree_on p q (keys q)) [
    | inr (key, n) ↦ inr (λ same. n (same key))
    | inl right ↦ inl (λ key. elim (Option-cases (lookup key p)) [
      | inr (held, h) ↦ left key ((keys_iff key p).1 (held, h))
      | inl none_p ↦ elim (Option-cases (lookup key q)) [
        | inr (held, h) ↦ right key ((keys_iff key q).1 (held, h))
        | inl none_q ↦ none_p ∙ sym none_q
      ]
    ])
  ]
]

unfoldable pub SameFields-cases : (h k : Hashed) → SameFields h k ⊎ (¬ SameFields h k)
unfolding SameMap-cases Hashed-discrete
SameFields-cases h k =
    elim (Hashed-discrete (record h { payload = [] }) (record k { payload = [] })) [
      | no n ↦ inr (λ same. n same.0)
      | yes e ↦ elim (SameMap-cases h.payload k.payload) [
        | inl same ↦ inl (e, same)
        | inr n ↦ inr (λ same. n same.1)
      ]
    ]
