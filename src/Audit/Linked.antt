-- ===== src/Audit/Linked.antt =====
-- The hash links of the audit log: what Append keeps, and what VerifyChain detects.
use adtp.Prelude.{
  ◌≡◌, refl, ◌≢◌, ◌⊎◌, inl, inr, sym, ap, subst, ◌∙◌, Option, none, some, List, [], ◌∷◌, ◌++◌,
  arith, Text, Text-eq, eq_iff, eq_refl, ok, Option-cases, Bool, true, Bool-cases, ◌==◌, Occurs, ℤ,
  length,
}
use adtp.Audit.Content.{SameEntry, hashed-SameEntry, is_encoded, IsFaithful, AllEncoded}
use adtp.Audit.{
  AuditEntry, Hashed, AuditCodec, MemoryAuditLog, new_log, hashed, numbered, entry_hash, stored,
  append, verify_from, verify_chain,
}

-- Each entry has its predecessor's hash and its own.
module _ (codec : AuditCodec) where
  abbrev pub Links : Text → List AuditEntry → Type 0
  Links prev [] = Unit
  Links prev (e ∷ es) =
      (e.prev_hash ≡ prev)
      × (entry_hash codec (hashed e) ≡ some e.entry_hash)
      × Links e.entry_hash es

  verify_from→Links :
      (prev : Text) (es : List AuditEntry) → verify_from codec prev es ≡ ok tt → Links prev es
  unfolding verify_from
  verify_from→Links prev [] h = tt
  verify_from→Links prev (e ∷ es) h = elim (Option-cases (entry_hash codec (hashed e))) [
    | inl n ↦ absurd (ground arith)
    | inr (x, q) ↦ (
      ground (arith, eq_iff e.prev_hash prev),
      ground (arith, eq_iff x e.entry_hash),
      verify_from→Links e.entry_hash es (ground arith),
    )
  ]

  Links→verify_from :
      (prev : Text) (es : List AuditEntry) → Links prev es → verify_from codec prev es ≡ ok tt
  unfolding verify_from
  Links→verify_from prev [] l = refl
  Links→verify_from prev (e ∷ es) (p, q, l) =
      ground
        (arith, eq_iff e.prev_hash prev, eq_refl e.entry_hash, Links→verify_from e.entry_hash es l)

  -- The hash at the end of linked entries.
  abbrev pub end_hash : Text → List AuditEntry → Text
  end_hash prev [] = prev
  end_hash prev (e ∷ es) = end_hash e.entry_hash es

  Links-append :
      (prev : Text) (es : List AuditEntry) (e : AuditEntry)
      → Links prev es
      → e.prev_hash ≡ end_hash prev es
      → entry_hash codec (hashed e) ≡ some e.entry_hash
      → Links prev (es ++ e ∷ []) × (end_hash prev (es ++ e ∷ []) ≡ e.entry_hash)
  Links-append prev [] e l p q = ((p, q, tt), refl)
  Links-append prev (f ∷ es) e (a, b, l) p q =
      let (m, n) = Links-append f.entry_hash es e l p q in ((a, b, m), n)

  -- The invariant of a log that grows by Append.
  pub record IsLinked (l : MemoryAuditLog) : Type 0 where
    pub links : Links [] l.entries
    pub last : l.last_hash ≡ end_hash [] l.entries

  stored-IsLinked :
      (l : MemoryAuditLog) (n : AuditEntry) (o : Option Text)
      → entry_hash codec (hashed n) ≡ o
      → n.prev_hash ≡ l.last_hash
      → IsLinked l
      → IsLinked (stored codec l n o).0
  unfolding stored hashed
  stored-IsLinked l n none q p i = record { links = i.links; last = i.last }
  stored-IsLinked l n (some x) q p i =
      let new : AuditEntry = record n { entry_hash = x; entry_id = codec.make_entry_id n.seq x } in
      let (k, e) = Links-append [] l.entries new i.links (p ∙ i.last) q in
      record { links = k; last = sym e }

  append-IsLinked :
      (l : MemoryAuditLog) (e : AuditEntry) (now : ℤ)
      → IsLinked l
      → IsLinked (append codec l e now).0
  unfolding append numbered
  append-IsLinked l e now i = stored-IsLinked l (numbered l e now) _ refl refl i

  unfoldable pub append_all : MemoryAuditLog → List (AuditEntry × ℤ) → MemoryAuditLog
  append_all l [] = l
  append_all l ((e, now) ∷ es) = append_all (append codec l e now).0 es

  append_all-IsLinked :
      (l : MemoryAuditLog) (es : List (AuditEntry × ℤ)) → IsLinked l → IsLinked (append_all l es)
  unfolding append_all
  append_all-IsLinked l [] i = i
  append_all-IsLinked l ((e, now) ∷ es) i =
      append_all-IsLinked (append codec l e now).0 es (append-IsLinked l e now i)

  -- VerifyChain accepts every log that grew by Append from an empty one, failed calls included.
  pub verify_chain-append_all :
      (es : List (AuditEntry × ℤ)) → verify_chain codec (append_all new_log es) ≡ ok tt
  unfolding verify_chain new_log
  verify_chain-append_all es =
      Links→verify_from [] (append_all new_log es).entries
        (append_all-IsLinked new_log es (record { links = tt; last = refl })).links

  -- An entry of each list, with different canonical texts that have one digest.
  pub record Collision (es fs : List AuditEntry) : Type 0 where
    pub left : AuditEntry
    pub right : AuditEntry
    pub in_left : Occurs left es
    pub in_right : Occurs right fs
    pub text_left : Text
    pub text_right : Text
    pub written_left : codec.canonical (hashed left) ≡ some text_left
    pub written_right : codec.canonical (hashed right) ≡ some text_right
    pub differ : text_left ≢ text_right
    pub one_digest : codec.digest text_left ≡ codec.digest text_right

  later_collision :
      (e f : AuditEntry) {es fs : List AuditEntry} → Collision es fs → Collision (e ∷ es) (f ∷ fs)
  later_collision e f c = record {
    left = c.left;
    right = c.right;
    in_left = inr c.in_left;
    in_right = inr c.in_right;
    text_left = c.text_left;
    text_right = c.text_right;
    written_left = c.written_left;
    written_right = c.written_right;
    differ = c.differ;
    one_digest = c.one_digest;
  }

  -- The same content and the same hash, entry by entry.
  abbrev pub SameContent : List AuditEntry → List AuditEntry → Type 0
  SameContent [] [] = Unit
  SameContent (e ∷ es) (f ∷ fs) = SameEntry e f × (e.entry_hash ≡ f.entry_hash) × SameContent es fs
  SameContent _ _ = ⊥

  entry_hash-eq-some :
      (h : Hashed) (x : Text)
      → entry_hash codec h ≡ some x
      → (t : Text) × (codec.canonical h ≡ some t) × (codec.digest t ≡ x)
  unfolding entry_hash
  entry_hash-eq-some h x q = elim (Option-cases (codec.canonical h)) [
    | inl n ↦ absurd (ground arith)
    | inr (t, p) ↦ (t, p, ground arith)
  ]

  -- Two entries with one hash.
  heads :
      (utf8_valid : Text → Bool) (e f : AuditEntry) (es fs : List AuditEntry)
      → IsFaithful utf8_valid codec
      → is_encoded utf8_valid (hashed e) ≡ true
      → is_encoded utf8_valid (hashed f) ≡ true
      → entry_hash codec (hashed e) ≡ some e.entry_hash
      → entry_hash codec (hashed f) ≡ some f.entry_hash
      → e.entry_hash ≡ f.entry_hash
      → SameEntry e f ⊎ Collision (e ∷ es) (f ∷ fs)
  heads utf8_valid e f es fs faithful ve vf he hf x =
      let (a, p, d) = entry_hash-eq-some (hashed e) e.entry_hash he in
      let (b, q, d') = entry_hash-eq-some (hashed f) f.entry_hash hf in
      elim (Bool-cases (a == b)) [
        | inl t ↦ inl (
            hashed-SameEntry e f
              (faithful (hashed e) (hashed f) b ve vf (p ∙ ap (λ y. some y) ((eq_iff a b).0 t)) q))
        | inr n ↦ inr (record {
          left = e;
          right = f;
          in_left = inl refl;
          in_right = inl refl;
          text_left = a;
          text_right = b;
          written_left = p;
          written_right = q;
          differ = λ same. ground (arith, eq_iff a b);
          one_digest = d ∙ x ∙ sym d';
        })
      ]

  unwind :
      (utf8_valid : Text → Bool) (p q : Text) (es fs : List AuditEntry)
      → IsFaithful utf8_valid codec
      → AllEncoded utf8_valid es
      → AllEncoded utf8_valid fs
      → Links p es
      → Links q fs
      → length es ≡ length fs
      → end_hash p es ≡ end_hash q fs
      → ((p ≡ q) × SameContent es fs) ⊎ Collision es fs
  unwind utf8_valid p q [] [] faithful v w a b n h = inl (h, tt)
  unwind utf8_valid p q [] (f ∷ fs) faithful v w a b n h = absurd (omega arith)
  unwind utf8_valid p q (e ∷ es) [] faithful v w a b n h = absurd (omega arith)
  unwind utf8_valid p q (e ∷ es) (f ∷ fs) faithful (ve, v) (vf, w) (pe, he, le) (pf, hf, lf) n h =
      join (unwind utf8_valid e.entry_hash f.entry_hash es fs faithful v w le lf (omega arith) h)
    where
      join :
          ((e.entry_hash ≡ f.entry_hash) × SameContent es fs) ⊎ Collision es fs
          → ((p ≡ q) × SameContent (e ∷ es) (f ∷ fs)) ⊎ Collision (e ∷ es) (f ∷ fs)
      join (inr c) = inr (later_collision e f c)
      join (inl (x, same)) = elim (heads utf8_valid e f es fs faithful ve vf he hf x) [
        | inl k ↦ inl (sym pe ∙ k.prev_hash ∙ pf, (k, x, same))
        | inr c ↦ inr c
      ]

  -- A log cannot be rewritten under its last hash: two logs of equally many entries that both pass
  -- VerifyChain and end in the same hash agree throughout in their hashes and in all fields but the
  -- identifier, the payloads compared as maps, unless the canonical texts of an entry of one and an entry
  -- of the other differ and have one digest. (The texts in the entries are valid UTF-8, and the canonical
  -- texts of such entries are assumed to tell different fields apart.)
  pub verify_chain_tamper_evident :
      (utf8_valid : Text → Bool) (l m : MemoryAuditLog)
      → IsFaithful utf8_valid codec
      → AllEncoded utf8_valid l.entries
      → AllEncoded utf8_valid m.entries
      → verify_chain codec l ≡ ok tt
      → verify_chain codec m ≡ ok tt
      → length l.entries ≡ length m.entries
      → end_hash [] l.entries ≡ end_hash [] m.entries
      → SameContent l.entries m.entries ⊎ Collision l.entries m.entries
  unfolding verify_chain
  verify_chain_tamper_evident utf8_valid l m faithful v w a b n h =
      elim (unwind utf8_valid [] [] l.entries m.entries faithful v w
        (verify_from→Links [] l.entries a) (verify_from→Links [] m.entries b) n h) [
          | inl (p, s) ↦ inl s
          | inr c ↦ inr c
        ]

  Links-prefix : (p : Text) (es fs : List AuditEntry) → Links p (es ++ fs) → Links p es
  Links-prefix p [] fs l = tt
  Links-prefix p (e ∷ es) fs (a, b, l) = (a, b, Links-prefix e.entry_hash es fs l)

  -- VerifyChain does not see that entries are cut off at the end: what is left still passes.
  verify_chain_truncated :
      (l : MemoryAuditLog) (es fs : List AuditEntry)
      → l.entries ≡ es ++ fs
      → verify_chain codec l ≡ ok tt
      → verify_chain codec (record l { entries = es }) ≡ ok tt
  unfolding verify_chain
  verify_chain_truncated l es fs q h =
      Links→verify_from [] es
        (Links-prefix [] es fs (subst (λ x. Links [] x) q (verify_from→Links [] l.entries h)))
