-- ===== src/Revocation/Cascade/Complete.antt =====
-- What a cascade that succeeds has posted, for any services that keep what is posted.
use adtp.Prelude.{
  ℕ, ◌≡◌, ◌≢◌, sym, ap, ◌∙◌, not, Option, some, List, ◌∷◌, Text, Text-eq, ℕ-eq, ◌==◌, ok, fail_if,
  ℤ, length, Occurs,
}
use adtp.Prelude.Steps.{lift, reading, >>=-eq-ok, pure-eq-ok, lift-eq-ok, reading-eq-ok}
use adtp.Signing.{Crypto, private_key_size}
use adtp.Audit.{revocation_posted, compromise_cascade}
use adtp.Revocation.Authority.{subtree, compromised, cascade}
use adtp.Revocation.Entry.{RevocationEntry, EntryCodec, invalid_key}
use adtp.Revocation.Cascade.{
  CascadeErr, revocation_error, Services, CascadeReport, append_audit, push_batch, post, post_all,
  execute_cascade, cascade_authority, posted_payload, cascade_payload,
}
use adtp.Revocation.Cascade.Posted.{
  KeepsEntries, post-IsPosted, set_at, set_elsewhere, post_all-AllPosted,
}

module _ {S : Type 0} (services : Services S) (entry_of : S → Text → Option RevocationEntry)
    (keeps : KeepsEntries services entry_of) (crypto : Crypto) (codec : EntryCodec)
    (clock : ℕ → ℤ) where
  -- What a cascade leaves: a COMPROMISED entry on `cid`, a CASCADE entry on each descendant, and all other
  -- entries as they were.
  pub record Cascaded (cid : Text) (s s' : S) (report : CascadeReport) (ds : List Text)
      : Type 0 where
    pub finds : services.find_descendants s cid ≡ ok ds
    pub counts : report.descendant_count ≡ length ds
    pub found :
        (d : Text)
        → Occurs d ds
        → (e : RevocationEntry) × (entry_of s' d ≡ some e) × (e.status ≡ cascade)
    pub primary :
        ¬ Occurs cid ds
        → (entry_of s' cid ≡ some report.primary_entry)
          × (report.primary_entry.status ≡ compromised)
    pub others : (k : Text) → k ≢ cid → ¬ Occurs k ds → entry_of s' k ≡ entry_of s k

  -- The calls of a cascade that succeeds, with the states between them.
  record Stages (cid key : Text) (s s' : S) (report : CascadeReport) : Type 0 where
    after_post : S
    after_note : S
    after_all : S
    after_push : S
    ds : List Text
    entries : List RevocationEntry
    posted :
        post services crypto codec clock subtree compromised
          (cascade_authority crypto cid key)
          key
          0
          cid
          s
        ≡ (after_post, ok report.primary_entry)
    noted :
        append_audit services revocation_posted cid posted_payload after_post ≡ (after_note, ok tt)
    read : services.find_descendants after_note cid ≡ ok ds
    all :
        post_all services crypto codec clock (cascade_authority crypto cid key) key 1 ds after_note
        ≡ (after_all, ok entries)
    pushed : push_batch services (report.primary_entry ∷ entries) after_all ≡ (after_push, ok tt)
    ended :
        append_audit services compromise_cascade cid (cascade_payload cid (length ds)) after_push
        ≡ (s', ok tt)
    counted : report.descendant_count ≡ length ds

  execute_cascade-Stages :
      (cid key : Text) (s s' : S) (report : CascadeReport)
      → execute_cascade services crypto codec clock cid key s ≡ (s', ok report)
      → Stages cid key s s' report
  unfolding execute_cascade
  execute_cascade-Stages cid key s s' report h =
      let auth = cascade_authority crypto cid key in
      let sized =
        >>=-eq-ok
          (lift (fail_if (not (length key == private_key_size)) (revocation_error invalid_key))) _
          h in
      let one =
        >>=-eq-ok (post services crypto codec clock subtree compromised auth key 0 cid) _
          sized.then in
      let noted =
        >>=-eq-ok (append_audit services revocation_posted cid posted_payload) _ one.then in
      let read = >>=-eq-ok (reading (λ t. services.find_descendants t cid)) _ noted.then in
      let all =
        >>=-eq-ok (post_all services crypto codec clock auth key 1 read.value) _ read.then in
      let sent = >>=-eq-ok (push_batch services (one.value ∷ all.value)) _ all.then in
      let ended =
        >>=-eq-ok
          (append_audit services compromise_cascade cid (cascade_payload cid (length read.value))) _
          sent.then in
      let (same, _) =
        lift-eq-ok (fail_if (not (length key == private_key_size)) (revocation_error invalid_key))
          sized.first in
      let (still, found) = reading-eq-ok (λ t. services.find_descendants t cid) read.first in
      let (end, out) = pure-eq-ok {E = CascadeErr} _ ended.then in
      let is_primary : one.value ≡ report.primary_entry = ap (λ r. r.primary_entry) out in
      record {
        after_post = one.middle;
        after_note = noted.middle;
        after_all = all.middle;
        after_push = sent.middle;
        ds = read.value;
        entries = all.value;
        posted =
            ap (post services crypto codec clock subtree compromised auth key 0 cid) same
            ∙ one.first
            ∙ ap (λ e. (one.middle, ok e)) is_primary;
        noted = noted.first;
        read = found;
        all = ap (post_all services crypto codec clock auth key 1 read.value) still ∙ all.first;
        pushed =
            ap (λ e. push_batch services (e ∷ all.value) all.middle) (sym is_primary) ∙ sent.first;
        ended = ended.first ∙ ap (λ t. (t, ok tt)) end;
        counted = sym (ap (λ r. r.descendant_count) out);
      }

  Stages-Cascaded :
      (cid key : Text) (s s' : S) (report : CascadeReport) (r : Stages cid key s s' report)
      → Cascaded cid s s' report r.ds
  Stages-Cascaded cid key s s' report r =
      let auth = cascade_authority crypto cid key in
      let first =
        post-IsPosted services entry_of keeps crypto codec clock subtree compromised auth key 0 cid
          s r.after_post report.primary_entry r.posted in
      let rest =
        post_all-AllPosted services entry_of keeps crypto codec clock auth key 1 r.ds r.after_note
          r.after_all r.entries r.all in
      let noted = keeps.appended revocation_posted cid posted_payload r.noted in
      let late : (k : Text) → entry_of s' k ≡ entry_of r.after_all k = λ k.
        keeps.appended compromise_cascade cid (cascade_payload cid (length r.ds)) r.ended k
        ∙ keeps.pushed (report.primary_entry ∷ r.entries) r.pushed k in
      record {
        finds =
            sym (first.finds cid)
            ∙ sym (keeps.appended_finds revocation_posted cid posted_payload r.noted cid)
            ∙ r.read;
        counts = r.counted;
        found = λ d o. let (e, q, has) = rest.found d o in (e, late d ∙ q, has);
        primary = λ n. (
          late cid
              ∙ rest.others cid n
              ∙ noted cid
              ∙ set_at services entry_of keeps crypto codec clock compromised cid s r.after_post
                  report.primary_entry first,
          first.has_status,
        );
        others = λ k other n.
            late k
            ∙ rest.others k n
            ∙ noted k
            ∙ set_elsewhere services entry_of keeps crypto codec clock compromised cid s
                r.after_post report.primary_entry k first other;
      }

  pub execute_cascade-Cascaded :
      (cid key : Text) (s s' : S) (report : CascadeReport)
      → execute_cascade services crypto codec clock cid key s ≡ (s', ok report)
      → (ds : List Text) × Cascaded cid s s' report ds
  execute_cascade-Cascaded cid key s s' report h =
      let r = execute_cascade-Stages cid key s s' report h in
      (r.ds, Stages-Cascaded cid key s s' report r)
