-- ===== src/Siem/Exported.antt =====
-- What the webhook gets, whatever the order of the steps.
use adtp.Prelude.{
  ℕ, ◌+◌, ◌≤◌, ℤ, ◌≡◌, refl, sym, ap, subst, ◌∙◌, Option, none, some, List, [], ◌∷◌, ◌++◌, arith,
  length, length-append,
}
use mathlib.Core.List.{append_assoc, append-nil}
use adtp.Audit.{AuditEntry}
use adtp.Siem.Capped.{
  IsSublist, nil, sub_trans, sub_append, sub_behind, capped-sub, length-capped, capped_whole,
}
use adtp.Siem.{
  Exporter, Export, Event, Wake, ticked, full_batch, cancelled, enqueued, woken, posted, failed,
  capped, enqueue, take_batch, requeue, receive, took, take_step, post_step, fail_step, step, run,
  start, new_exporter,
}

abbrev pub in_flight : Option (List AuditEntry) → List AuditEntry
in_flight none = []
in_flight (some batch) = batch

-- The entries that the steps enqueue.
pub offered : List Event → List AuditEntry
offered [] = []
offered (enqueued entry ∷ es) = entry ∷ offered es
offered (woken w ∷ es) = offered es
offered (posted ∷ es) = offered es
offered (failed ∷ es) = offered es

-- What is acknowledged, under way and waiting are some of the entries offered, in their order; the buffer is within
-- the cap; and while no more than the cap have been offered, none is missing.
pub record Accounts (cap : ℕ) (given acknowledged sending buf : List AuditEntry) : Type 0 where
  pub bounded : length buf ≤ cap
  pub ordered : IsSublist (acknowledged ++ (sending ++ buf)) given
  pub complete : length given ≤ cap → acknowledged ++ (sending ++ buf) ≡ given

module _ (cap : ℕ) {given : List AuditEntry} (a s b : List AuditEntry)
    (f : Accounts cap given a s b) where
  appended : (e : AuditEntry) → a ++ (s ++ (b ++ e ∷ [])) ≡ (a ++ (s ++ b)) ++ e ∷ []
  appended e = simp append_assoc

  fits : length given ≤ cap → length s + length b ≤ cap
  fits h = omega (arith, ap length (f.complete h), length-append a (s ++ b), length-append s b)

  enqueue-Accounts :
      (e : AuditEntry) → Accounts cap (given ++ e ∷ []) a s (capped cap (b ++ e ∷ []))
  enqueue-Accounts e = record {
    bounded = length-capped cap (b ++ e ∷ []);
    ordered =
        sub_trans
          (subst (λ l. IsSublist l (given ++ e ∷ [])) (sym (appended e))
            (sub_append (e ∷ []) f.ordered))
          (sub_behind a (sub_behind s (capped-sub cap (b ++ e ∷ []))));
    complete = λ h.
        let small : length given ≤ cap = omega (arith, length-append given (e ∷ [])) in
        let room : length (b ++ e ∷ []) ≤ cap = omega (
          arith,
          h,
          length-append given (e ∷ []),
          length-append b (e ∷ []),
          ap length (f.complete small),
          length-append a (s ++ b),
          length-append s b,
        ) in
        ap (λ l. a ++ (s ++ l)) (capped_whole cap (b ++ e ∷ []) room)
        ∙ appended e
        ∙ ap (λ l. l ++ e ∷ []) (f.complete small);
  }

  fail-Accounts : Accounts cap given a [] (capped cap (s ++ b))
  fail-Accounts = record {
    bounded = length-capped cap (s ++ b);
    ordered = sub_trans f.ordered (sub_behind a (capped-sub cap (s ++ b)));
    complete = λ h.
        let room : length (s ++ b) ≤ cap = omega (arith, fits h, length-append s b) in
        ap (λ l. a ++ l) (capped_whole cap (s ++ b) room) ∙ f.complete h;
  }

  post-Accounts : Accounts cap given (a ++ s) [] b
  post-Accounts =
      let same : a ++ (s ++ b) ≡ (a ++ s) ++ b = sym (append_assoc a s b) in
      record {
        bounded = f.bounded;
        ordered = subst (λ l. IsSublist l given) same f.ordered;
        complete = λ h. sym same ∙ f.complete h;
      }

take-Accounts :
    (cap : ℕ) {given : List AuditEntry} (a b : List AuditEntry)
    → Accounts cap given a [] b
    → Accounts cap given a b []
take-Accounts cap a b f = record {
  bounded = omega arith;
  ordered = rw (append-nil b) f.ordered;
  complete = λ h. rw (append-nil b) (f.complete h);
}

-- The same of an exporter with its flush.
record IsFaithful (cap : ℕ) (given : List AuditEntry) (x : Export) : Type 0 where
  cap_kept : x.exporter.max_buffered ≡ cap
  accounts : Accounts cap given x.acknowledged (in_flight x.sending) x.exporter.buf

received :
    (w : Wake) (e : Exporter)
    → ((receive w e).buf ≡ e.buf) × ((receive w e).max_buffered ≡ e.max_buffered)
unfolding receive
received full_batch e = (refl, refl)
received ticked e = (refl, refl)
received cancelled e = (refl, refl)

module _ (cap : ℕ) (given : List AuditEntry) (x : Export) (f : IsFaithful cap given x) where
  enqueue-IsFaithful : (e : AuditEntry) → IsFaithful cap (given ++ e ∷ []) (step x (enqueued e))
  unfolding step enqueue
  enqueue-IsFaithful e = record {
    cap_kept = f.cap_kept;
    accounts =
        subst
          (λ c.
            Accounts cap (given ++ e ∷ []) x.acknowledged (in_flight x.sending)
              (capped c (x.exporter.buf ++ e ∷ [])))
          (sym f.cap_kept)
          (enqueue-Accounts cap x.acknowledged (in_flight x.sending) x.exporter.buf f.accounts e);
  }

  took-IsFaithful :
      (e : Exporter) (buf : List AuditEntry)
      → x.sending ≡ none
      → e.max_buffered ≡ cap
      → e.buf ≡ []
      → buf ≡ x.exporter.buf
      → IsFaithful cap given (took x (e, buf))
  unfolding took
  took-IsFaithful e [] idle c empty same = record {
    cap_kept = c;
    accounts = rw (empty ∙ same) f.accounts;
  }
  took-IsFaithful e (entry ∷ buf) idle c empty same = record {
    cap_kept = c;
    accounts = rw empty (
        take-Accounts cap x.acknowledged (entry ∷ buf) (
          rw same (
            subst (λ o. Accounts cap given x.acknowledged (in_flight o) x.exporter.buf) idle
              f.accounts)));
  }

  wake-IsFaithful :
      (w : Wake) (o : Option (List AuditEntry))
      → x.sending ≡ o
      → IsFaithful cap given (take_step w x o)
  unfolding take_step take_batch
  wake-IsFaithful w none idle =
      let (buf, c) = received w x.exporter in
      took-IsFaithful (record (receive w x.exporter) { buf = [] }) (receive w x.exporter).buf idle
        (c ∙ f.cap_kept) refl buf
  wake-IsFaithful w (some batch) busy = f

  posted-IsFaithful :
      (o : Option (List AuditEntry)) → x.sending ≡ o → IsFaithful cap given (post_step x o)
  unfolding post_step
  posted-IsFaithful none idle = f
  posted-IsFaithful (some batch) busy = record {
    cap_kept = f.cap_kept;
    accounts = post-Accounts cap x.acknowledged batch x.exporter.buf (
        subst (λ o. Accounts cap given x.acknowledged (in_flight o) x.exporter.buf) busy
          f.accounts);
  }

  failed-IsFaithful :
      (o : Option (List AuditEntry)) → x.sending ≡ o → IsFaithful cap given (fail_step x o)
  unfolding fail_step requeue
  failed-IsFaithful none idle = f
  failed-IsFaithful (some batch) busy = record {
    cap_kept = f.cap_kept;
    accounts =
        subst (λ c. Accounts cap given x.acknowledged [] (capped c (batch ++ x.exporter.buf)))
          (sym f.cap_kept)
          (fail-Accounts cap x.acknowledged batch x.exporter.buf (
            subst (λ o. Accounts cap given x.acknowledged (in_flight o) x.exporter.buf) busy
              f.accounts));
  }

run-IsFaithful :
    (cap : ℕ) (given : List AuditEntry) (es : List Event) (x : Export)
    → IsFaithful cap given x
    → IsFaithful cap (given ++ offered es) (run x es)
unfolding run step offered
run-IsFaithful cap given [] x f = rw (append-nil given) f
run-IsFaithful cap given (enqueued e ∷ es) x f = rw (← append_assoc given (e ∷ []) (offered es)) (
    run-IsFaithful cap (given ++ e ∷ []) es (step x (enqueued e))
      (enqueue-IsFaithful cap given x f e))
run-IsFaithful cap given (woken w ∷ es) x f =
    run-IsFaithful cap given es (step x (woken w)) (wake-IsFaithful cap given x f w x.sending refl)
run-IsFaithful cap given (posted ∷ es) x f =
    run-IsFaithful cap given es (step x posted) (posted-IsFaithful cap given x f x.sending refl)
run-IsFaithful cap given (failed ∷ es) x f =
    run-IsFaithful cap given es (step x failed) (failed-IsFaithful cap given x f x.sending refl)

fresh :
    (batch_size : ℤ)
    → Accounts (new_exporter batch_size).max_buffered [] [] [] (new_exporter batch_size).buf
unfolding new_exporter
fresh batch_size = record { bounded = omega arith; ordered = nil; complete = λ h. refl }

-- Whatever the order in which entries are enqueued and flushes begin, succeed and fail: what the webhook has
-- acknowledged, then the batch under way, then the buffer, are some of the entries enqueued, in their order; no
-- more than ten batches wait in the buffer; and as long as no more than that have been enqueued, none is lost. (Ten
-- times the batch size is an int.)
pub run-Accounts :
    (batch_size : ℤ) (es : List Event)
    → Accounts
        (new_exporter batch_size).max_buffered
        (offered es)
        (run (start batch_size) es).acknowledged
        (in_flight (run (start batch_size) es).sending)
        (run (start batch_size) es).exporter.buf
unfolding start
run-Accounts batch_size es =
    (run-IsFaithful (new_exporter batch_size).max_buffered [] es (start batch_size)
      (record { cap_kept = refl; accounts = fresh batch_size })).accounts
