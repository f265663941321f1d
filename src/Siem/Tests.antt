-- ===== src/Siem/Tests.antt =====
-- A run of the exporter in which a flush fails while entries come in, and the theorem there.
use adtp.Prelude.{pos, ◌≡◌, refl, List, [], ◌∷◌, codes}
use adtp.Audit.{AuditEntry}
use adtp.Revocation.Cascade.{audit_entry}
use adtp.Siem.{
  Export, Event, enqueued, woken, posted, failed, ticked, full_batch, new_exporter, start, run,
}
use adtp.Siem.Exported.{Accounts, in_flight, offered, run-Accounts}

abbrev one : AuditEntry
one = audit_entry (codes "A") [] []

abbrev two : AuditEntry
two = audit_entry (codes "B") [] []

abbrev events : List Event
events =
    enqueued one
    ∷ woken full_batch
    ∷ enqueued two
    ∷ failed
    ∷ woken ticked
    ∷ posted
    ∷ enqueued one
    ∷ []

abbrev ended : Export
ended = run (start (pos 1)) events

all_sent : ended.acknowledged ≡ one ∷ two ∷ []
unfolding run start
all_sent = refl

one_waits : ended.exporter.buf ≡ one ∷ []
unfolding run start
one_waits = refl

run-Accounts_example :
    Accounts
      (new_exporter (pos 1)).max_buffered
      (offered events)
      ended.acknowledged
      (in_flight ended.sending)
      ended.exporter.buf
run-Accounts_example = run-Accounts (pos 1) events
