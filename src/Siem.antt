-- ===== src/Siem.antt =====
-- internal/siem/siem.go: the buffer of audit entries on their way to a webhook, and the audit log of
-- api/v1/handlers.go that feeds it. The lock makes each of its sections one step: Flush takes the buffer in one,
-- sends it outside the lock, and puts it back in another if that failed; one goroutine calls it. The request itself
-- is net/http's. `batch_size` is far below 2^60, so that ten times as much is an int.
pub mod Capped
pub mod Exported
mod Tests
use adtp.Prelude.{
  ℕ, zero, suc, ◌+◌, ◌-◌, ◌*◌, ℤ, pos, negsuc, Bool, true, false, Option, none, some, List, [], ◌∷◌,
  ◌++◌, leb, if◌then◌else◌, length, Result, ok, err,
}
use adtp.Audit.{AuditEntry, AuditErr, AuditCodec, MemoryAuditLog}
use adtp.Audit

abbrev pub default_batch_size : ℕ
default_batch_size = 100

abbrev pub max_buffered_factor : ℕ
max_buffered_factor = 10

-- The entries that wait, and whether a flush has been asked for.
pub record Exporter : Type 0 where
  pub batch_size : ℕ
  pub max_buffered : ℕ
  pub buf : List AuditEntry
  pub flush_now : Bool

positive_or : ℕ → ℤ → ℕ
positive_or default (pos zero) = default
positive_or default (pos (suc n)) = suc n
positive_or default (negsuc n) = default

-- NewExporter, of the configured batch size.
unfoldable pub new_exporter : ℤ → Exporter
unfolding positive_or
new_exporter batch_size =
    let size = positive_or default_batch_size batch_size in
    record {
      batch_size = size;
      max_buffered = size * max_buffered_factor;
      buf = [];
      flush_now = false;
    }

unfoldable pub drop {ℓ} : {A : Type ℓ} → ℕ → List A → List A
drop zero xs = xs
drop (suc n) [] = []
drop (suc n) (x ∷ xs) = drop n xs

-- A buffer within the cap: the oldest entries go.
unfoldable pub capped : ℕ → List AuditEntry → List AuditEntry
unfolding drop
capped cap buf = drop (length buf - cap) buf

-- Enqueue
unfoldable pub enqueue : Exporter → AuditEntry → Exporter
unfolding capped
enqueue e entry =
    let buf = capped e.max_buffered (e.buf ++ entry ∷ []) in
    record e { buf = buf; flush_now = if leb e.batch_size (length buf) then true else e.flush_now }

-- The first section of Flush: the batch, which is empty if there is nothing to send.
unfoldable pub take_batch : Exporter → Exporter × List AuditEntry
take_batch e = (record e { buf = [] }, e.buf)

-- Its second section, after a post that failed.
unfoldable pub requeue : Exporter → List AuditEntry → Exporter
unfolding capped
requeue e batch = record e { buf = capped e.max_buffered (batch ++ e.buf) }

-- The exporter with the batch that is being sent, and what the webhook has acknowledged.
pub record Export : Type 0 where
  pub exporter : Exporter
  pub sending : Option (List AuditEntry)
  pub acknowledged : List AuditEntry

-- What wakes the loop of Start: the ticker, a full batch, the end of the context.
pub data Wake : Type 0 where
  ticked full_batch cancelled : Wake

-- The steps of the goroutines that share it.
pub data Event : Type 0 where
  enqueued : AuditEntry → Event
  woken : Wake → Event
  posted : Event
  failed : Event

-- The request for a flush is received.
receive : Wake → Exporter → Exporter
receive full_batch e = record e { flush_now = false }
receive ticked e = e
receive cancelled e = e

took : Export → Exporter × List AuditEntry → Export
took x (e, []) = record x { exporter = e }
took x (e, entry ∷ batch) = record x { exporter = e; sending = some (entry ∷ batch) }

take_step : Wake → Export → Option (List AuditEntry) → Export
unfolding took take_batch receive
take_step w x none = took x (take_batch (receive w x.exporter))
take_step w x (some batch) = x

post_step : Export → Option (List AuditEntry) → Export
post_step x none = x
post_step x (some batch) = record x { sending = none; acknowledged = x.acknowledged ++ batch }

fail_step : Export → Option (List AuditEntry) → Export
unfolding requeue
fail_step x none = x
fail_step x (some batch) = record x { exporter = requeue x.exporter batch; sending = none }

-- A step that is not possible (a flush while one is under way, an answer to none) changes nothing.
unfoldable pub step : Export → Event → Export
unfolding enqueue take_step post_step fail_step
step x (enqueued entry) = record x { exporter = enqueue x.exporter entry }
step x (woken w) = take_step w x x.sending
step x posted = post_step x x.sending
step x failed = fail_step x x.sending

unfoldable pub run : Export → List Event → Export
unfolding step
run x [] = x
run x (e ∷ es) = run (step x e) es

unfoldable pub start : ℤ → Export
unfolding new_exporter
start batch_size = record { exporter = new_exporter batch_size; sending = none; acknowledged = [] }

-- siemAuditLog.Append: the entry goes to the log, and to the exporter whatever the log says.
unfoldable pub tee_append :
    AuditCodec
    → MemoryAuditLog × Exporter
    → AuditEntry
    → ℤ
    → (MemoryAuditLog × Exporter) × Result AuditErr Unit
unfolding Audit.append enqueue
tee_append codec (log, exporter) entry now =
    let (log', result) = Audit.append codec log entry now in
    ((log', enqueue exporter entry), result)
