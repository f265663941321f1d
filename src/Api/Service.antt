-- ===== src/Api/Service.antt =====
-- api/v1/handlers.go: the service behind the handlers, with the backend in memory and without a SIEM exporter.
-- Its state is the store, the key store, the nonce cache and the number of the last revocation list. A call
-- that always succeeds on this backend has no failure here. Log lines are left out.
use adtp.Prelude.{
  ℕ, ℤ, pos, Option, none, some, List, [], Text, codes, Result, ok, err, map_err, length,
}
use adtp.Prelude.Steps.{Steps}
use adtp.Identity.KeyStore
use adtp.Identity.KeyStore.{MemoryKeyStore}
use adtp.Delegation.{ProofStore}
use adtp.Audit.{AuditEntry, AuditErr}
use adtp.Audit
use adtp.Lifecycle.{Agent}
use adtp.Revocation.Entry.{EntryCodec, RevocationEntry, RevocationErr}
use adtp.Store.Memory.{MemoryStore}
use adtp.Store.Memory
use adtp.Config.{Config}
use adtp.Verify.Config.{UcanInvocation, Clock}
use adtp.Verify.Pop.{MemoryNonceCache}
use adtp.Verify.Run.{World}
use adtp.Api.Messages.{Response}

-- What the handlers call outside the program's own code.
pub record Env : Type 0 where
  pub world : World
  pub entries : EntryCodec
  pub unmarshal_invocation : Text → Option UcanInvocation

-- The fields of Service that no handler changes.
pub record Service : Type 0 where
  pub platform_key : Text
  pub platform_did : Text
  pub config : Config
  pub start_time : ℤ

pub record Daemon : Type 0 where
  pub store : MemoryStore
  pub keys : MemoryKeyStore
  pub nonces : MemoryNonceCache
  pub list_seq : ℤ

-- What one request draws from outside: its readings of the clock in turn, the time at which the audit log
-- appends behind n entries, the readings of Verify, a new private key and the bytes of a nonce.
pub record Draws : Type 0 where
  pub reading : ℕ → ℤ
  pub logged : ℕ → ℤ
  pub verifying : Clock
  pub new_key : Option Text
  pub nonce : Option Text

-- An early return is the response that was written.
abbrev pub Handled : Type 0 → Type 0
Handled T = Steps Daemon Response T

-- The handler's last response, or the one of its early return.
unfoldable pub written : Daemon × Result Response Response → Daemon × Response
written (d, ok r) = (d, r)
written (d, err r) = (d, r)

found : Result Memory.StoreErr Text → Option Text
found (ok raw) = some raw
found (err e) = none

-- The proof store of the backend.
unfoldable pub proofs : Daemon → ProofStore
unfolding found Memory.get
proofs d cid = found (Memory.get d.store cid)

with_store : {E : Type 0} → Daemon → MemoryStore × Result E Unit → Daemon × Result E Unit
with_store d (store, result) = (record d { store = store }, result)

with_keys : {E : Type 0} → Daemon → MemoryKeyStore × Result E Unit → Daemon × Result E Unit
with_keys d (keys, result) = (record d { keys = keys }, result)

-- The response that a failed call is answered with.
unfoldable pub or_respond : {E T : Type 0} → Response → Steps Daemon E T → Handled T
or_respond r call d = let (d', result) = call d in (d', map_err (λ _. r) result)

unfoldable pub store_key : Text → Text → Steps Daemon KeyStore.KeyStoreErr Unit
unfolding KeyStore.store with_keys
store_key did key d = with_keys d (KeyStore.store d.keys did key)

unfoldable pub put_agent : Agent → Steps Daemon Memory.StoreErr Unit
unfolding Memory.put_agent with_store
put_agent agent d = with_store d (Memory.put_agent d.store (some agent))

unfoldable pub register : Text → List Text → Handled Unit
unfolding Memory.register
register cid chain d = (record d { store = Memory.register d.store cid chain }, ok tt)

-- An entry before the log completes it.
unfoldable pub event : Text → Text → Text → Audit.Payload → AuditEntry
event event_type agent_id cred_cid payload = record {
  entry_id = [];
  seq = pos 0;
  ts = pos 0;
  event_type = event_type;
  agent_id = agent_id;
  cred_cid = cred_cid;
  chain_hash = [];
  payload = payload;
  prev_hash = [];
  entry_hash = [];
}

abbrev pub agent_registered : Text
agent_registered = codes "AGENT_REGISTERED"

abbrev pub delegation_issued : Text
delegation_issued = codes "DELEGATION_ISSUED"

module _ (env : Env) where
  unfoldable pub put_credential : Text → Handled Text
  unfolding Memory.put_credential
  put_credential raw d =
      let (store, cid) = Memory.put_credential env.world.codecs.crypto d.store raw in
      (record d { store = store }, ok cid)

  unfoldable pub revoke : RevocationEntry → Steps Daemon RevocationErr Unit
  unfolding Memory.revoke with_store
  revoke entry d = with_store d (Memory.revoke env.world.codecs.crypto env.entries d.store entry)

  module _ (logged : ℕ → ℤ) where
    unfoldable pub append : AuditEntry → Steps Daemon AuditErr Unit
    unfolding Audit.append
    append entry d =
        let log = d.store.audit_log in
        let (log', result) =
          Audit.append env.world.audit_codec log entry (logged (length log.entries)) in
        (record d { store = record d.store { audit_log = log' } }, result)

    -- `_ = Append(…)`: the error is dropped.
    unfoldable pub note : AuditEntry → Handled Unit
    unfolding append
    note entry d = ((append entry d).0, ok tt)
