-- ===== src/Store/Memory.antt =====
-- store/memory/store.go: the backend in memory. Lists do not alias, so the copies of bytes and agents that the
-- program makes are the values themselves. Contexts are left out; each call is one step.
pub mod Credentials
pub mod Addressed
pub mod Tests
use adtp.Prelude.{
  ℕ, ℤ, Bool, true, false, Option, none, some, List, [], ◌∷◌, ◌++◌, Text, Text-eq, ◌==◌,
  if◌then◌else◌, Result, ok, err, ok_or, lookup, insert,
}
use adtp.Signing.{Crypto}
use adtp.Credential.Capability.{is_empty}
use adtp.Credential.Cid.{compute_cid}
use adtp.Lifecycle.{Agent}
use adtp.Audit.{MemoryAuditLog, new_log}
use adtp.Revocation.Entry.{RevocationEntry, RevocationList, EntryCodec, RevocationErr}
use adtp.Revocation.Cache.{MemoryRevocationCache, empty_cache}
use adtp.Revocation.Cache
use adtp.Revocation.Registration.{MemoryRegistrationIndex}
use adtp.Revocation.Registration

pub data StoreErr : Type 0 where
  agent_not_found credential_not_found invalid_agent : StoreErr

pub record MemoryStore : Type 0 where
  pub agents : List (Text × Agent)
  pub credentials : List (Text × Text)
  pub cred_order : List Text
  pub registrations : MemoryRegistrationIndex
  pub revocations : MemoryRevocationCache
  pub audit_log : MemoryAuditLog

unfoldable pub new_store : MemoryStore
unfolding new_log
new_store = record {
  agents = [];
  credentials = [];
  cred_order = [];
  registrations = [];
  revocations = empty_cache;
  audit_log = new_log;
}

-- PutAgent; `none` is a nil agent.
unfoldable pub put_agent : MemoryStore → Option Agent → MemoryStore × Result StoreErr Unit
unfolding is_empty insert
put_agent s none = (s, err invalid_agent)
put_agent s (some agent) =
    if is_empty agent.did
    then (s, err invalid_agent)
    else (record s { agents = insert agent.did agent s.agents }, ok tt)

unfoldable pub get_agent : MemoryStore → Text → Result StoreErr Agent
unfolding lookup
get_agent s did = ok_or agent_not_found (lookup did s.agents)

-- The order of insertion, with a new CID at its end.
ordered : Option Text → Text → List Text → List Text
ordered none cid order = order ++ cid ∷ []
ordered (some raw) cid order = order

module _ (crypto : Crypto) where
  -- PutCredential: the store, and the CID that it returns.
  unfoldable pub put_credential : MemoryStore → Text → MemoryStore × Text
  unfolding compute_cid ordered lookup insert
  put_credential s raw =
      let cid = compute_cid crypto.sha256 raw in
      (
        record s {
          credentials = insert cid raw s.credentials;
          cred_order = ordered (lookup cid s.credentials) cid s.cred_order;
        },
        cid,
      )

unfoldable pub get : MemoryStore → Text → Result StoreErr Text
unfolding lookup
get s cid = ok_or credential_not_found (lookup cid s.credentials)

unfoldable pub list_credentials : MemoryStore → List Text
list_credentials s = s.cred_order

-- The methods that pass on to the registration index and the revocation cache.
unfoldable pub register : MemoryStore → Text → List Text → MemoryStore
unfolding Registration.register
register s credential_cid chain_cids = record s {
  registrations = Registration.register s.registrations credential_cid chain_cids;
}

unfoldable pub find_descendants : MemoryStore → Text → List Text
unfolding Registration.find_descendants
find_descendants s cid = Registration.find_descendants s.registrations cid

unfoldable pub contains_link : MemoryStore → Text → Text → Bool
unfolding Registration.contains_link
contains_link s credential_cid chain_cid =
    Registration.contains_link s.registrations credential_cid chain_cid

unfoldable pub get_status : MemoryStore → Text → Option RevocationEntry
unfolding Cache.get_status
get_status s subject = Cache.get_status s.revocations subject

unfoldable pub current_seq : MemoryStore → Text → ℤ
unfolding Cache.current_seq
current_seq s subject = Cache.current_seq s.revocations subject

unfoldable pub revocation_entries : MemoryStore → List RevocationEntry
unfolding Cache.snapshot
revocation_entries s = Cache.snapshot s.revocations

-- The store with a cache that a method returned, or as it was.
with_cache :
    MemoryStore
    → Result RevocationErr MemoryRevocationCache
    → MemoryStore × Result RevocationErr Unit
with_cache s (ok cache) = (record s { revocations = cache }, ok tt)
with_cache s (err e) = (s, err e)

module _ (crypto : Crypto) (codec : EntryCodec) where
  unfoldable pub revoke : MemoryStore → RevocationEntry → MemoryStore × Result RevocationErr Unit
  unfolding Cache.revoke with_cache
  revoke s entry = with_cache s (Cache.revoke crypto codec s.revocations entry)

  unfoldable pub update_from_list :
      MemoryStore → RevocationList → Text → MemoryStore × Result RevocationErr Unit
  unfolding Cache.update_from_list with_cache
  update_from_list s list issuer_pub =
      with_cache s (Cache.update_from_list crypto codec s.revocations list issuer_pub)
