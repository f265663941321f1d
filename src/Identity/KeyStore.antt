-- ===== src/Identity/KeyStore.antt =====
-- internal/identity/keystore.go: the in-memory key store. Lists do not alias, so the copies that the
-- program makes of a key on the way in and out are the key itself. Each call of sync.Map is one step.
pub mod Mapped
use adtp.Credential.Capability.{is_empty}
use adtp.Signing.{private_key_size}
use adtp.Prelude.{
  ℕ, Bool, true, false, not, Option, none, some, List, [], ◌∷◌, Text, Text-eq, ℕ-eq, ◌==◌,
  if◌then◌else◌, Result, ok, err, ◌>>=◌, ◌>>◌, fail_if, ok_or, length, lookup, insert, remove, keys,
  sort_by, text_ltb,
}

pub data KeyStoreErr : Type 0 where
  key_not_found empty_did invalid_private_key : KeyStoreErr

abbrev pub MemoryKeyStore : Type 0
MemoryKeyStore = List (Text × Text)

abbrev pub new_memory_key_store : MemoryKeyStore
new_memory_key_store = []

unfoldable pub store : MemoryKeyStore → Text → Text → MemoryKeyStore × Result KeyStoreErr Unit
unfolding is_empty insert
store s did priv =
    if is_empty did
    then (s, err empty_did)
    else if length priv == private_key_size
    then (insert did priv s, ok tt)
    else (s, err invalid_private_key)

unfoldable pub load : MemoryKeyStore → Text → Result KeyStoreErr Text
unfolding lookup
load s did = ok_or key_not_found (lookup did s)

-- LoadAndDelete
delete_found : MemoryKeyStore → Text → Option Text → MemoryKeyStore × Result KeyStoreErr Unit
unfolding remove
delete_found s did none = (s, err key_not_found)
delete_found s did (some key) = (remove did s, ok tt)

unfoldable pub delete : MemoryKeyStore → Text → MemoryKeyStore × Result KeyStoreErr Unit
unfolding lookup delete_found
delete s did = delete_found s did (lookup did s)

-- The DIDs in ascending order. Go's Range visits them in an order that it does not specify; sorting
-- distinct texts gives one result for all of them.
unfoldable pub list : MemoryKeyStore → List Text
unfolding keys sort_by text_ltb
list s = sort_by text_ltb (keys s)
