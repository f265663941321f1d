-- ===== src/Store/Memory/Tests.antt =====
-- The memory store after a few calls.
use adtp.Prelude.{◌≡◌, refl, List, [], ◌∷◌, none, Text-eq, text_eq, ok, lookup, insert}
use adtp.Revocation.Authority.{revoked}
use adtp.Revocation.Tests.{codec, entry}
use adtp.Store.Memory.{new_store, get}
use adtp.Store.Memory.Addressed.{
  Call, agent_put, credential_put, registered, entry_revoked, perform_all, perform_all-IsAddressed,
}
use adtp.Store.Memory.Credentials.{IsAddressed}
use adtp.Samples.{crypto, root_raw, block_raw, root_cid, block_cid}
use adtp.Prelude.{pos}

abbrev calls : List Call
calls = credential_put root_raw ∷ agent_put none ∷ entry_revoked (entry (pos 1) revoked) ∷ []

abbrev more : List Call
more = credential_put block_raw ∷ registered block_cid (block_cid ∷ root_cid ∷ []) ∷ []

get_run : get (perform_all crypto codec new_store calls) root_cid ≡ ok root_raw
unfolding perform_all get new_store text_eq lookup insert
get_run = refl

perform_all-IsAddressed_example : IsAddressed crypto (perform_all crypto codec new_store calls)
perform_all-IsAddressed_example = perform_all-IsAddressed crypto codec calls
