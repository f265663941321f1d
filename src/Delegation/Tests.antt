-- ===== src/Delegation/Tests.antt =====
-- The theorems on chains at concrete inputs.
use adtp.Prelude.{
  some, if◌then◌else◌, ◌==◌, Text-eq, codes, ◌≡◌, refl, ◌≢◌, ◌⊎◌, text_eq, contains, ok, err, pos,
  negsuc,
}
use adtp.Credential.Restrict.{parse_restrict_block}
use adtp.Credential.Ucan.{parse_ucan}
use adtp.Delegation.{ProofStore, out_of_fuel, build_chain}
use adtp.Delegation.Walk.{IsBuilt, build_chain-ne-out_of_fuel, build_chain-IsBuilt}
use adtp.Delegation.Pinning.{Collision, build_chain_unique}
use adtp.Samples.{codecs, store, block_cid, leaf_chain}

leaf_run : build_chain codecs store block_cid (pos 3) ≡ ok leaf_chain
unfolding build_chain text_eq contains parse_restrict_block parse_ucan
leaf_run = refl

build_chain-ne-out_of_fuel_example : build_chain codecs store block_cid (negsuc 0) ≢ err out_of_fuel
build_chain-ne-out_of_fuel_example = build_chain-ne-out_of_fuel codecs store block_cid (negsuc 0)

build_chain-IsBuilt_example : IsBuilt codecs store block_cid (pos 3) leaf_chain
build_chain-IsBuilt_example = build_chain-IsBuilt codecs store block_cid (pos 3) leaf_chain leaf_run

-- A store with another text beside the chain, and a wider cap.
abbrev other_store : ProofStore
other_store cid = if cid == codes "bafother" then some (codes "{}") else store cid

other_run : build_chain codecs other_store block_cid (pos 9) ≡ ok leaf_chain
unfolding build_chain text_eq contains parse_restrict_block parse_ucan
other_run = refl

build_chain_unique_example : (leaf_chain ≡ leaf_chain) ⊎ Collision codecs store other_store
build_chain_unique_example =
    build_chain_unique codecs store other_store block_cid (pos 3) (pos 9) leaf_chain leaf_chain
      leaf_run other_run
