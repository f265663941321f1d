-- ===== src/Identity/Tests.antt =====
-- The theorems at concrete keys and identifiers.
use adtp.Identity.Digits.{zeros}
use adtp.Identity.DidKey.{encode_did, parse_did}
use adtp.Identity.DidKey.OneDid.{IsPublicKey, parse_did_iff}
use adtp.Identity.KeyStore.{new_memory_key_store}
use adtp.Identity.KeyStore.Mapped.{
  Call, storing, deleting, perform_all, promised_all, Answers, perform_all-Answers,
}
use adtp.Prelude.{◌≡◌, refl, ◌↔◌, ok, none, List, [], ◌∷◌, codes, Text, text_eq}

abbrev key : Text
key = 7 ∷ zeros 31

abbrev did : Text
did = codes "did:key:z6Mk"

did_of_key : parse_did (encode_did key) ≡ ok key
unfolding parse_did encode_did zeros text_eq
did_of_key = refl

parse_did_iff_example :
    (parse_did (encode_did key) ≡ ok key) ↔ ((encode_did key ≡ encode_did key) × IsPublicKey key)
parse_did_iff_example = parse_did_iff (encode_did key) key

abbrev calls : List Call
calls =
    storing (codes "did:key:b") (zeros 64)
    ∷ storing (codes "did:key:a") (zeros 64)
    ∷ storing (codes "did:key:c") []
    ∷ deleting (codes "did:key:b")
    ∷ []

perform_all-Answers_example :
    Answers (perform_all new_memory_key_store calls) (promised_all (λ did. none) calls)
perform_all-Answers_example = perform_all-Answers calls
