-- ===== src/Lib.antt =====
-- Verification of the core of ADTP: delegated capabilities of agents, their verification, revocation and
-- audit. A root token (UCAN) grants capabilities; each RESTRICT block delegates them with caveats; a
-- request names the leaf of such a chain by its content identifier, and the verifier decides on it.
--
-- Parts, and how their state and operations correspond to the code:
--   Prelude         Shared helpers (white space and Atoi of Go's strings among them): a Go string is the
--                   list of its bytes (`Text`), an int64 is an integer whose additions wrap (`add64`,
--                   `sub64`), a Go map an association list, a pair of value and error a `Result`.
--   Signing         internal/signing/sign.go: Sign, Verify over canonical bytes with the domain prefix.
--   Signing.Jcs     internal/signing/jcs.go: the writers and the loops of the canonicalizer, as calls on a
--                   decoder's state; Document has Canonicalize and the encoding check. Tree says what the
--                   canonical form of a JSON tree is, Canonical, Document/Whole, Order and Strings prove it.
--   Identity        internal/identity: Digits and Conversion (positional notation), Base58 (base58Encode,
--                   base58Decode), DidKey (EncodeDID, ParseDID), KeyStore (MemoryKeyStore); DidKey/OneDid
--                   and KeyStore/Mapped prove what they promise.
--   Credential.Uri  CanonicalizeURI and URICovers of internal/credential/capability.go, uri_covers.go;
--                   Uri/Covers relates them to a relation of matching.
--   Credential.Capability, Restrict, Ucan, Cid
--                   internal/credential: constraints and their validation, RESTRICT blocks
--                   (CreateRestrictBlock, ParseRestrictBlock, ValidateAgainstParent), tokens (createUCAN,
--                   ParseUCAN), content identifiers. Restrict/Issuance relates issuance to parsing.
--   Delegation      internal/delegation: BuildChain, the proof store, DelegateRestrict. Chains, Walk and
--                   Pinning prove what a built chain is.
--   Lifecycle       internal/lifecycle: the state machine of an agent; Machine and History follow runs.
--   Revocation      internal/revocation: authority.go, entry.go, list.go, cache.go. Entry/Authentic says what
--                   makes an entry pass, Cache/Sequence follows the cache over updates, and
--                   Authority/Model states the authority model as relations.
--   Revocation.Registration, Cascade, Reconciliation
--                   cascade.go, reconciliation.go: the registration index, ExecuteCascade and Reconcile over
--                   interfaces whose services share one state; Cascade/Memory and Reconciliation/Memory fill
--                   these with the in-memory ones.
--   Audit           internal/audit: Append, Query, VerifyChain; Audit/Content says when two entries have the same
--                   content, Audit/Linked is about the hash links.
--   Store.Memory    store/memory/store.go: the backend in memory; Addressed is about its credentials.
--   Verify          internal/verify: Config (configuration and requests), Elements (field accessors and
--                   loops), Steps, Unrevoked (step 6; Cascaded joins it to the cascade), Authorize (step 8),
--                   Caveats (evaluateConstraint), Pop (VerifyInvocation and the nonce cache), Errors, Codes,
--                   and Run, which is Verify with the audit records. Its state is the nonce cache and the audit log.
--   Config          config/config.go: Load, applyEnv, validate; Settings has the types and Default, Loaded says
--                   what is loaded.
--   Siem            internal/siem/siem.go: the exporter's buffer, with Enqueue, the two sections of Flush and
--                   the loop of Start as steps; Siem/Capped is about the cap, Siem/Exported about runs.
--   Api             api/v1 and pkg/adtp. Messages has the requests and responses; Service the state of the
--                   daemon (store, key store, nonce cache, list number) and the calls of the components on it;
--                   Handlers, Verification and Revocations (handlers.go) a function per handler, from a decoded
--                   body and a state to a state and a response; Middleware (middleware.go, api.go) and Oidc
--                   (oidc.go) what stands before the handlers. The other children prove what the handlers'
--                   answers mean in terms of the components: Verification/Authorized, Rooted, Delegated,
--                   Revocations/Compromised, and Cascaded, which joins these.
--   Samples         Concrete codecs, credentials and requests on which the tests run the model.
--
-- A call of Verify reads the clock several times; the readings are the record `Clock`. A mutex makes
-- each call of a cache or log one step. BuildChain loops on fuel, the depth cap plus two: each round
-- either ends or adds an element, and more than the cap plus one elements are refused. The canonicalizer
-- has twice the text's length as fuel: of two rounds at least one reads a token, which takes a byte.
--
-- Code outside these packages is a parameter: Ed25519, SHA-256 and base64 (`Crypto`), JSON encoding and
-- decoding (`BlockCodec`, `TokenCodec`, `EntryCodec`, `AuditCodec`, `Decoder`), the UTF-16 encoding of a
-- key, the order in which Go visits a map (`iterate`). The credentials, entries and audit records take
-- their canonical bytes and the I-JSON check from these codecs, and the verifier takes the resolution of a
-- DID (`parse_did`) as an argument, where the program calls Signing.Jcs and Identity.DidKey. Hypotheses
-- on parameters are named where they are used (`CryptoLaws`, `RoundTrips`, `Consumes`, `Reads`, `IsFaithful`); services
-- behind an interface state what they keep (`KeepsEntries`, `KeepsLinks`), which the in-memory ones prove.
--
-- The API takes url.Parse, the decoding of a body (`Body`), of YAML, of tokens and JWKS documents (`OidcCodec`),
-- the answer of the rate limiter and what a request draws (`Draws`: clock, key and nonce) as arguments.
--
-- Not modelled: the PostgreSQL stores of store/postgres, which are SQL statements; the daemon cmd/adtpd, which
-- reads flags, files and signals and wires the components; net/http's choice of the handler; the retrieval of a
-- JWKS document and its cache; the HTTP request of the SIEM exporter and its headers; the rate limit's number,
-- a float; log lines. Keys and nonces are drawn outside. strings.ToLower is modelled on the bytes that decide:
-- letters of ASCII and the two code points whose lower case is ASCII.
pub mod Prelude
pub mod Lifecycle
pub mod Signing
pub mod Identity
pub mod Credential
pub mod Delegation
pub mod Audit
pub mod Revocation
pub mod Store
pub mod Verify
pub mod Config
pub mod Siem
pub mod Api
pub mod Samples
