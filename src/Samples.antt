-- ===== src/Samples.antt =====
-- Concrete cryptography, codecs, credentials and requests, on which the tests evaluate the model.
-- The hash is a text's length and the signature a constant, so that runs are short; nothing else uses
-- them.
use adtp.Prelude.{
  ℕ, zero, suc, ◌≡◌, refl, true, false, none, some, [], ◌∷◌, ◌++◌, Text, Text-eq, codes, ◌==◌,
  if◌then◌else◌, ok, pos, length,
}
use adtp.Signing.{Crypto}
use adtp.Credential.Capability.{Capability, Constraint, resource_restrict, delegation_depth}
use adtp.Credential.Capability.Ability
use adtp.Credential.Capability.Kind
use adtp.Credential.Restrict.{RestrictBlock, BlockCodec, DelegationParent, restrict_block_typ}
use adtp.Credential.Ucan.{
  Ucan, UcanHeader, UcanPayload, TokenCodec, ucan_typ, ucan_alg, ucan_version,
}
use adtp.Credential.Cid.{compute_cid}
use adtp.Delegation.{ProofStore, Codecs, ChainElement, Chain, token, block, Mode}
use adtp.Audit.{AuditCodec}
use adtp.Verify.Config.{VerifierConfig, UcanInvocation, InvocationRun, Clock}
use adtp.Verify.Run.{World, State}

abbrev pub zeros : ℕ → Text
zeros zero = []
zeros (suc n) = 0 ∷ zeros n

abbrev pub crypto : Crypto
crypto = record {
  sha256 = λ s. length s ∷ [];
  ed25519_verify = λ _ _ _. true;
  ed25519_sign = λ _ _. zeros 64;
  public = λ _. zeros 32;
  b64_encode = λ s. s;
  b64_decode = λ s. some s;
}

abbrev pub tools : Capability
tools = record { can = Ability.tool_invoke; with = codes "tool://x/*"; constraints = [] }

abbrev pub may_delegate : Capability
may_delegate = record {
  can = Ability.agent_delegate;
  with = codes "tool://x/*";
  constraints = delegation_depth Kind.delegation_depth (pos 1) ∷ [];
}

abbrev pub payload : UcanPayload
payload = record {
  iss = codes "did:root";
  aud = codes "did:alice";
  att = tools ∷ may_delegate ∷ [];
  prf = [];
  exp = pos 2000;
  nbf = pos 0;
  iat = pos 0;
}

abbrev pub header : UcanHeader
header = record { typ = ucan_typ; alg = ucan_alg; ucv = ucan_version }

abbrev pub tokens : TokenCodec
tokens = record {
  valid_ijson = λ _. true;
  unmarshal_header = λ _. some header;
  unmarshal_payload = λ _. some payload;
  members = λ _. some true;
  canonical_header = λ _. some (codes "h");
  canonical_payload = λ _. some (codes "p");
}

abbrev pub root_raw : Text
root_raw = codes "h.p." ++ zeros 64

-- compute_cid of the root's bytes and of the block's, spelled out.
abbrev pub root_cid : Text
root_cid = codes "bafkreice"

abbrev pub block_raw : Text
block_raw = codes "{}"

abbrev pub block_cid : Text
block_cid = codes "bafkreiac"

abbrev pub caveat : Constraint
caveat = resource_restrict Kind.resource_restrict (codes "tool://x/a")

abbrev pub restricted : RestrictBlock
restricted = record {
  typ = restrict_block_typ;
  iss = codes "did:alice";
  aud = codes "did:bob";
  prf = root_cid;
  nbf = pos 0;
  exp = pos 2000;
  dl = pos 0;
  cav = caveat ∷ [];
  crit = [];
  sig = zeros 64;
}

abbrev pub blocks : BlockCodec
blocks = record {
  valid_ijson = λ _. true;
  unmarshal = λ _. some restricted;
  canonical = λ _. some block_raw;
  unsigned = λ _. some [];
}

abbrev pub codecs : Codecs
codecs = record { crypto = crypto; blocks = blocks; tokens = tokens }

abbrev pub store : ProofStore
store cid =
    if cid == root_cid then some root_raw else if cid == block_cid then some block_raw else none

abbrev pub root_token : Ucan
root_token = record {
  header = header;
  payload = payload;
  signature = zeros 64;
  signing_input = codes "h.p";
  raw = root_raw;
}

abbrev pub root_element : ChainElement
root_element = record {
  credential = token root_token;
  cid = root_cid;
  is_root = true;
  mode = Mode.root;
}

abbrev pub block_element : ChainElement
block_element = record {
  credential = block restricted;
  cid = block_cid;
  is_root = false;
  mode = Mode.restrict;
}

abbrev pub root_chain : Chain
root_chain = record { elements = root_element ∷ []; depth = 0 }

abbrev pub leaf_chain : Chain
leaf_chain = record { elements = block_element ∷ root_element ∷ []; depth = 1 }

abbrev pub audit_codec : AuditCodec
audit_codec = record {
  canonical = λ h. some (codes "e");
  digest = λ t. t;
  make_entry_id = λ n t. t;
}

abbrev pub world : World
world = record {
  codecs = codecs;
  parse_did = λ _. some (zeros 32);
  unsigned = λ _. some [];
  audit_codec = audit_codec;
  iterate = λ xs. xs;
}

abbrev pub config : VerifierConfig
config = record {
  verifier_did = codes "did:v";
  trusted_root_dids = λ d. d == codes "did:root";
  max_chain_depth = pos 0;
  clock_skew_seconds = pos 0;
  risk_tier_fn = none;
  proof_store = some store;
  revocation_cache = some (λ _. ok none);
  registration_store = none;
  trust_policies = [];
  audit_log = true;
  expected_channel_binding = [];
  start_time = pos 0;
  metering_enabled = false;
}

abbrev pub request : InvocationRun
request = record {
  delegation_cid = block_cid;
  action = Ability.tool_invoke;
  resource = codes "tool://x/a";
  parameters = [];
}

abbrev pub invocation : UcanInvocation
invocation = record {
  typ = codes "adtp/inv/1";
  iss = codes "did:bob";
  aud = codes "did:v";
  iat = pos 1000;
  exp = pos 1050;
  nonce = codes "n";
  cb = [];
  obo = none;
  run = request;
  sig = zeros 64;
}

abbrev pub clock : Clock
clock = record {
  temporal = pos 1000;
  authorization = pos 1000;
  possession = pos 1000;
  nonce_stored = pos 0;
  nonce_tested = pos 0;
  audit = pos 1000;
  append = pos 1000;
}

abbrev pub start : State
start = record { nonces = []; audit = record { entries = []; last_hash = []; seq = pos 0 } }

abbrev pub parent : DelegationParent
parent = record { cid = root_cid; aud = codes "did:alice"; exp = pos 2000; nbf = pos 0; dl = pos 1 }

sample_root_cid : compute_cid crypto.sha256 root_raw ≡ root_cid
unfolding compute_cid
sample_root_cid = refl

sample_block_cid : compute_cid crypto.sha256 block_raw ≡ block_cid
unfolding compute_cid
sample_block_cid = refl
