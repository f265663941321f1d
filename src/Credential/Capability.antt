-- ===== src/Credential/Capability.antt =====
-- internal/credential/capability.go and restrict.go: abilities, constraints (which are also the
-- caveats of a RESTRICT block) and capabilities, with their validation.
-- A constraint carries its `type` member beside its Go type, as the structs do. ValidateIJSON is a
-- parameter (`ijson`): internal/signing parses JSON.
pub mod Ability
pub mod Kind
use adtp.Prelude.{
  ◌≡◌, ◌≢◌, ◌↔◌, refl, arith, ℕ, suc, ◌+◌, Bool, true, false, not, ◌&&◌, ◌||◌, Option, none, some,
  List, [], ◌∷◌, ltb, Text, Text-eq, ℕ-eq, codes, ◌==◌, contains, if◌then◌else◌, Result, ok, err,
  ◌>>=◌, ◌>>◌, fail_if, map_err, ℤ, pos, ltb_ℤ, leb_ℤ, length,
}
use adtp.Credential.Uri.{UriErr, canonicalize_uri, uri_covers}

abbrev pub known_capability_types : List Text
known_capability_types =
    Ability.tool_invoke ∷ Ability.resource_read ∷ Ability.resource_write ∷ Ability.agent_delegate
    ∷ Ability.api_call ∷ []

unfoldable pub valid_capability_type : Text → Bool
unfolding contains
valid_capability_type can = contains known_capability_types can

pub data CredentialErr : Type 0 where
  unknown_capability_type capability_not_canonical invalid_constraint : CredentialErr
  bad_uri : UriErr → CredentialErr
  not_restrict_block no_caveats too_many_caveats depth_not_reduced negative_depth : CredentialErr
  non_canonical expiry_escalation not_before_regression issuer_mismatch : CredentialErr
  invalid_key missing_field missing_expiry invalid_expiry too_many_capabilities : CredentialErr
  malformed_token unsupported_header signing_failed : CredentialErr

pub record TimeWindow : Type 0 where
  pub start : ℤ
  pub end : ℤ

pub data Constraint : Type 0 where
  time_window : Text → TimeWindow → Constraint
  budget : Text → Text → ℤ → Option TimeWindow → Text → Text → Constraint
  param_limit : Text → Text → ℤ → Constraint
  parameter_schema : Text → Text → Constraint
  resource_restrict : Text → Text → Constraint
  action_restrict : Text → List Text → Constraint
  method_restrict : Text → List Text → Constraint
  max_calls : Text → ℤ → Option TimeWindow → Constraint
  delegation_depth : Text → ℤ → Constraint
  raw_constraint : Text → Text → Constraint

unfoldable pub valid_window : TimeWindow → Result CredentialErr Unit
valid_window w = do
  fail_if (ltb_ℤ w.start (pos 0) || ltb_ℤ w.end (pos 0)) invalid_constraint
  fail_if (leb_ℤ w.end w.start) invalid_constraint

valid_option_window : Option TimeWindow → Result CredentialErr Unit
unfolding valid_window
valid_option_window none = ok tt
valid_option_window (some w) = valid_window w

-- The type member of a constraint is that of its Go type.
has_type : Text → Text → Result CredentialErr Unit
has_type actual wanted = fail_if (not (actual == wanted)) invalid_constraint

canonical_resource : Text → Result CredentialErr Unit
canonical_resource uri = elim (canonicalize_uri uri) [
  | err _ ↦ err invalid_constraint
  | ok c ↦ fail_if (not (c == uri)) invalid_constraint
]

all_known : List Text → Result CredentialErr Unit
unfolding valid_capability_type
all_known [] = ok tt
all_known (a ∷ as') = if valid_capability_type a then all_known as' else err invalid_constraint

unfoldable pub is_empty {ℓ} : {A : Type ℓ} → List A → Bool
is_empty [] = true
is_empty (x ∷ xs) = false

pub is_empty_iff {ℓ} : {A : Type ℓ} (s : List A) → (is_empty s ≡ true) ↔ (s ≡ [])
unfolding is_empty
is_empty_iff [] = ground arith
is_empty_iff (c ∷ s) = ground arith

pub is_empty-false : (s : Text) → s ≢ [] → is_empty s ≡ false
unfolding is_empty
is_empty-false [] n = absurd (n refl)
is_empty-false (c ∷ s) n = refl

module _ (ijson : Text → Bool) where
  -- Constraint.Validate, for each of the ten types.
  unfoldable pub validate_constraint : Constraint → Result CredentialErr Unit
  unfolding valid_window valid_option_window has_type canonical_resource all_known is_empty
  validate_constraint (time_window type w) = do has_type type Kind.time_window; valid_window w
  validate_constraint (budget type dim limit window scope meter) = do
    has_type type Kind.budget
    fail_if (is_empty dim) invalid_constraint
    fail_if (ltb_ℤ limit (pos 0)) invalid_constraint
    fail_if (not ((scope == codes "leaf") || (scope == codes "chain"))) invalid_constraint
    fail_if (not ((meter == codes "verifier") || (meter == codes "receipts"))) invalid_constraint
    valid_option_window window
  validate_constraint (param_limit type field max) = do
    has_type type Kind.param_limit
    fail_if (is_empty field) invalid_constraint
    fail_if (ltb_ℤ max (pos 0)) invalid_constraint
  validate_constraint (parameter_schema type schema) = do
    has_type type Kind.parameter_schema
    fail_if (is_empty schema) invalid_constraint
    fail_if (not (ijson schema)) invalid_constraint
  validate_constraint (resource_restrict type resource) = do
    has_type type Kind.resource_restrict
    canonical_resource resource
  validate_constraint (action_restrict type actions) = do
    has_type type Kind.action_restrict
    fail_if (is_empty actions) invalid_constraint
    all_known actions
  validate_constraint (method_restrict type methods) = do
    has_type type Kind.method_restrict
    fail_if (is_empty methods) invalid_constraint
  validate_constraint (max_calls type limit window) = do
    has_type type Kind.max_calls
    fail_if (ltb_ℤ limit (pos 0)) invalid_constraint
    valid_option_window window
  validate_constraint (delegation_depth type max) = do
    has_type type Kind.delegation_depth
    fail_if (ltb_ℤ max (pos 0)) invalid_constraint
  validate_constraint (raw_constraint type raw) = fail_if (is_empty type) invalid_constraint

  unfoldable pub validate_constraints : List Constraint → Result CredentialErr Unit
  unfolding validate_constraint
  validate_constraints [] = ok tt
  validate_constraints (c ∷ cs) =
      let rest = validate_constraints cs in
      elim (validate_constraint c) [ ok _ ↦ rest | err e ↦ err e ]

pub record Capability : Type 0 where
  pub can : Text
  pub with : Text
  pub constraints : List Constraint

canonical_with : Text → Result CredentialErr Unit
canonical_with uri = elim (canonicalize_uri uri) [
  | err e ↦ err (bad_uri e)
  | ok c ↦ fail_if (not (c == uri)) capability_not_canonical
]

module _ (ijson : Text → Bool) where
  -- Capability.Validate
  unfoldable pub validate_capability : Capability → Result CredentialErr Unit
  unfolding valid_capability_type canonical_with validate_constraints
  validate_capability c = do
    fail_if (not (valid_capability_type c.can)) unknown_capability_type
    canonical_with c.with
    validate_constraints ijson c.constraints

  unfoldable pub new_capability : Text → Text → List Constraint → Result CredentialErr Capability
  unfolding validate_capability
  new_capability can with constraints = do
    canonical ← map_err bad_uri (canonicalize_uri with)
    let c : Capability = record { can = can; with = canonical; constraints = constraints }
    validate_capability c
    ok c

-- ActionRestrictConstraint.Permits
unfoldable pub permits : List Text → Text → Bool
unfolding contains
permits actions action = contains actions action
