-- ===== src/Verify/Caveats.antt =====
-- evaluateConstraint and numericParam of internal/verify/steps.go.
use adtp.Prelude.{
  ◌^◌, Bool, true, false, not, ◌&&◌, ◌||◌, Option, none, some, List, [], ◌∷◌, Text, Text-eq, codes,
  contains, if◌then◌else◌, lookup, ℤ, pos, negsuc, ltb_ℤ, leb_ℤ,
}
use adtp.Credential.Uri.{uri_covers}
use adtp.Credential.Capability.{
  Constraint, time_window, budget, param_limit, parameter_schema, resource_restrict,
  action_restrict, method_restrict, max_calls, delegation_depth, raw_constraint, permits,
}

-- A value of the map[string]any of parameters, as numericParam and the method test see it. A float64
-- that is integral is given by its value; `fractional` is any other, the infinities and NaN included.
pub data Param : Type 0 where
  int : ℤ → Param
  float : ℤ → Param
  fractional : Param
  str : Text → Param
  other : Param

abbrev pub Params : Type 0
Params = List (Text × Param)

pub record InvocationContext : Type 0 where
  pub action : Text
  pub resource : Text
  pub parameters : Params
  pub now : ℤ
  pub metering_enabled : Bool

-- The float64 comparisons n < math.MinInt64 and n >= math.MaxInt64 are with -2^63 and 2^63.
numeric_param : Param → Option ℤ
numeric_param (int n) = some n
numeric_param (float n) =
    if ltb_ℤ n (negsuc 9223372036854775807) || leb_ℤ (pos (2 ^ 63)) n then none else some n
numeric_param fractional = none
numeric_param (str s) = none
numeric_param other = none

string_param : Option Param → Option Text
string_param (some (str s)) = some s
string_param _ = none

-- An absent parameter is not bounded; one that is no int64 is refused.
within_limit : Option Param → ℤ → Bool
unfolding numeric_param
within_limit none max = true
within_limit (some p) max = elim (numeric_param p) [ none ↦ false | some n ↦ not (ltb_ℤ max n) ]

-- `true` is a nil error.
unfoldable pub evaluate_constraint : Constraint → InvocationContext → Bool
unfolding uri_covers permits contains lookup string_param within_limit
evaluate_constraint (time_window type w) ctx = not (ltb_ℤ ctx.now w.start || leb_ℤ w.end ctx.now)
evaluate_constraint (resource_restrict type resource) ctx = uri_covers resource ctx.resource
evaluate_constraint (action_restrict type actions) ctx = permits actions ctx.action
evaluate_constraint (method_restrict type methods) ctx =
    elim (string_param (lookup (codes "method") ctx.parameters)) [
      | none ↦ false
      | some m ↦ contains methods m
    ]
evaluate_constraint (param_limit type field max) ctx =
    within_limit (lookup field ctx.parameters) max
evaluate_constraint (budget type dim limit window scope meter) ctx = ctx.metering_enabled
evaluate_constraint (max_calls type limit window) ctx = ctx.metering_enabled
evaluate_constraint (delegation_depth type max) ctx = true
evaluate_constraint (parameter_schema type schema) ctx = ctx.metering_enabled
evaluate_constraint (raw_constraint type raw) ctx = false

-- The loops over a list of constraints stop at the first that fails.
unfoldable pub evaluate_all : List Constraint → InvocationContext → Bool
unfolding evaluate_constraint
evaluate_all [] ctx = true
evaluate_all (c ∷ cs) ctx = evaluate_constraint c ctx && evaluate_all cs ctx
