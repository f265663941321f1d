-- ===== src/Credential/Capability/Kind.antt =====
-- The constants of type ConstraintType, of capability.go and restrict.go.
use adtp.Prelude.{Text, codes}

abbrev pub time_window : Text
time_window = codes "time_window"

abbrev pub budget : Text
budget = codes "budget"

abbrev pub param_limit : Text
param_limit = codes "param_limit"

abbrev pub parameter_schema : Text
parameter_schema = codes "parameter_schema"

abbrev pub resource_restrict : Text
resource_restrict = codes "resource_restrict"

abbrev pub action_restrict : Text
action_restrict = codes "action_restrict"

abbrev pub method_restrict : Text
method_restrict = codes "method_restrict"

abbrev pub max_calls : Text
max_calls = codes "max_calls"

abbrev pub delegation_depth : Text
delegation_depth = codes "delegation_depth"
