-- ===== src/Credential/Capability/Ability.antt =====
-- The five abilities of capability.go.
use adtp.Prelude.{Text, codes}

abbrev pub tool_invoke : Text
tool_invoke = codes "tool/invoke"

abbrev pub resource_read : Text
resource_read = codes "resource/read"

abbrev pub resource_write : Text
resource_write = codes "resource/write"

abbrev pub agent_delegate : Text
agent_delegate = codes "agent/delegate"

abbrev pub api_call : Text
api_call = codes "api/call"
