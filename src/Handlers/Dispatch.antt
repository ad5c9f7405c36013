-- ===== src/Handlers/Dispatch.antt =====
-- internal/daemon/daemon.go: `HandleMessage`.
pub mod Replies
pub mod OneReply
pub mod Keeping
pub mod Moving
use Prim.Native.String.{len}
use cognitiveosd.Prelude.{ℕ, String, ◌++◌, ◌==◌, ltb, if◌then◌else◌}
use cognitiveosd.Protocol.Env.{Env}
use cognitiveosd.Daemon.{Daemon, State, shutdown, Action, send_error}
use cognitiveosd.Handlers.{
  Request, handle_audit_request, handle_cpm_tune, handle_input_forward, handle_mcp_register,
  handle_mcp_result, handle_mcp_unregister, handle_status_request, handle_wide_model_load,
  handle_wide_model_unload,
}
use cognitiveosd.Handlers.Codes.{handle_system_code}

-- The switch on the type.
unfoldable pub dispatch : Env → Request → ℕ → Action
dispatch env req c =
    if req.type == "input_forward"
    then handle_input_forward env req c
    else if req.type == "system_code"
    then handle_system_code env req c
    else if req.type == "mcp_register"
    then handle_mcp_register env req c
    else if req.type == "mcp_unregister"
    then handle_mcp_unregister env req c
    else if req.type == "mcp_result"
    then handle_mcp_result env req c
    else if req.type == "audit_request"
    then handle_audit_request env req c
    else if req.type == "status_request"
    then handle_status_request env req c
    else if req.type == "wide_model_load"
    then handle_wide_model_load env req c
    else if req.type == "wide_model_unload"
    then handle_wide_model_unload env req c
    else if req.type == "cpm_tune"
    then handle_cpm_tune env req c
    else send_error env req c "E_UNKNOWN_TYPE" ("unknown message type: " ++ req.type)

abbrev pub max_payload : ℕ
max_payload = 1048576

abbrev pub sized : Env → Request → ℕ → Action
sized env req c =
    if ltb max_payload (len req.payload)
    then send_error env req c "E_TOO_LARGE" "message exceeds 1 MB limit"
    else dispatch env req c

unfoldable pub handle_in : State → Env → Request → ℕ → Action
handle_in shutdown env req c = send_error env req c "E_SHUTDOWN" "daemon is shutting down"
handle_in _ env req c = sized env req c

-- `HandleMessage`
unfoldable pub handle_message : Env → Request → ℕ → Action
unfolding handle_in
handle_message env req c d = handle_in d.state env req c d
