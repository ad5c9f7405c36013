-- ===== src/Protocol/Decoding.antt =====
-- internal/daemon/types.go and handlers.go: how encoding/json reads the messages and their payloads.
use cognitiveosd.Prelude.{String, false, Option, none, some, List}
use cognitiveosd.Prelude.Int.{ℤ}
use cognitiveosd.Json.{
  Json, Fields, Decoder, d_string, d_bool, d_int, d_raw, d_struct, d_pointer, d_slice, member,
}
use cognitiveosd.Prelude.Opt.{◌>>=◌}
use cognitiveosd.Protocol.{
  Envelope, ErrorInfo, InputContext, InputPayload, SystemCodePayload, McpTool, McpInfo,
  McpRegisterPayload, ContentItem, McpResultPayload, TunePayload, no_info,
}

read_context : Fields → InputContext → Option InputContext
read_context fs r = do
  s ← member d_string "session_id" fs r.session_id
  d ← member d_string "device" fs r.device
  some (record { session_id = s; device = d })

read_input : Fields → InputPayload → Option InputPayload
unfolding read_context
read_input fs r = do
  m ← member d_string "mode" fs r.mode
  c ← member d_string "content" fs r.content
  x ←
      member (d_pointer (record { session_id = ""; device = "" }) (d_struct read_context)) "context"
        fs r.context
  some (record { mode = m; content = c; context = x })

unfoldable pub decode_input : Json → Option InputPayload
unfolding read_input
decode_input = d_struct read_input (record { mode = ""; content = ""; context = none })

read_system_code : Fields → SystemCodePayload → Option SystemCodePayload
read_system_code fs r = do
  c ← member d_string "code" fs r.code
  u ← member d_string "unlock_code" fs r.unlock_code
  o ← member d_string "origin" fs r.origin
  some (record { code = c; unlock_code = u; origin = o })

unfoldable pub decode_system_code : Json → Option SystemCodePayload
unfolding read_system_code
decode_system_code = d_struct read_system_code (record { code = ""; unlock_code = ""; origin = "" })

read_tool : Fields → McpTool → Option McpTool
read_tool fs r = do
  n ← member d_string "name" fs r.name
  d ← member d_string "description" fs r.description
  i ← member d_raw "inputSchema" fs r.input_schema
  some (record { name = n; description = d; input_schema = i })

read_info : Fields → McpInfo → Option McpInfo
read_info fs r = do
  n ← member d_string "name" fs r.name
  v ← member d_string "version" fs r.version
  t ← member d_string "transport" fs r.transport
  p ← member d_int "pid" fs r.pid
  some (record { name = n; version = v; transport = t; pid = p })

read_register : Fields → McpRegisterPayload → Option McpRegisterPayload
unfolding read_tool read_info
read_register fs r = do
  s ← member (d_struct read_info) "server" fs r.server
  t ←
      member
        (d_slice (record { name = ""; description = ""; input_schema = none }) (d_struct read_tool))
        "tools" fs r.tools
  some (record { server = s; tools = t })

unfoldable pub decode_register : Json → Option McpRegisterPayload
unfolding read_register
decode_register = d_struct read_register (record { server = no_info; tools = List.[] })

-- A payload with one text field: the reason of `wide_model_unload` and of `mcp_unregister`.
read_reason : Fields → String → Option String
read_reason fs old = member d_string "reason" fs old

unfoldable pub decode_reason : Json → Option String
unfolding read_reason
decode_reason = d_struct read_reason ""

read_tune : Fields → TunePayload → Option TunePayload
read_tune fs t = do
  p ← member d_string "package" fs t.pkg
  b ← member d_bool "background" fs t.background
  e ← member d_int "epochs" fs t.epochs
  f ← member d_bool "finalize" fs t.finalize
  q ← member d_string "quantize" fs t.quantize
  some (record { pkg = p; background = b; epochs = e; finalize = f; quantize = q })

unfoldable pub decode_tune : Json → Option TunePayload
unfolding read_tune
decode_tune =
    d_struct read_tune
      (record { pkg = ""; background = false; epochs = ℤ.pos 0; finalize = false; quantize = "" })

-- `params` is a map of anything, and is not read any further.
d_any_map : Decoder (Unit {0})
d_any_map old Json.null = some tt
d_any_map old (Json.obj fs) = some tt
d_any_map old _ = none

read_load : Fields → String → Option String
unfolding d_any_map
read_load fs path = do
  p ← member d_string "model_path" fs path
  s ← member d_string "system_prompt" fs ""
  m ← member d_any_map "params" fs tt
  some p

-- `WideModelLoadPayload`: the path of the model.
unfoldable pub decode_load : Json → Option String
unfolding read_load
decode_load = d_struct read_load ""

read_error_info : Fields → ErrorInfo → Option ErrorInfo
read_error_info fs e = do
  c ← member d_string "code" fs e.code
  m ← member d_string "message" fs e.message
  some (record { code = c; message = m })

read_content_item : Fields → ContentItem → Option ContentItem
read_content_item fs i = do
  t ← member d_string "type" fs i.type
  x ← member d_string "text" fs i.text
  some (record { type = t; text = x })

read_result : Fields → McpResultPayload → Option McpResultPayload
unfolding read_error_info read_content_item
read_result fs r = do
  s ← member d_string "status" fs r.status
  e ←
      member (d_pointer (record { code = ""; message = "" }) (d_struct read_error_info)) "error" fs
        r.error
  c ←
      member (d_slice (record { type = ""; text = "" }) (d_struct read_content_item)) "content" fs
        r.content
  some (record { status = s; error = e; content = c })

unfoldable pub decode_result : Json → Option McpResultPayload
unfolding read_result
decode_result = d_struct read_result (record { status = ""; error = none; content = List.[] })

read_envelope : String → Fields → Envelope String → Option (Envelope String)
read_envelope payload fs e = do
  t ← member d_string "type" fs e.type
  i ← member d_string "id" fs e.id
  s ← member d_string "timestamp" fs e.timestamp
  f ← member d_string "from" fs e.from
  some (record { type = t; id = i; timestamp = s; from = f; payload = payload })

-- The envelope of a line; its payload stays the text that it is.
unfoldable pub decode_envelope : String → Json → Option (Envelope String)
unfolding read_envelope
decode_envelope payload =
    d_struct (read_envelope payload)
      (record { type = ""; id = ""; timestamp = ""; from = ""; payload = "" })
