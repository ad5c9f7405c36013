-- ===== src/Protocol.antt =====
-- internal/daemon/types.go: the messages on the socket, and in daemon.go the names of the replies.
-- A message to a client keeps the Go value that `json.Marshal` would write.
pub mod Decoding
pub mod Env
pub mod Resources
pub mod Uuid
use Resources.{AuditResources}
use cognitiveosd.Prelude.{
  ℕ, String, Bool, false, Option, none, some, List, ◌==◌, if◌then◌else◌, ◌++◌,
}
use cognitiveosd.Prelude.Int.{ℤ}
use cognitiveosd.Json.{
  Json, null, Fields, Decoder, d_string, d_bool, d_int, d_raw, d_struct, d_pointer, d_slice, member,
}
use cognitiveosd.Prelude.Opt.{◌>>=◌}

-- `Envelope`, over what stands for its payload: the bytes of a document on the way in.
pub record Envelope (P : Type 0) : Type 0 where
  pub type : String
  pub id : String
  pub timestamp : String
  pub from : String
  pub payload : P

pub record ErrorInfo : Type 0 where
  pub code : String
  pub message : String

pub record InputContext : Type 0 where
  pub session_id : String
  pub device : String

pub record InputPayload : Type 0 where
  pub mode : String
  pub content : String
  pub context : Option InputContext

pub record OutputPayload : Type 0 where
  pub session_id : String
  pub content : String
  pub content_type : String

pub record SystemCodePayload : Type 0 where
  pub code : String
  pub unlock_code : String
  pub origin : String

pub record McpTool : Type 0 where
  pub name : String
  pub description : String
  pub input_schema : Option Json

pub record McpInfo : Type 0 where
  pub name : String
  pub version : String
  pub transport : String
  pub pid : ℤ

pub record McpRegisterPayload : Type 0 where
  pub server : McpInfo
  pub tools : List McpTool

pub record WideModelStatus : Type 0 where
  pub status : String
  pub name : String
  pub model_id : String

pub record StatusResponsePayload : Type 0 where
  pub state : String
  pub uptime_seconds : ℕ
  pub wide_model : WideModelStatus
  pub model_registry : ℕ
  pub patches_installed : ℕ
  pub mcp_servers_active : ℕ

pub record ModelRegistryEntry : Type 0 where
  pub model_id : String
  pub tags : List String
  pub gguf_file_path : String

pub record ContentItem : Type 0 where
  pub type : String
  pub text : String

pub record McpResultPayload : Type 0 where
  pub status : String
  pub error : Option ErrorInfo
  pub content : List ContentItem

-- What the handlers pass to `SendOK`.
pub data Data : Type 0 where
  no_data : Data
  entry : String → String → Data
  code_accepted : (status effect : String) → Data
  mcp_registered : (status server_id : String) → List String → Data
  wide_model_loaded : (status loaded : String) → Data
  wide_model_unloaded : (status : String) → Data
  status_response : StatusResponsePayload → Data
  audit_report : (timestamp : String) → AuditResources → Data

pub record PayloadStatus : Type 0 where
  pub status : String
  pub error : Option ErrorInfo
  pub content : Data

-- The values that the daemon marshals into a payload.
pub data Body : Type 0 where
  reply : PayloadStatus → Body
  output : OutputPayload → Body
  shutdown_notice : (reason : String) → Body
  audit_notice : (timestamp : String) → AuditResources → Body

unfoldable pub error_payload : String → String → PayloadStatus
error_payload code message = record {
  status = "error";
  error = some (record { code = code; message = message });
  content = no_data;
}

unfoldable pub ok_payload : Data → PayloadStatus
ok_payload d = record { status = "ok"; error = none; content = d }

-- `responseType`
unfoldable pub response_type : String → String
response_type t =
    if t == "input_forward"
    then "input_accepted"
    else if t == "system_code"
    then "code_accepted"
    else if t == "mcp_register"
    then "mcp_registered"
    else if t == "mcp_unregister"
    then "mcp_unregistered"
    else if t == "audit_request"
    then "audit_report"
    else if t == "status_request"
    then "status_response"
    else if t == "wide_model_load"
    then "wide_model_loaded"
    else if t == "wide_model_unload"
    then "wide_model_unloaded"
    else t ++ "_response"

abbrev pub no_info : McpInfo
no_info = record { name = ""; version = ""; transport = ""; pid = ℤ.pos 0 }

-- The payload of `cpm_tune`, which `handleCPMTune` declares.
pub record TunePayload : Type 0 where
  pub pkg : String
  pub background : Bool
  pub epochs : ℤ
  pub finalize : Bool
  pub quantize : String
