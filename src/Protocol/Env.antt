-- ===== src/Protocol/Env.antt =====
-- What the daemon talks to and does not implement: the raw model behind its socket, the inference
-- engine behind HTTP, the MCP processes behind their pipes, the clock, randomness and the disk.
-- Each is a parameter. The n-th exchange may be answered in any way, so the number of exchanges so
-- far is an argument of the answer.
use cognitiveosd.Prelude.{ℕ, String, Bool, Option, List}
use cognitiveosd.Json.{Json}
use cognitiveosd.Protocol.Resources.{AuditResources}
use cognitiveosd.Prelude.Result.{Result}

-- RawRPCRequest and RawRPCResponse of internal/daemon/raw_client.go
pub record RawRequest : Type 0 where
  pub id : ℕ
  pub method : String
  pub params : Option Json

pub record RawResponse : Type 0 where
  pub result : Option Json
  pub error : Option (String × String)

pub data RawReply : Type 0 where
  not_sent not_read : String → RawReply
  answered : RawResponse → RawReply

-- An HTTP exchange with the inference engine (internal/daemon/wide_client.go).
pub data EngineRequest : Type 0 where
  post : (url : String) → Json → EngineRequest
  remove : (url : String) → Json → EngineRequest
  fetch : (url : String) → EngineRequest

pub data EngineReply : Type 0 where
  bad_request no_reply : String → EngineReply
  cut : (status : ℕ) → String → EngineReply
  response : (status : ℕ) → (body : String) → EngineReply

-- One line written to an MCP process, and what is scanned behind it: a line, the end of the pipe, or
-- nothing, while the pipe stays open.
pub data McpReply : Type 0 where
  not_encoded : String → McpReply
  hung_up : McpReply
  line : String → McpReply
  silent : McpReply

-- `os.Stat`: what stands at a path, `missing` where `os.IsNotExist` holds of the error.
pub data Stat : Type 0 where
  dir file missing denied : Stat

-- What starting a program comes to: no pipe to it, an error of `Start`, or a process.
pub data Started : Type 0 where
  no_pipe not_started : String → Started
  running : (pid : ℕ) → Started

-- Opening a Unix socket: an address that is no address, a socket that is not given, one whose mode is
-- not changed, or one that listens.
pub data Opened : Type 0 where
  unresolved not_given mode_kept : String → Opened
  open_socket : Opened

-- The package registry's reply to a GET, with the status and the body's text.
pub data HttpReply : Type 0 where
  unreachable : String → HttpReply
  got : (status : ℕ) → String → HttpReply

pub record DirEntry : Type 0 where
  pub name : String
  pub is_dir : Bool

-- `start` starts a program for the n-th time, in a changed root if one is given; `mkdir_all` and
-- `write_file` give the error of making a directory and of writing a file, if there is one;
-- `raw_member` is the text of a member of a document as it stands there, and "" without one;
-- `random` gives the bytes of the n-th draw, by their places;
-- `pid` is the daemon's own process;
-- `encode_report` is the text of a report with its timestamp.
-- `parse_json` reads a whole text and `parse_first` the document that it begins with (json.Decoder);
-- `json_error` is the text of encoding/json's error for a target and a document; `statfs` gives the blocks, the blocks available and the size of a block; `walk` the sizes of the
-- files below a directory; `load_percent` the load in percent from its text and the cores.
pub record Env : Type 0 where
  pub dial_raw : ℕ → Option String
  pub raw_model : RawRequest → RawReply
  pub engine : ℕ → EngineRequest → EngineReply
  pub mcp : ℕ → String → Json → McpReply
  pub registry : String → HttpReply
  pub parse_json : String → Option Json
  pub parse_first : String → Option Json
  pub json_error : String → String → String
  pub type_error : Json → String
  pub format : Json → String
  pub rfc3339 : ℕ → String
  pub unix_nano : ℕ → ℕ
  pub uptime : ℕ → ℕ
  pub random : ℕ → ℕ → ℕ
  pub stat : String → Stat
  pub read_dir : String → Result (List DirEntry)
  pub read_file : String → Option String
  pub statfs : String → Option (ℕ × ℕ × ℕ)
  pub walk : String → List ℕ
  pub load_percent : String → ℕ → String
  pub start : ℕ → String → Option String → Started
  pub mkdir_all : String → Option String
  pub write_file : String → String → Option String
  pub encode_report : String → AuditResources → Result String
  pub listen_unix : String → Opened
  pub pid : ℕ
  pub raw_member : String → String → String
