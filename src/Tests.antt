-- ===== src/Tests.antt =====
-- The worlds and the daemons that the examples run in.

mod Engines
mod Servers
mod Handling
mod Endings
mod Processes
mod Running
mod Connected
mod Living
mod Guarded
use Prim.Native.Nat.{◌+◌}
use cognitiveosd.Prelude.{
  ℕ, String, ◌++◌, Bool, true, false, Option, none, some, List, [], ◌∷◌, ◌==◌, if◌then◌else◌,
}
use cognitiveosd.Prelude.Int.{ℤ}
use cognitiveosd.Prelude.Result.{Result, ok, err}
use cognitiveosd.Prelude.Text.{decimal}
use cognitiveosd.Config.{Config, default}
use cognitiveosd.Json.{Json, bool, str, obj, Fields, end, field}
use cognitiveosd.Mcp.{Manager, Server, stdio_info}
use cognitiveosd.Protocol.{Envelope, McpTool}
use cognitiveosd.Protocol.Env.{
  Env, RawRequest, RawReply, answered, EngineRequest, EngineReply, response, line, unreachable,
  Stat, file, running, open_socket, DirEntry, post, remove, fetch,
}
use cognitiveosd.Raw.{Raw, live}
use cognitiveosd.Wide.{Wide}
use cognitiveosd.Daemon.{Daemon, State, listening, ClientConn}
use cognitiveosd.Handlers.{Request}

abbrev pub text_field : String → String → Fields → Fields
text_field k v fs = field k (str v) fs

-- A raw model that refuses whatever it is asked.
abbrev refusing : RawRequest → RawReply
refusing req = answered (record {
  result = some (
      obj (
        text_field "status" "invalid"
          (text_field "action" "deny" (field "allowed" (bool false) end))));
  error = none;
})

abbrev pub code_text : String → String → String → Option Json
code_text code origin unlock_code = some (
    obj (
      text_field "code" code
        (text_field "origin" origin (text_field "unlock_code" unlock_code end))))

abbrev manifest : Option Json
manifest =
    let routing = obj (text_field "model_id" "tiny" end) in
    let weights = obj (field "remote" (obj (text_field "filename" "tiny.gguf" end)) end) in
    some (
      obj (
        field "brain"
          (obj
            (field "wide_model" (obj (field "routing" routing (field "weights" weights end))) end))
          end))

-- The documents of the examples, by short texts.
abbrev parse : String → Option Json
parse text =
    if text == "reset by button"
    then code_text "Reset" "button" ""
    else if text == "reset by voice"
    then code_text "RESET" "Voice" ""
    else if text == "unlock"
    then code_text "unlock" "cli" "1234"
    else if text == "manifest"
    then manifest
    else if text == "result"
    then some (obj (field "result" (obj end) end))
    else if text == "how are you"
    then some (obj (text_field "type" "status_request" (text_field "from" "shell" end)))
    else none

-- An engine that takes everything, and one that does not load.
abbrev pub willing : ℕ → EngineRequest → EngineReply
willing n req = response 200 ""

abbrev pub unloading : ℕ → EngineRequest → EngineReply
unloading n (remove url j) = response 200 ""
unloading n _ = response 500 ""

abbrev pub world : (ℕ → EngineRequest → EngineReply) → Env
world engine = record {
  dial_raw = λ n. some "refused";
  raw_model = refusing;
  engine = engine;
  mcp = λ n name req. line "result";
  registry = λ url. unreachable "no route";
  parse_json = parse;
  parse_first = parse;
  json_error = λ what text. "invalid";
  type_error = λ j. "type";
  format = λ j. "map[]";
  rfc3339 = λ n. "2026-01-01T00:00:00Z";
  unix_nano = λ n. n;
  uptime = λ n. n;
  random = λ n i. n + i;
  stat = λ p. file;
  read_dir = λ p. ok (record { name = "tiny"; is_dir = true } ∷ []);
  read_file = λ p. some "manifest";
  statfs = λ p. none;
  walk = λ p. [];
  load_percent = λ l n. l;
  start = λ n binary root. running (100 + n);
  mkdir_all = λ path. none;
  write_file = λ path text. none;
  encode_report = λ time r. ok "{}";
  listen_unix = λ path. open_socket;
  pid = 1;
  raw_member = λ text name. "";
}

abbrev pub ready_raw : Raw
ready_raw = record { conn = some live; ready = true; rpc_id = 0; dials = 1 }

abbrev pub no_raw : Raw
no_raw = record { conn = none; ready = false; rpc_id = 0; dials = 1 }

abbrev pub small_wide : Wide
small_wide = record {
  loaded = true;
  model_name = "small.gguf";
  model_id = "small";
  system_prompt = "";
  exchanges = 0;
}

abbrev pub read_tool : McpTool
read_tool = record { name = "fs.read"; description = ""; input_schema = none }

abbrev pub fs_server : Option ℕ → Server
fs_server process = record {
  name = "fs";
  info = stdio_info "fs";
  tools = read_tool ∷ [];
  conn = none;
  process = process;
  active = true;
}

abbrev pub no_servers : Manager
no_servers = record {
  servers = [];
  exchanges = 0;
  waiting = [];
  spawning = [];
  starts = 0;
  files = [];
}

abbrev pub with_fs : Manager
with_fs = record no_servers { servers = ("fs", fs_server (some 40)) ∷ [] }

-- A daemon that listens, with one open connection that goes by the name `shell`, or none.
abbrev pub daemon_with : Raw → List (String × ℕ) → Daemon
daemon_with raw clients = record {
  config = default;
  state = listening;
  mcp = with_fs;
  wide = small_wide;
  raw = raw;
  registry = [];
  clients = clients;
  conns = λ k. record { id = "shell"; closed = false; broken = none };
  sent = [];
  tasks = [];
  signals = [];
  commands = [];
  saved = [];
  pid_file = false;
  last_request = 0;
  idle_timer = false;
  listener_closed = false;
  auditor_stopped = false;
  clock = 0;
  drawn = 0;
}

abbrev pub shell : List (String × ℕ)
shell = ("shell", 7) ∷ []

abbrev pub request : String → Request
request payload = record {
  type = "system_code";
  id = "1";
  timestamp = "";
  from = "shell";
  payload = payload;
}
