-- ===== src/Mcp.antt =====
-- internal/daemon/mcp_lifecycle.go: the MCP servers that the daemon knows, by name. A server is
-- registered over the socket, or spawned as a process with pipes; one that was only registered has
-- no process and no pipes (`Process`, `Stdin` and `Stdout` are set together, in `Spawn`).
pub mod Names
pub mod Rpc
pub mod Metadata
pub mod Resolve
pub mod Invoking
pub mod Panics
pub mod Terminated
pub mod Silent
pub mod Cgroup
pub mod Process
use cognitiveosd.Prelude.{
  ℕ, suc, String, ◌++◌, Bool, true, false, ◌&&◌, Option, none, some, List, [], ◌∷◌, ◌==◌,
  if◌then◌else◌, length, is_some,
}
use mathlib.Core.List.{◌++◌ as append}
use cognitiveosd.Prelude.Dict.{Dict, lookup, insert, delete}
use cognitiveosd.Prelude.Result.{Result, ok, err}
use cognitiveosd.Prelude.Int.{ℤ}
use cognitiveosd.Json.{Json, str, obj, Fields, end, field}
use cognitiveosd.Protocol.{McpTool, McpInfo, McpResultPayload, no_info}
use cognitiveosd.Protocol.Env.{Env, McpReply, not_encoded, hung_up, line}

-- `MCPServer`; a process is known by its pid, a connection by its number.
pub record Server : Type 0 where
  pub name : String
  pub info : McpInfo
  pub tools : List McpTool
  pub conn : Option ℕ
  pub process : Option ℕ
  pub active : Bool

-- `MCPManager`, with the number of lines exchanged with the processes, and what its goroutines do:
-- `waiting` are the processes whose exit a `Wait` waits for, by the server's name, `spawning` the
-- calls of `Spawn` that goroutines will make, each with its command, `starts` the programs started
-- so far and `files` the control files written, the last one first.
pub record Manager : Type 0 where
  pub servers : Dict Server
  pub exchanges : ℕ
  pub waiting : List (String × ℕ)
  pub spawning : List (String × String)
  pub starts : ℕ
  pub files : List (String × String)

-- `NewMCPManager`
unfoldable pub new : Manager
new = record { servers = []; exchanges = 0; waiting = []; spawning = []; starts = 0; files = [] }

-- `RegisterProcess`
unfoldable pub register_process : String → Server → Manager → Manager
register_process name s m = record m { servers = insert name s m.servers }

abbrev pub stdio_info : String → McpInfo
stdio_info name = record { name = name; version = "1.0.0"; transport = "stdio"; pid = ℤ.pos 0 }

-- What `Register` puts under the name: the server that stands there, with a new connection and new
-- tools, or a new one without a process.
abbrev pub registered : String → List McpTool → ℕ → Option Server → Server
registered name tools conn (some s) = record s {
  conn = some conn;
  tools = tools;
  info = stdio_info name;
}
registered name tools conn none = record {
  name = name;
  info = stdio_info name;
  tools = tools;
  conn = some conn;
  process = none;
  active = true;
}

-- `Register`
unfoldable pub register : String → List McpTool → ℕ → Manager → Manager
register name tools conn m = record m {
  servers = insert name (registered name tools conn (lookup name m.servers)) m.servers;
}

-- `Unregister`: whatever stands under the name is removed.
unfoldable pub unregister : String → Manager → Manager
unregister name m = record m { servers = delete name m.servers }

unfoldable pub has_tool : String → List McpTool → Bool
has_tool name [] = false
has_tool name (t ∷ ts) = if t.name == name then true else has_tool name ts

resolve_in : String → Dict Server → String
resolve_in tool [] = ""
resolve_in tool ((name, s) ∷ m) = if has_tool tool s.tools then name else resolve_in tool m

-- `resolveServer`
unfoldable pub resolve_server : String → Manager → String
unfolding resolve_in
resolve_server tool m = resolve_in tool m.servers

find_in : String → List McpTool → Option McpTool → Option McpTool
find_in name [] rest = rest
find_in name (t ∷ ts) rest = if t.name == name then some t else find_in name ts rest

find_in_servers : String → Dict Server → Option McpTool
find_in_servers tool [] = none
find_in_servers tool ((name, s) ∷ m) = find_in tool s.tools (find_in_servers tool m)

-- `FindTool`
unfoldable pub find_tool : String → Manager → Option McpTool
unfolding find_in find_in_servers
find_tool tool m = find_in_servers tool m.servers

-- `ActiveCount`
unfoldable pub active_count : Manager → ℕ
active_count m = length m.servers

-- A panic ends the goroutine, and with it the daemon.
pub data Panic : Type 0 where
  nil_encoder : Panic
  not_an_object : Panic
  slice_bounds : Panic
  close_of_closed : Panic
  no_ticker : Panic

-- `waiting`: the call does not come back, as the process neither answers nor ends.
pub data Invoked : Type 0 where
  returned : Result McpResultPayload → Invoked
  panicked : Panic → Invoked
  waiting : Invoked

-- What `ShutdownAll` does to the processes: a message on the pipe, and SIGTERM. The SIGKILL that a
-- goroutine sends two seconds later to a process that has not gone is left out.
pub data Signal : Type 0 where
  notice terminate : (pid : ℕ) → Signal

-- A server with a process is told to go if it is active and registered over the socket too, and is
-- terminated in any case.
signals_to : Option ℕ → Server → List Signal
signals_to none s = []
signals_to (some pid) s =
    if s.active && is_some s.conn then notice pid ∷ terminate pid ∷ [] else terminate pid ∷ []

signals_of : Dict Server → List Signal
signals_of [] = []
signals_of ((name, s) ∷ m) = append (signals_to s.process s) (signals_of m)

-- `ShutdownAll`
unfoldable pub shutdown_all : Manager → Manager × List Signal
unfolding signals_of signals_to
shutdown_all m = (record m { servers = [] }, signals_of m.servers)
