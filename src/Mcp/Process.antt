-- ===== src/Mcp/Process.antt =====
-- internal/daemon/mcp_lifecycle.go: starting the servers' processes, and what follows their end.
-- `Spawn` is one step here: nothing else comes between its registering and its discovering.
pub mod Steps
pub mod Tracked
pub mod Waited
pub mod Exits
pub mod Managed
use mathlib.Core.List.{◌++◌ as append}
use cognitiveosd.Prelude.{
  ℕ, suc, String, ◌++◌, Bool, true, false, not, ◌&&◌, ◌||◌, Option, none, some, List, [], ◌∷◌, ◌==◌,
  if◌then◌else◌, is_some,
}
use cognitiveosd.Prelude.Dict.{Dict}
use cognitiveosd.Prelude.FilePath.{path_join}
use cognitiveosd.Prelude.Int.{ℤ}
use cognitiveosd.Prelude.Text.{has_prefix}
use cognitiveosd.Config.{Config}
use cognitiveosd.Json.{Json, int, str, obj, Items, nil, cons, Fields, end, field, get}
use cognitiveosd.Protocol.{McpTool, no_info}
use cognitiveosd.Protocol.Env.{
  Env, McpReply, not_encoded, hung_up, line, silent, Started, no_pipe, not_started, running, Stat,
  dir, file, missing, denied,
}
use cognitiveosd.Mcp.{Manager, Server, register_process, unregister}
use cognitiveosd.Mcp.Cgroup.{File, default_limits, procs_file, setup_cgroup}
use cognitiveosd.Mcp.Rpc.{decoded_map, fields_or_empty, items_or_empty, shown}

-- The request of `DiscoverTools`, with the keys in the order in which a map is written.
abbrev pub list_tools_request : Json
list_tools_request = obj (
    field "id" (int (ℤ.pos 1))
      (field "jsonrpc" (str "2.0") (field "method" (str "mcp.list_tools") end)))

module _ (env : Env) where
  abbrev listed_tools : Items → List McpTool
  listed_tools nil = []
  listed_tools (cons (obj fs) vs) =
      record {
        name = shown env (get "name" fs);
        description = shown env (get "description" fs);
        input_schema = get "inputSchema" fs;
      }
      ∷ listed_tools vs
  listed_tools (cons _ vs) = listed_tools vs

  abbrev tools_of : Option Fields → List McpTool
  tools_of none = []
  tools_of (some resp) =
      listed_tools (items_or_empty (get "tools" (fields_or_empty (get "result" resp))))

  -- `DiscoverTools`, by what the process answers: on any error there are no tools.
  -- A silent one has none either: `Spawn` waits here, and comes to its `Wait` when the process ends.
  unfoldable pub discovered : McpReply → List McpTool
  discovered (not_encoded e) = []
  discovered hung_up = []
  discovered silent = []
  discovered (line text) = tools_of (decoded_map (env.parse_json text))

  -- `os.Stat` gave no error.
  abbrev found : Stat → Bool
  found dir = true
  found file = true
  found missing = false
  found denied = false

  abbrev is_dir : Stat → Bool
  is_dir dir = true
  is_dir _ = false

  -- The directory of the patch with the server's name, if there is one, is the process's root.
  abbrev pub root_of : Config → String → Option String
  root_of cfg name =
      let path = path_join (cfg.patch_dir ∷ name ∷ []) in
      if is_dir (env.stat path) then some path else none

  abbrev pub spawned_server : String → ℕ → List McpTool → Server
  spawned_server name pid tools = record {
    name = name;
    info = no_info;
    tools = tools;
    conn = none;
    process = some pid;
    active = true;
  }

  abbrev joined : ℕ → String → List File → List File
  joined pid group files =
      if group == ""
      then files
      else if is_some (env.write_file (procs_file pid group).0 (procs_file pid group).1)
      then files
      else procs_file pid group ∷ files

  unfoldable pub spawn_started : String → String → Started → Manager → Manager
  unfolding discovered register_process
  spawn_started name group (no_pipe e) m = m
  spawn_started name group (not_started e) m = m
  spawn_started name group (running pid) m =
      let tools = discovered (env.mcp m.exchanges name list_tools_request) in
      record (register_process name (spawned_server name pid tools) m) {
        exchanges = suc m.exchanges;
        waiting = (name, pid) ∷ m.waiting;
        files = joined pid group m.files;
      }

  -- `Spawn`
  unfoldable pub spawn : Config → String → String → Manager → Manager
  unfolding spawn_started setup_cgroup
  spawn cfg name binary m =
      let (group, files) = setup_cgroup env name default_limits in
      spawn_started name group (env.start m.starts binary (root_of cfg name))
        (record m { starts = suc m.starts; files = append files m.files })

  -- `SpawnCoreBridges`: a bridge whose binary is not in the directory is looked for by its name.
  unfoldable pub core_bridges : Config → List String → List (String × String)
  core_bridges cfg [] = []
  core_bridges cfg (name ∷ names) =
      let path = path_join (cfg.mcp_bin_dir ∷ name ∷ []) in
      (name, if found (env.stat path) then path else name) ∷ core_bridges cfg names

  unfoldable pub spawn_core_bridges : Config → Manager → Manager
  unfolding core_bridges
  spawn_core_bridges cfg m = record m {
    spawning = append (core_bridges cfg cfg.mcp_bridges) m.spawning;
  }

-- `Wait` behind the end of its process, while the daemon is shutting down or not: a server is
-- started again by its name alone, unless it is called a bridge.
unfoldable pub exited : Bool → String → Manager → Manager
unfolding unregister
exited shutting_down name m =
    let m' = unregister name m in
    if has_prefix name "bridge-" || shutting_down
    then m'
    else record m' { spawning = (name, name) ∷ m.spawning }

-- One round of `StartHealthchecks`, by the processes that a signal finds: the others' servers are
-- started again, which `respawn` does by the name.
failed_checks : (ℕ → Bool) → Dict Server → List (String × String)
failed_checks alive [] = []
failed_checks alive ((name, s) ∷ m) =
    let rest = failed_checks alive m in
    elim s.process [
      | none ↦ rest
      | some pid ↦ if s.active && not (alive pid) then (name, name) ∷ rest else rest
    ]

unfoldable pub healthcheck : (ℕ → Bool) → Manager → Manager
unfolding failed_checks
healthcheck alive m = record m { spawning = append (failed_checks alive m.servers) m.spawning }
