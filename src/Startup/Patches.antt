-- ===== src/Startup/Patches.antt =====
-- internal/daemon/daemon.go: the MCP servers that the patches bring, and the tuning monitor.
use mathlib.Core.List.{◌++◌ as append}
use cognitiveosd.Prelude.{String, ◌++◌, Option, none, some, List, [], ◌∷◌, ◌==◌, if◌then◌else◌}
use cognitiveosd.Prelude.Dict.{Dict, insert}
use cognitiveosd.Prelude.FilePath.{is_abs, path_join}
use cognitiveosd.Prelude.Opt.{◌>>=◌}
use cognitiveosd.Json.{
  Json, null, obj, Fields, end, field, Decoder, d_pointer, d_raw, d_slice, d_string, d_struct,
  member,
}
use cognitiveosd.Protocol.Env.{DirEntry, Env}
use cognitiveosd.Registry.{entries_or_none, manifest_text, stands}
use cognitiveosd.Registry.Manifest.{decode_training_tool}

-- `patchMCPServerObj`; of its fields only the name and the command are used.
pub record PatchServer : Type 0 where
  pub name : String
  pub command : String
  pub args : List String
  pub env : Dict String
  pub transport : String

d_texts : Fields → Dict String → Option (Dict String)
d_texts end m = some m
d_texts (field k v fs) m = d_string "" v >>= λ s. d_texts fs (insert k s m)

-- `map[string]string`
abbrev d_text_map : Decoder (Dict String)
d_text_map old null = some []
d_text_map old (obj fs) = d_texts fs old
d_text_map old _ = none

read_server : Fields → PatchServer → Option PatchServer
read_server fs r = do
  n ← member d_string "name" fs r.name
  c ← member d_string "command" fs r.command
  a ← member (d_slice "" d_string) "args" fs r.args
  e ← member d_text_map "env" fs r.env
  t ← member d_string "transport" fs r.transport
  some (record { name = n; command = c; args = a; env = e; transport = t })

abbrev no_server : PatchServer
no_server = record { name = ""; command = ""; args = []; env = []; transport = "" }

read_raw_servers : Fields → Option Json → Option (Option Json)
read_raw_servers fs r = member d_raw "mcp_servers" fs r

read_servers_runtime : Fields → Option (Option Json) → Option (Option (Option Json))
read_servers_runtime fs m = member (d_pointer none (d_struct read_raw_servers)) "runtime" fs m

-- The servers' document in a manifest's `runtime`, if both are there.
unfoldable pub decode_servers_member : Json → Option (Option Json)
unfolding read_servers_runtime read_raw_servers
decode_servers_member j =
    d_struct read_servers_runtime none j >>= λ runtime. some (runtime >>= λ servers. servers)

-- The two forms of the document: names, or objects.
pub data Servers : Type 0 where
  names : List String → Servers
  objects : List PatchServer → Servers
  unrecognized : Servers

abbrev objects_or : Option (List PatchServer) → Servers
objects_or none = unrecognized
objects_or (some l) = objects l

abbrev names_or : Option (List String) → Servers → Servers
names_or none other = other
names_or (some l) other = names l

unfoldable pub decode_servers : Json → Servers
unfolding read_server d_texts
decode_servers j =
    names_or (d_slice "" d_string [] j) (objects_or (d_slice no_server (d_struct read_server) [] j))

module _ (env : Env) (patch_dir : String) where
  -- A server whose binary is there is spawned under the names of its patch and its own.
  abbrev spawn_of : String → String → String → List (String × String)
  spawn_of patch name binary =
      if stands (env.stat binary) then ("patch-" ++ patch ++ "-" ++ name, binary) ∷ [] else []

  named_spawns : String → List String → List (String × String)
  named_spawns patch [] = []
  named_spawns patch (name ∷ rest) =
      append (spawn_of patch name (path_join (patch_dir ∷ patch ∷ name ∷ [])))
        (named_spawns patch rest)

  abbrev command_path : String → String → String
  command_path patch command =
      if is_abs command then command else path_join (patch_dir ∷ patch ∷ command ∷ [])

  object_spawns : String → List PatchServer → List (String × String)
  object_spawns patch [] = []
  object_spawns patch (s ∷ rest) =
      append (spawn_of patch s.name (command_path patch s.command)) (object_spawns patch rest)

  unfoldable pub spawns_of : String → Servers → List (String × String)
  unfolding named_spawns object_spawns
  spawns_of patch (names l) = named_spawns patch l
  spawns_of patch (objects l) = object_spawns patch l
  spawns_of patch unrecognized = []

  abbrev spawns_or_none : String → Option Json → List (String × String)
  spawns_or_none patch none = []
  spawns_or_none patch (some j) = spawns_of patch (decode_servers j)

  unfoldable pub entry_spawns : DirEntry → List (String × String)
  entry_spawns e = spawns_or_none e.name (do
    text ← manifest_text env patch_dir e
    j ← env.parse_json text
    servers ← decode_servers_member j
    servers)

  unfoldable pub all_spawns : List DirEntry → List (String × String)
  all_spawns [] = []
  all_spawns (e ∷ es) = append (entry_spawns e) (all_spawns es)

  -- `spawnPatchMCPServers`, by the calls of `Spawn` that it starts.
  unfoldable pub patch_spawns : List (String × String)
  patch_spawns = all_spawns (entries_or_none (env.read_dir patch_dir))

  abbrev tool_or_empty : Option String → String
  tool_or_empty none = ""
  tool_or_empty (some t) = t

  unfoldable pub tuned_packages : List DirEntry → List String
  tuned_packages [] = []
  tuned_packages (e ∷ es) =
      let rest = tuned_packages es in
      let tool = tool_or_empty (do
        text ← manifest_text env patch_dir e
        j ← env.parse_json text
        decode_training_tool j) in
      if tool == "" then rest else e.name ∷ rest

  -- One round of `startTuningMonitor`: the packages that it triggers. `triggerTune` logs its call and
  -- does nothing else.
  unfoldable pub tuning_round : List String
  tuning_round = tuned_packages (entries_or_none (env.read_dir patch_dir))
