-- ===== src/Tests/Processes.antt =====
-- The theorems on the servers' processes and on the table at work.
use cognitiveosd.Prelude.{String, ◌≡◌, refl, ◌≢◌, false, none, some, List, [], ◌∷◌}
use cognitiveosd.Prelude.Dict.{lookup}
use cognitiveosd.Prelude.FilePath.{path_join}
use cognitiveosd.Config.{default}
use cognitiveosd.Mcp.{terminate, Manager, Panic, new, panicked, shutdown_all}
use cognitiveosd.Mcp.Process.{core_bridges, exited, spawn, spawn_core_bridges}
use cognitiveosd.Mcp.Process.Exits.{ended_all, exited-evicts, shutdown_all-restarts}
use cognitiveosd.Mcp.Process.Steps.{Reach, start, later, bridges, begins}
use cognitiveosd.Mcp.Process.Tracked.{Reach-Survives}
use cognitiveosd.Mcp.Rpc.{invoke}
use mathlib.Core.List.{Memᴰ}
use cognitiveosd.Tests.{fs_server, fs_server, willing, with_fs, world}
use cognitiveosd.Tests.Servers.{no_error}

abbrev display : String
display = path_join (default.mcp_bin_dir ∷ "display-mcp" ∷ [])

-- The bridges behind the first one.
abbrev others : List (String × String)
others =
    core_bridges (world willing) default
      ("audio-mcp" ∷ "network-mcp" ∷ "gpio-mcp" ∷ "serial-mcp" ∷ "package-mcp" ∷ [])

-- The manager with the first of the core bridges running.
abbrev displaying : Manager
displaying =
    spawn (world willing) default "display-mcp" display
      (record (spawn_core_bridges (world willing) default new) { spawning = others })

displaying-Reach : Reach (world willing) default displaying
unfolding spawn_core_bridges core_bridges new
displaying-Reach = later (later start bridges) (begins "display-mcp" display [] others refl)

Reach-Survives_example :
    (invoke (world willing) 5 "fs.read" [] displaying).1 ≢ panicked Panic.nil_encoder
Reach-Survives_example =
    Reach-Survives (world willing) default displaying 5 "fs.read" [] Panic.nil_encoder
      displaying-Reach no_error

-- Two processes under one name, the second of which stands in the table.
abbrev doubled : Manager
doubled = record with_fs { waiting = ("fs", 39) ∷ ("fs", 40) ∷ [] }

exited-evicts_example :
    let m' = exited false "fs" (record doubled { waiting = ("fs", 40) ∷ [] }) in
    Memᴰ ("fs", 40) m'.waiting × (lookup "fs" m'.servers ≡ none)
unfolding lookup
exited-evicts_example =
    exited-evicts false "fs" 39 40 [] (("fs", 40) ∷ []) (fs_server (some 40)) doubled refl
      (Memᴰ.tail (Memᴰ.head refl)) (λ e. cc) refl refl

shutdown_all-restarts_example :
    Memᴰ (terminate 40) (shutdown_all doubled).1
    × (lookup "fs" (shutdown_all doubled).0.servers ≡ none)
    × Memᴰ
        ("fs", "fs")
        (ended_all false (shutdown_all doubled).0.waiting (shutdown_all doubled).0).spawning
unfolding lookup
shutdown_all-restarts_example =
    shutdown_all-restarts "fs" (fs_server (some 40)) 40 doubled refl refl
      (Memᴰ.tail (Memᴰ.head refl)) refl
