-- ===== src/Mcp/Process/Steps.antt =====
-- internal/daemon/mcp_lifecycle.go: the goroutines of the MCP manager, interleaved. Each call of
-- `Spawn`, each end of a process, each health check, each invocation and each `ShutdownAll` is a
-- step; which comes next is left open.
use mathlib.Core.List.{◌++◌ as append}
use cognitiveosd.Prelude.{ℕ, String, Bool, ◌≡◌, List, ◌∷◌}
use cognitiveosd.Prelude.Dict.{Dict}
use cognitiveosd.Config.{Config}
use cognitiveosd.Json.{Json}
use cognitiveosd.Protocol.Env.{Env}
use cognitiveosd.Mcp.{Manager, new, shutdown_all}
use cognitiveosd.Mcp.Process.{exited, healthcheck, spawn, spawn_core_bridges}
use cognitiveosd.Mcp.Rpc.{invoke}

module _ (env : Env) (cfg : Config) where
  pub data Step (m : Manager) : Manager → Type 0 where
    bridges : Step m (spawn_core_bridges env cfg m)
    begins :
        (name binary : String) (before after : List (String × String))
        → m.spawning ≡ append before ((name, binary) ∷ after)
        → Step m (spawn env cfg name binary (record m { spawning = append before after }))
    ends :
        (shutting_down : Bool) (name : String) (pid : ℕ) (before after : List (String × ℕ))
        → m.waiting ≡ append before ((name, pid) ∷ after)
        → Step m (exited shutting_down name (record m { waiting = append before after }))
    checks : (alive : ℕ → Bool) → Step m (healthcheck alive m)
    invokes : (nano : ℕ) (tool : String) (args : Dict Json) → Step m (invoke env nano tool args m).0
    stops : Step m (shutdown_all m).0

  -- What a new manager comes to.
  pub data Reach : Manager → Type 0 where
    start : Reach new
    later : {m m' : Manager} → Reach m → Step m m' → Reach m'
