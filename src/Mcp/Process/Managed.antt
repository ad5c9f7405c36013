-- ===== src/Mcp/Process/Managed.antt =====
-- internal/daemon/mcp_lifecycle.go: all that is done to the manager: what its goroutines do, the calls
-- of `Spawn` for the patches, and what comes over the socket.
use mathlib.Core.List.{◌++◌ as append}
use cognitiveosd.Prelude.{ℕ, String, List}
use cognitiveosd.Config.{Config}
use cognitiveosd.Protocol.{McpTool}
use cognitiveosd.Protocol.Env.{Env}
use cognitiveosd.Mcp.{Manager, register, unregister}
use cognitiveosd.Mcp.Process.Steps.{Step}

pub data Managed (env : Env) (cfg : Config) (m : Manager) : Manager → Type 0 where
  nothing : Managed env cfg m m
  runs : {n k : Manager} → Managed env cfg m n → Step env cfg n k → Managed env cfg m k
  queues :
      {n : Manager}
      → Managed env cfg m n
      → (calls : List (String × String))
      → Managed env cfg m (record n { spawning = append calls n.spawning })
  registers :
      {n : Manager}
      → Managed env cfg m n
      → (name : String) (tools : List McpTool) (conn : ℕ)
      → Managed env cfg m (register name tools conn n)
  unregisters :
      {n : Manager} → Managed env cfg m n → (name : String) → Managed env cfg m (unregister name n)

pub Managed-trans :
    {env : Env} {cfg : Config} {m n k : Manager}
    → Managed env cfg m n
    → Managed env cfg n k
    → Managed env cfg m k
Managed-trans a nothing = a
Managed-trans a (runs b s) = runs (Managed-trans a b) s
Managed-trans a (queues b calls) = queues (Managed-trans a b) calls
Managed-trans a (registers b name tools conn) = registers (Managed-trans a b) name tools conn
Managed-trans a (unregisters b name) = unregisters (Managed-trans a b) name
