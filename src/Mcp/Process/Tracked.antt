-- ===== src/Mcp/Process/Tracked.antt =====
-- internal/daemon/mcp_lifecycle.go: the table of servers and the processes that are waited for.
use mathlib.Core.List.{Memᴰ}
use cognitiveosd.Prelude.{ℕ, String, ◌≡◌, ◌≢◌, inl, inr, some, List, [], ◌∷◌, All}
use cognitiveosd.Prelude.Dict.{Dict}
use cognitiveosd.Config.{Config}
use cognitiveosd.Json.{Json}
use cognitiveosd.Protocol.Env.{Env}
use cognitiveosd.Mcp.{Manager, Panic, Server, new, panicked}
use cognitiveosd.Mcp.Panics.{HasProcesses, IsJsonRpc, invoke-Survives}
use cognitiveosd.Mcp.Process.Steps.{Reach, start, later}
use cognitiveosd.Mcp.Process.Waited.{AllWaited, AreWaited, Step-AllWaited}
use cognitiveosd.Mcp.Rpc.{invoke}

-- Every server in a table has a process that is among those waited for, under the server's name.
abbrev pub IsTracked : List (String × ℕ) → Dict Server → Type 0
IsTracked waiting m = All (λ e. (pid : ℕ) × (e.1.process ≡ some pid) × Memᴰ (e.0, pid) waiting) m

-- Where no server may be without a process.
waited-IsTracked : (w : List (String × ℕ)) (m : Dict Server) → AreWaited ⊥ w m → IsTracked w m
waited-IsTracked w [] h = tt
waited-IsTracked w (e ∷ m) (inl here, h) = (here, waited-IsTracked w m h)
waited-IsTracked w (e ∷ m) (inr (p, never), h) = absurd never

module _ (env : Env) (cfg : Config) where
  Reach-AllWaited : {m : Manager} → Reach env cfg m → AllWaited ⊥ m
  unfolding new
  Reach-AllWaited start = tt
  Reach-AllWaited (later r s) = Step-AllWaited ⊥ env cfg s (Reach-AllWaited r)

  -- Whatever the goroutines of the manager do, and in any order: a server stands in the table only
  -- while its process is waited for, so no server outlives its process there.
  pub Reach-IsTracked : {m : Manager} → Reach env cfg m → IsTracked m.waiting m.servers
  Reach-IsTracked {m} r = waited-IsTracked m.waiting m.servers (Reach-AllWaited r)

tracked-HasProcesses : (w : List (String × ℕ)) (m : Dict Server) → IsTracked w m → HasProcesses m
tracked-HasProcesses w [] h = tt
tracked-HasProcesses w ((k, s) ∷ m) ((pid, p, i), h) = ((λ e. cc), tracked-HasProcesses w m h)

-- Whatever the goroutines of the manager do, and in any order, an invocation does not panic, as long
-- as the processes keep to JSON-RPC's form of an error and no server registers over the socket.
pub Reach-Survives :
    (env : Env) (cfg : Config) (m : Manager) (nano : ℕ) (tool : String) (args : Dict Json)
    (p : Panic)
    → Reach env cfg m
    → IsJsonRpc env
    → (invoke env nano tool args m).1 ≢ panicked p
Reach-Survives env cfg m nano tool args p r h =
    invoke-Survives env nano tool args m p h
      (tracked-HasProcesses m.waiting m.servers (Reach-IsTracked env cfg r))
