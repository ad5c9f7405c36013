-- ===== src/Mcp/Process/Waited.antt =====
-- internal/daemon/mcp_lifecycle.go: the servers of the table and the processes that are waited for,
-- whether or not a server may stand there without a process.
use mathlib.Core.List.{Memᴰ, ◌++◌ as append}
use mathlib.Core.Path.{subst}
use cognitiveosd.Prelude.{
  ℕ, String, Bool, ◌||◌, ◌≡◌, ◌≢◌, refl, ◌⊎◌, inl, inr, Option, none, some, List, [], ◌∷◌, ◌==◌,
  All, Bool-cases, arith, eq_iff,
}
use cognitiveosd.Prelude.Dict.{Dict, delete, insert, lookup}
use cognitiveosd.Prelude.Text.{has_prefix}
use cognitiveosd.Config.{Config}
use cognitiveosd.Json.{Json}
use cognitiveosd.Protocol.{McpTool}
use cognitiveosd.Protocol.Env.{Env, Started, no_pipe, not_started, running}
use cognitiveosd.Mcp.{
  Manager, Server, new, register, register_process, registered, resolve_server, shutdown_all,
  unregister,
}
use cognitiveosd.Mcp.Process.{exited, healthcheck, spawn, spawn_core_bridges, spawn_started}
use cognitiveosd.Mcp.Process.Managed.{Managed, nothing, runs, queues, registers, unregisters}
use cognitiveosd.Mcp.Process.Steps.{Step, bridges, begins, ends, checks, invokes, stops}
use cognitiveosd.Mcp.Rpc.{invoke, invoke_on, invoke_server}

-- Taking one entry out of a list leaves the others.
pub mem-without {ℓ} :
    {A : Type ℓ} (x y : A) (before after : List A)
    → Memᴰ x (append before (y ∷ after))
    → x ≢ y
    → Memᴰ x (append before after)
mem-without x y [] after (Memᴰ.head e) n = absurd (n e)
mem-without x y [] after (Memᴰ.tail i) n = i
mem-without x y (z ∷ before) after (Memᴰ.head e) n = Memᴰ.head e
mem-without x y (z ∷ before) after (Memᴰ.tail i) n = Memᴰ.tail (mem-without x y before after i n)

-- `Bare` says whether a server may have no process.
module _ (Bare : Type 0) where
  -- A server in the table has a process that is among those waited for, under the server's name.
  abbrev pub IsWaited : List (String × ℕ) → String × Server → Type 0
  IsWaited waiting e =
      ((pid : ℕ) × (e.1.process ≡ some pid) × Memᴰ (e.0, pid) waiting)
      ⊎ ((e.1.process ≡ none) × Bare)

  abbrev pub AreWaited : List (String × ℕ) → Dict Server → Type 0
  AreWaited waiting m = All (IsWaited waiting) m

  IsWaited-carried :
      (w w' : List (String × ℕ)) (e : String × Server)
      → ((pid : ℕ) → Memᴰ (e.0, pid) w → Memᴰ (e.0, pid) w')
      → IsWaited w e
      → IsWaited w' e
  IsWaited-carried w w' e f (inl (pid, p, i)) = inl (pid, p, f pid i)
  IsWaited-carried w w' e f (inr bare) = inr bare

  -- A table with servers whose processes are waited for elsewhere too.
  AreWaited-more :
      (w w' : List (String × ℕ)) (m : Dict Server)
      → ((x : String × ℕ) → Memᴰ x w → Memᴰ x w')
      → AreWaited w m
      → AreWaited w' m
  AreWaited-more w w' [] f h = tt
  AreWaited-more w w' (e ∷ m) f (here, h) =
      (IsWaited-carried w w' e (λ pid. f (e.0, pid)) here, AreWaited-more w w' m f h)

  insert-AreWaited :
      (w : List (String × ℕ)) (k : String) (s : Server) (m : Dict Server)
      → IsWaited w (k, s)
      → AreWaited w m
      → AreWaited w (insert k s m)
  unfolding insert
  insert-AreWaited w k s [] new h = (new, tt)
  insert-AreWaited w k s ((j, t) ∷ m) new (here, h) = elim (Bool-cases (j == k)) [
    | inl same ↦ rw same (new, h)
    | inr other ↦ rw other (here, insert-AreWaited w k s m new h)
  ]

  delete-AreWaited :
      (name : String) (pid : ℕ) (before after : List (String × ℕ)) (m : Dict Server)
      → AreWaited (append before ((name, pid) ∷ after)) m
      → AreWaited (append before after) (delete name m)
  unfolding delete
  delete-AreWaited name pid before after [] h = tt
  delete-AreWaited name pid before after ((j, t) ∷ m) (here, h) = elim (Bool-cases (j == name)) [
    | inl same ↦ rw same (delete-AreWaited name pid before after m h)
    | inr other ↦
        let apart : (q : ℕ) → (j, q) ≢ (name, pid) = λ q e. ground (arith, eq_iff j name, e) in
        rw other (
          IsWaited-carried (append before ((name, pid) ∷ after)) (append before after) (j, t)
              (λ q i. mem-without (j, q) (name, pid) before after i (apart q)) here,
          delete-AreWaited name pid before after m h,
        )
  ]

  removed-AreWaited :
      (w : List (String × ℕ)) (name : String) (m : Dict Server)
      → AreWaited w m
      → AreWaited w (delete name m)
  unfolding delete
  removed-AreWaited w name [] h = tt
  removed-AreWaited w name ((j, t) ∷ m) (here, h) = elim (Bool-cases (j == name)) [
    | inl same ↦ rw same (removed-AreWaited w name m h)
    | inr other ↦ rw other (here, removed-AreWaited w name m h)
  ]

  -- What a registration puts under a name is waited for as what stood there was.
  registered-IsWaited :
      (w : List (String × ℕ)) (name : String) (tools : List McpTool) (conn : ℕ) (m : Dict Server)
      → Bare
      → AreWaited w m
      → IsWaited w (name, registered name tools conn (lookup name m))
  unfolding lookup
  registered-IsWaited w name tools conn [] bare h = inr (refl, bare)
  registered-IsWaited w name tools conn ((j, t) ∷ m) bare (here, h) =
      elim (Bool-cases (j == name)) [
        | inl same ↦
            rw same (subst (λ (n : String). IsWaited w (n, t)) ((eq_iff j name).0 same) here)
        | inr other ↦ rw other (registered-IsWaited w name tools conn m bare h)
      ]

  -- Of a manager, all servers.
  abbrev pub AllWaited : Manager → Type 0
  AllWaited m = AreWaited m.waiting m.servers

  module _ (env : Env) (cfg : Config) where
    spawn_started-AllWaited :
        (name group : String) (s : Started) (m : Manager)
        → AllWaited m
        → AllWaited (spawn_started env name group s m)
    unfolding spawn_started register_process
    spawn_started-AllWaited name group (no_pipe e) m h = h
    spawn_started-AllWaited name group (not_started e) m h = h
    spawn_started-AllWaited name group (running pid) m h =
        insert-AreWaited ((name, pid) ∷ m.waiting) name _ m.servers
          (inl (pid, refl, Memᴰ.head refl))
          (AreWaited-more m.waiting ((name, pid) ∷ m.waiting) m.servers (λ x i. Memᴰ.tail i) h)

    invoke_on-keeps :
        (nano : ℕ) (tool : String) (args : Dict Json) (name : String) (s : Server) (p : Option ℕ)
        (m : Manager)
        → AllWaited m
        → AllWaited (invoke_on env tool args nano name s p m).0
    unfolding invoke_on
    invoke_on-keeps nano tool args name s none m h = h
    invoke_on-keeps nano tool args name s (some pid) m h = h

    invoke_server-keeps :
        (nano : ℕ) (tool : String) (args : Dict Json) (name : String) (s : Option Server)
        (m : Manager)
        → AllWaited m
        → AllWaited (invoke_server env tool args nano name s m).0
    unfolding invoke_server
    invoke_server-keeps nano tool args name none m h = h
    invoke_server-keeps nano tool args name (some s) m h = elim (Bool-cases s.active) [
      | inl on ↦ rw on (invoke_on-keeps nano tool args name s s.process m h)
      | inr off ↦ rw off h
    ]

    invoke-keeps :
        (nano : ℕ) (tool : String) (args : Dict Json) (m : Manager)
        → AllWaited m
        → AllWaited (invoke env nano tool args m).0
    unfolding invoke
    invoke-keeps nano tool args m h = elim (Bool-cases (resolve_server tool m == "")) [
      | inl unknown ↦ rw unknown h
      | inr known ↦ rw known (invoke_server-keeps nano tool args (resolve_server tool m) _ m h)
    ]

    exited-AllWaited :
        (down : Bool) (name : String) (m : Manager)
        → AreWaited m.waiting (delete name m.servers)
        → AllWaited (exited down name m)
    unfolding exited unregister
    exited-AllWaited down name m h = elim (Bool-cases (has_prefix name "bridge-" || down)) [
      | inl stays ↦ rw stays h
      | inr again ↦ rw again h
    ]

    pub Step-AllWaited : {m m' : Manager} → Step env cfg m m' → AllWaited m → AllWaited m'
    unfolding spawn spawn_core_bridges healthcheck shutdown_all
    Step-AllWaited bridges h = h
    Step-AllWaited {m} (begins name binary before after e) h = spawn_started-AllWaited name _ _ _ h
    Step-AllWaited {m} (ends down name pid before after e) h =
        exited-AllWaited down name (record m { waiting = append before after })
          (delete-AreWaited name pid before after m.servers (rw e at h))
    Step-AllWaited (checks alive) h = h
    Step-AllWaited {m} (invokes nano tool args) h = invoke-keeps nano tool args m h
    Step-AllWaited stops h = tt

    -- With registrations over the socket, which bring servers without a process.
    pub Managed-AllWaited :
        {m m' : Manager} → Bare → Managed env cfg m m' → AllWaited m → AllWaited m'
    unfolding register unregister
    Managed-AllWaited bare nothing h = h
    Managed-AllWaited bare (runs a s) h = Step-AllWaited s (Managed-AllWaited bare a h)
    Managed-AllWaited bare (queues a calls) h = Managed-AllWaited bare a h
    Managed-AllWaited bare (registers {n} a name tools conn) h =
        let before = Managed-AllWaited bare a h in
        insert-AreWaited n.waiting name _ n.servers
          (registered-IsWaited n.waiting name tools conn n.servers bare before) before
    Managed-AllWaited bare (unregisters {n} a name) h =
        removed-AreWaited n.waiting name n.servers (Managed-AllWaited bare a h)
