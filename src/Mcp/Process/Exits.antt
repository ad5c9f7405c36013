-- ===== src/Mcp/Process/Exits.antt =====
-- internal/daemon/mcp_lifecycle.go: what `Wait` does behind the end of a process.
use mathlib.Core.List.{Memᴰ, ◌++◌ as append}
use cognitiveosd.Prelude.{
  ℕ, String, Bool, false, ◌||◌, ◌≡◌, ◌≢◌, refl, none, some, List, [], ◌∷◌, Bool-cases, inl, inr, ap,
  arith,
}
use cognitiveosd.Prelude.Dict.{lookup, delete, lookup-delete_self}
use cognitiveosd.Prelude.Text.{has_prefix}
use cognitiveosd.Mcp.{Manager, Server, shutdown_all, unregister}
use cognitiveosd.Mcp.Process.{exited}
use cognitiveosd.Mcp.Terminated.{shutdown_all-terminate}
use cognitiveosd.Mcp.{terminate}
use cognitiveosd.Mcp.Process.Waited.{mem-without}

exited-servers :
    (down : Bool) (name : String) (m : Manager)
    → ((exited down name m).servers ≡ delete name m.servers)
      × ((exited down name m).waiting ≡ m.waiting)
unfolding exited unregister
exited-servers down name m = ground arith

-- With two processes under one name, the end of either takes the name out of the table, also where
-- it stands for the other, which goes on running: it is still waited for, and no longer known.
pub exited-evicts :
    (down : Bool) (name : String) (pid pid' : ℕ) (before after : List (String × ℕ)) (s : Server)
    (m : Manager)
    → m.waiting ≡ append before ((name, pid) ∷ after)
    → Memᴰ (name, pid') m.waiting
    → pid' ≢ pid
    → lookup name m.servers ≡ some s
    → s.process ≡ some pid'
    → let m' = exited down name (record m { waiting = append before after }) in
      Memᴰ (name, pid') m'.waiting × (lookup name m'.servers ≡ none)
exited-evicts down name pid pid' before after s m split other apart found process =
    let (servers, waiting) =
      exited-servers down name (record m { waiting = append before after }) in
    let ne : (name, pid') ≢ (name, pid) = λ e. apart (ap (λ (x : String × ℕ). x.1) e) in
    (
      rw waiting (mem-without (name, pid') (name, pid) before after (rw split at other) ne),
      rw servers (lookup-delete_self name m.servers),
    )

-- The processes end, one after the other.
pub ended_all : Bool → List (String × ℕ) → Manager → Manager
ended_all down [] m = m
ended_all down ((name, pid) ∷ rest) m =
    ended_all down rest (exited down name (record m { waiting = rest }))

exited-keeps :
    (down : Bool) (name : String) (x : String × String) (m : Manager)
    → Memᴰ x m.spawning
    → Memᴰ x (exited down name m).spawning
unfolding exited unregister
exited-keeps down name x m i = elim (Bool-cases (has_prefix name "bridge-" || down)) [
  | inl stays ↦ rw stays i
  | inr again ↦ rw again (Memᴰ.tail i)
]

ended_all-keeps :
    (down : Bool) (l : List (String × ℕ)) (x : String × String) (m : Manager)
    → Memᴰ x m.spawning
    → Memᴰ x (ended_all down l m).spawning
unfolding ended_all
ended_all-keeps down [] x m i = i
ended_all-keeps down ((name, pid) ∷ l) x m i =
    ended_all-keeps down l x (exited down name (record m { waiting = l }))
      (exited-keeps down name x (record m { waiting = l }) i)

exited-restarts :
    (name : String) (m : Manager)
    → has_prefix name "bridge-" ≡ false
    → Memᴰ (name, name) (exited false name m).spawning
unfolding exited unregister
exited-restarts name m h = rw h (Memᴰ.head refl)

ended_all-restarts :
    (l : List (String × ℕ)) (name : String) (pid : ℕ) (m : Manager)
    → Memᴰ (name, pid) l
    → has_prefix name "bridge-" ≡ false
    → Memᴰ (name, name) (ended_all false l m).spawning
unfolding ended_all
ended_all-restarts [] name pid m i h = elim i [ ]
ended_all-restarts ((k, q) ∷ l) name pid m (Memᴰ.head e) h =
    let same : name ≡ k = cc in
    ended_all-keeps false l (name, name) (exited false k (record m { waiting = l }))
      (rw (← same) (exited-restarts name (record m { waiting = l }) h))
ended_all-restarts ((k, q) ∷ l) name pid m (Memᴰ.tail i) h =
    ended_all-restarts l name pid (exited false k (record m { waiting = l })) i h

-- A server that `ShutdownAll` stops is sent SIGTERM and taken out of the table, and it comes back where
-- the daemon is not shutting down when the processes end, as behind the code idle: once every process
-- that was waited for has ended, the server is to be spawned again, unless its name begins with
-- "bridge-", and its command is then its name, whatever it was before.
pub shutdown_all-restarts :
    (name : String) (s : Server) (pid : ℕ) (m : Manager)
    → lookup name m.servers ≡ some s
    → s.process ≡ some pid
    → Memᴰ (name, pid) m.waiting
    → has_prefix name "bridge-" ≡ false
    → let (m', signals) = shutdown_all m in
      Memᴰ (terminate pid) signals
      × (lookup name m'.servers ≡ none)
      × Memᴰ (name, name) (ended_all false m'.waiting m').spawning
unfolding shutdown_all lookup
shutdown_all-restarts name s pid m found process i h = (
  (shutdown_all-terminate name s pid m found process).0,
  refl,
  ended_all-restarts m.waiting name pid (shutdown_all m).0 i h,
)
