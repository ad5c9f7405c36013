-- ===== src/Life.antt =====
-- internal/daemon: the daemon from the loop of `Run` on, whatever comes: connections and their lines,
-- prompts and tuning, the idle timer, the audit, the goroutines of the MCP servers, and signals.
pub mod Denied
pub mod Ending
pub mod Guard
pub mod Invariants
pub mod Unasked
use cognitiveosd.Prelude.{ℕ, String, ◌≡◌, false, none}
use cognitiveosd.Config.{Config}
use cognitiveosd.Handlers.Codes.Moving.{Verdicts}
use cognitiveosd.Raw.{is_ready}
use cognitiveosd.Mcp.{Manager}
use cognitiveosd.Mcp.Process.Managed.{Managed}
use cognitiveosd.Mcp.Process.Steps.{Step}
use cognitiveosd.Protocol.Env.{Env}
use cognitiveosd.Daemon.{Daemon, Task, left, returned}
use cognitiveosd.Daemon.Clients.{close, with_conn}
use cognitiveosd.Daemon.Evolution.{
  Permits, Evolves, Evolves-refl, Evolves-trans, Moves, continue-Moves, core, mcp-Evolves,
  returned-Moves,
}
use cognitiveosd.Daemon.Evolution.Closing.{shutdown-Moves}
use cognitiveosd.Daemon.Idle.{idle_fired}
use cognitiveosd.Daemon.Idle.Moving.{idle_fired-Moves}
use cognitiveosd.Daemon.Reports.{audit_tick}
use cognitiveosd.Daemon.Reports.Moving.{audit_tick-Moves}
use cognitiveosd.Daemon.Shutdown.{shutdown}
use cognitiveosd.Handlers.Prompt.{run_task}
use cognitiveosd.Handlers.Prompt.Moving.{Allowances, run_task-Moves}
use cognitiveosd.Socket.{handle_line, new_client_conn, parse_line}
use cognitiveosd.Socket.Moving.{close-Moves, handle_line-Moves}
use cognitiveosd.Startup.{signal_received, done_closed, main_loop, new_daemon, remove_pid, start_up}
use cognitiveosd.Startup.Moving.{connected, start_up-Evolves}

-- What happens next to a daemon, and what it leaves, however it ends: with a panic or a deadlock the
-- parts are what they were when it came. Any of these may come at any time, so also where a process
-- that has panicked, or a goroutine that waits for a lock or an MCP process, also behind one that is
-- stuck with a lock, would go no further. `Signals` says whether
-- there are signals from outside.
pub data Turn (env : Env) (Signals : Type 0) (d : Daemon) : Daemon → Type 0 where
  accepts : (c : ℕ) → Turn env Signals d (with_conn c (λ k. new_client_conn) d)
  reads :
      (c : ℕ) (text : String)
      → Turn env Signals d (left (handle_line env c text (parse_line env text) d))
  closes : (c : ℕ) → Turn env Signals d (left (close c d))
  works : (t : Task) → Turn env Signals d (left (run_task env t d))
  fires : Turn env Signals d (left (idle_fired env d))
  ticks : Turn env Signals d (left (audit_tick env d))
  serves : (m : Manager) → Step env d.config d.mcp m → Turn env Signals d (record d { mcp = m })
  signalled : Signals → Turn env Signals d (left (main_loop env signal_received d))
  closed : Turn env Signals d (left (main_loop env done_closed d))

-- Any number of turns.
pub data Turns (env : Env) (Signals : Type 0) (d : Daemon) : Daemon → Type 0 where
  start : Turns env Signals d d
  later :
      {d' d'' : Daemon} → Turns env Signals d d' → Turn env Signals d' d'' → Turns env Signals d d''

-- What a process comes to that has reached its loop.
pub data Life (env : Env) (Signals : Type 0) (cfg : Config) : Daemon → Type 0 where
  born :
      {d d' : Daemon}
      → start_up env (new_daemon cfg) ≡ returned none d
      → Turns env Signals d d'
      → Life env Signals cfg d'

module _ (env : Env) (May : Permits) where
  signalled-Moves :
      May.shutdown → (d : Daemon) → Moves env May (core d) (main_loop env signal_received d)
  unfolding main_loop remove_pid
  signalled-Moves may d =
      continue-Moves env May (core d) (shutdown env "signal" d) _
        (shutdown-Moves env May may "signal" d)
        (λ u d'. returned-Moves env May tt (record d' { pid_file = false }))

  closed-Moves : (d : Daemon) → Moves env May (core d) (main_loop env done_closed d)
  unfolding main_loop remove_pid
  closed-Moves d = returned-Moves env May tt (record d { pid_file = false })

  -- A turn changes the daemon's parts by their own operations. It shuts the daemon down only on a
  -- signal, where the raw model calls a code valid, or where that is not ready, and asks the engine
  -- for a text only where the raw model allows a prompt.
  pub Turn-Evolves :
      {Signals : Type 0} {d d' : Daemon}
      → (Signals → May.shutdown)
      → (Verdicts env → May.shutdown)
      → (is_ready d.raw ≡ false → May.shutdown)
      → (Allowances env → May.generate)
      → Turn env Signals d d'
      → Evolves env May (core d) (core d')
  Turn-Evolves {d = d} s v gone allows (accepts c) = Evolves-refl env May (core d)
  Turn-Evolves {d = d} s v gone allows (reads c text) =
      (handle_line-Moves env May v c text (parse_line env text) d gone).at
  Turn-Evolves {d = d} s v gone allows (closes c) = (close-Moves env May c d).at
  Turn-Evolves {d = d} s v gone allows (works t) = (run_task-Moves env May allows t d).at
  Turn-Evolves {d = d} s v gone allows fires = (idle_fired-Moves env May d).at
  Turn-Evolves {d = d} s v gone allows ticks = (audit_tick-Moves env May d).at
  Turn-Evolves {d = d} s v gone allows (serves m step) =
      mcp-Evolves env May (core d) m (Managed.runs Managed.nothing step)
  Turn-Evolves {d = d} s v gone allows (signalled signal) = (signalled-Moves (s signal) d).at
  Turn-Evolves {d = d} s v gone allows closed = (closed-Moves d).at

-- Whatever may happen.
abbrev pub anything : Permits
anything = record { shutdown = Unit {0}; generate = Unit {0} }

pub Turns-Evolves :
    (env : Env) {Signals : Type 0} {d d' : Daemon}
    → Turns env Signals d d'
    → Evolves env anything (core d) (core d')
Turns-Evolves env {d = d} start = Evolves-refl env anything (core d)
Turns-Evolves env (later l t) =
    Evolves-trans env anything (Turns-Evolves env l)
      (Turn-Evolves env anything (λ s. tt) (λ v. tt) (λ g. tt) (λ a. tt) t)

pub Life-Evolves :
    (env : Env) {Signals : Type 0} {cfg : Config} {d : Daemon}
    → Life env Signals cfg d
    → Evolves env anything (connected env cfg) (core d)
Life-Evolves env {cfg = cfg} (born {d} e l) =
    Evolves-trans env anything (start_up-Evolves env anything cfg d e) (Turns-Evolves env l)
