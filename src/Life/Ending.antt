-- ===== src/Life/Ending.antt =====
-- internal/daemon/daemon.go: what becomes of a process whose shutdown has begun.
use mathlib.Core.Bool.{false≢true}
use cognitiveosd.Prelude.{String, ◌≡◌, ◌∙◌, sym, false, true, inl, inr}
use cognitiveosd.Protocol.Env.{Env}
use cognitiveosd.Daemon.{Daemon, Outcome, panicked, deadlocked, returned, left}
use cognitiveosd.Daemon.Closing.Stuck.{HasOpen, IsStuck, shutdown-IsStuck}
use cognitiveosd.Daemon.Evolution.Closing.{shutdown-IsDown}
use cognitiveosd.Daemon.Shutdown.{shutdown}
use cognitiveosd.Life.{Turns, Turns-Evolves}

module _ (env : Env) where
  closed_commands :
      {d d' : Daemon}
      → d.listener_closed ≡ true
      → Turns env (Unit {0}) d d'
      → d'.commands ≡ d.commands
  closed_commands closed turns = elim (Turns-Evolves env turns).powered [
    | inl same ↦ same
    | inr (may, was_open, down) ↦ absurd (false≢true (sym was_open ∙ closed))
  ]

  -- Behind a shutdown that has closed the listener, and that has ended, panicked or is stuck, whatever
  -- comes then, further shutdowns too: no further command is run, and the listener stays closed.
  pub Turns-closed :
      (d d' : Daemon)
      → d.listener_closed ≡ true
      → Turns env (Unit {0}) d d'
      → (d'.commands ≡ d.commands) × (d'.listener_closed ≡ true)
  Turns-closed d d' closed turns =
      (closed_commands closed turns, (Turns-Evolves env turns).listener closed)

  stuck_commands :
      (d : Daemon) (o : Outcome (Unit {0})) → IsStuck d.commands o → (left o).commands ≡ d.commands
  stuck_commands d (deadlocked d') h = h
  stuck_commands d (returned u d') h = absurd h
  stuck_commands d (panicked p d') h = absurd h

  -- If some client in the table has an open connection when a shutdown begins, the shutdown waits for
  -- ever for a lock that it holds, and neither the commands of its reason nor the unmounting are ever
  -- run in this process, whatever comes then, further signals and codes too.
  pub shutdown-never_powers :
      (reason : String) (d d' : Daemon)
      → d.listener_closed ≡ false
      → d.auditor_stopped ≡ false
      → HasOpen d.conns d.clients
      → Turns env (Unit {0}) (left (shutdown env reason d)) d'
      → IsStuck d.commands (shutdown env reason d) × (d'.commands ≡ d.commands)
  shutdown-never_powers reason d d' still running held turns =
      let stuck = shutdown-IsStuck env reason d still running held in
      let down = shutdown-IsDown env reason d still running in
      (stuck, closed_commands down.listener turns ∙ stuck_commands d (shutdown env reason d) stuck)
