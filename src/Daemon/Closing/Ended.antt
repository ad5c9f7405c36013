-- ===== src/Daemon/Closing/Ended.antt =====
-- internal/daemon/daemon.go: a shutdown with no clients, and another one behind it.
use mathlib.Core.List.{◌++◌ as append}
use cognitiveosd.Prelude.{
  ℕ, String, ◌≡◌, refl, ◌∙◌, true, false, none, List, [], ◌∷◌, arith, ◌==◌, ap, if◌then◌else◌,
}
use cognitiveosd.Prelude.Dict.{Dict}
use cognitiveosd.Mcp.{Panic}
use cognitiveosd.Protocol.Env.{Env}
use cognitiveosd.Daemon.{Daemon, State, Command, command, returned, panicked, ◌>>◌, continue}
use cognitiveosd.Daemon.Shutdown.{close_clients, power_down, unmount, shutdown}
use cognitiveosd.Daemon.Closing.{
  IsWound, shutdown-wound, unwound, wind_down-panics, wound, wound-IsWound,
}

-- The commands of a shutdown, the last one first.
abbrev pub power_commands : String → List Command
power_commands reason =
    if reason == "security_code"
    then command "gpioset" ("0" ∷ "1=0" ∷ []) ∷ command "gpioset" ("0" ∷ "0=0" ∷ []) ∷ []
    else if reason == "idle_code"
    then command "sysctl" ("-w" ∷ "kernel.printk=0" ∷ []) ∷ []
    else if reason == "reset_code"
    then command "rm" ("-rf" ∷ "/cognitiveos/patches/*" ∷ [])
      ∷ command "rm" ("-rf" ∷ "/cognitiveos/models/wide/*" ∷ [])
      ∷ command "rm" ("-rf" ∷ "/cognitiveos/data/*" ∷ [])
      ∷ []
    else []

power_down_lem :
    (reason : String) (d : Daemon)
    → power_down reason d
      ≡ returned tt (record d { commands = append (power_commands reason) d.commands })
unfolding power_down
power_down_lem reason d = ground arith

close_clients-empty : (m : Dict ℕ) (d : Daemon) → m ≡ [] → close_clients m d ≡ returned tt d
unfolding close_clients
close_clients-empty m d h = rw (h, close_clients)

-- The daemon after a shutdown with no clients.
abbrev pub ended : Env → String → Daemon → Daemon
ended env reason d = record (wound env reason d) {
  commands = command "umount" (d.config.run_dir ∷ []) ∷ append (power_commands reason) d.commands;
}

powered-unmounted :
    (env : Env) (reason : String) (d : Daemon)
    → (power_down reason >> unmount) (wound env reason d) ≡ returned tt (ended env reason d)
unfolding unmount
powered-unmounted env reason d = rw (power_down_lem reason (wound env reason d), ◌>>◌)

-- With no client in the table, and where neither the listener has been closed nor the auditor stopped
-- before, `shutdown` ends: the commands of the reason have run, and the
-- unmounting behind them; the state is `shutdown`, no MCP server and no raw model is left, and the
-- listener and the auditor have been stopped.
pub shutdown-ends :
    (env : Env) (reason : String) (d : Daemon)
    → d.listener_closed ≡ false
    → d.auditor_stopped ≡ false
    → d.clients ≡ []
    → (d' : Daemon) × (shutdown env reason d ≡ returned tt d')
      × (d'.commands
          ≡ command "umount" (d.config.run_dir ∷ []) ∷ append (power_commands reason) d.commands)
      × (d'.state ≡ State.shutdown)
      × (d'.mcp.servers ≡ [])
      × (d'.raw.conn ≡ none)
      × (d'.listener_closed ≡ true)
      × (d'.auditor_stopped ≡ true)
shutdown-ends env reason d open_listener running nobody =
    let w : IsWound d (wound env reason d) = wound-IsWound env reason d in
    (
      ended env reason d,
      shutdown-wound env reason d open_listener running
          ∙ ap (λ o. continue o (λ _. power_down reason >> unmount))
              (close_clients-empty d.clients (wound env reason d) nobody)
          ∙ powered-unmounted env reason d,
      refl,
      refl,
      w.no_servers,
      w.no_raw,
      refl,
      refl,
    )

pub shutdown-panics :
    (env : Env) (reason : String) (d : Daemon)
    → d.listener_closed ≡ true
    → shutdown env reason d ≡ panicked Panic.close_of_closed (unwound env reason d)
unfolding shutdown
shutdown-panics env reason d closed = rw (wind_down-panics env reason d closed, ◌>>◌)

-- With no client in the table, and where neither the listener has been closed nor the auditor stopped
-- before, a first shutdown ends, and a second one right behind it (a signal behind a security or reset
-- code, which leave the main loop running), for whatever reason, panics, since it closes the
-- listener's channel again, and runs no command.
pub shutdown-twice :
    (env : Env) (reason reason' : String) (d : Daemon)
    → d.listener_closed ≡ false
    → d.auditor_stopped ≡ false
    → d.clients ≡ []
    → (d' d'' : Daemon) × (shutdown env reason d ≡ returned tt d')
      × (shutdown env reason' d' ≡ panicked Panic.close_of_closed d'')
      × (d''.commands ≡ d'.commands)
shutdown-twice env reason reason' d open_listener running nobody =
    let (d', done, _, _, _, _, closed, _) =
      shutdown-ends env reason d open_listener running nobody in
    (d', unwound env reason' d', done, shutdown-panics env reason' d' closed, refl)
