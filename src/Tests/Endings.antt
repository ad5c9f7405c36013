-- ===== src/Tests/Endings.antt =====
-- The theorems on the daemon's shutdown at work.
use mathlib.Core.List.{◌++◌ as append}
use cognitiveosd.Prelude.{◌≡◌, refl, true, none, [], ◌∷◌}
use cognitiveosd.Daemon.{command, Daemon, State, returned, panicked}
use cognitiveosd.Daemon.Closing.Ended.{power_commands, shutdown-ends, shutdown-twice}
use cognitiveosd.Mcp.{Panic}
use cognitiveosd.Daemon.Shutdown.{shutdown}
use cognitiveosd.Tests.{daemon_with, ready_raw, willing, world}

shutdown-ends_example :
    (d' : Daemon) × (shutdown (world willing) "reset_code" (daemon_with ready_raw [])
      ≡ returned tt d')
    × (d'.commands
        ≡ command "umount" ("/cognitiveos/run" ∷ []) ∷ append (power_commands "reset_code") [])
    × (d'.state ≡ State.shutdown)
    × (d'.mcp.servers ≡ [])
    × (d'.raw.conn ≡ none)
    × (d'.listener_closed ≡ true)
    × (d'.auditor_stopped ≡ true)
shutdown-ends_example =
    shutdown-ends (world willing) "reset_code" (daemon_with ready_raw []) refl refl refl

shutdown-twice_example :
    (d' d'' : Daemon) × (shutdown (world willing) "reset_code" (daemon_with ready_raw [])
      ≡ returned tt d')
    × (shutdown (world willing) "SIGTERM" d' ≡ panicked Panic.close_of_closed d'')
    × (d''.commands ≡ d'.commands)
shutdown-twice_example =
    shutdown-twice (world willing) "reset_code" "SIGTERM" (daemon_with ready_raw []) refl refl refl
