-- ===== src/Daemon/Idle/Moving.antt =====
-- internal/daemon/daemon.go: what the idle timer does to the daemon's parts.
use cognitiveosd.Prelude.{ℕ, suc, ◌-◌, Bool, true, false, leb}
use cognitiveosd.Protocol.Env.{Env}
use cognitiveosd.Daemon.{Daemon, idle}
use cognitiveosd.Daemon.Evolution.{Permits, Moves, continue-Moves, core, if-Moves, returned-Moves}
use cognitiveosd.Daemon.Evolution.Closing.{unload_wide-Moves}
use cognitiveosd.Daemon.Idle.{fire_armed, idle_elapsed, idle_fired, idle_timeout}
use cognitiveosd.Daemon.Shutdown.{unload_wide}

module _ (env : Env) (May : Permits) where
  idle_elapsed-Moves : (since : ℕ) (d : Daemon) → Moves env May (core d) (idle_elapsed env since d)
  unfolding idle_elapsed
  idle_elapsed-Moves since d =
      if-Moves env May (core d) (leb idle_timeout since) _ _ d
        (continue-Moves env May (core d) (unload_wide env "idle_timeout" d) _
          (unload_wide-Moves env May "idle_timeout" d)
          (λ e d'. returned-Moves env May tt (record d' { state = idle })))
        (returned-Moves env May tt d)

  armed-Moves : (armed : Bool) (d : Daemon) → Moves env May (core d) (fire_armed env armed d)
  unfolding fire_armed
  armed-Moves false d = returned-Moves env May tt d
  armed-Moves true d =
      idle_elapsed-Moves (env.unix_nano d.clock - d.last_request)
        (record d { clock = suc d.clock; idle_timer = false })

  pub idle_fired-Moves : (d : Daemon) → Moves env May (core d) (idle_fired env d)
  unfolding idle_fired
  idle_fired-Moves d = armed-Moves d.idle_timer d
