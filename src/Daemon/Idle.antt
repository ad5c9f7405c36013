-- ===== src/Daemon/Idle.antt =====
-- internal/daemon/daemon.go: the idle timer. A prompt notes its time, and the timer, when it fires,
-- looks whether that is five minutes ago.
pub mod Moving
pub mod Once
use cognitiveosd.Prelude.{
  ℕ, suc, ◌*◌, ◌-◌, ◌<◌, ◌^◌, ◌≡◌, refl, String, Bool, true, false, List, [], ◌∷◌, leb, arith,
  if◌then◌else◌,
}
use cognitiveosd.Prelude.Result.{Result, ok, err}
use cognitiveosd.Protocol.Env.{Env}
use cognitiveosd.Wide
use cognitiveosd.Daemon.{
  Action, Daemon, State, idle, continue, left, returned, panicked, deadlocked, skip, set_state,
  on_wide, ◌>>◌, ◌>>=◌,
}
use cognitiveosd.Daemon.Shutdown.{unload_wide}

-- `idleTimeoutDuration`, in nanoseconds
abbrev pub idle_timeout : ℕ
idle_timeout = 300 * 1000000000

-- `touchIdleTimer`
unfoldable pub touch_idle_timer : Env → Action
touch_idle_timer env d =
    returned tt (record d { last_request = env.unix_nano d.clock; clock = suc d.clock })

-- `startIdleTimer`, up to the function that it leaves behind
unfoldable pub start_idle_timer : Env → Action
start_idle_timer env d =
    returned tt
      (record d { last_request = env.unix_nano d.clock; clock = suc d.clock; idle_timer = true })

-- The function of the timer, with the time that has gone by since the last prompt.
unfoldable pub idle_elapsed : Env → ℕ → Action
idle_elapsed env since =
    if leb idle_timeout since then (do unload_wide env "idle_timeout"; set_state idle) else skip

fire_armed : Env → Bool → Action
fire_armed env false = skip
fire_armed env true = λ d.
    idle_elapsed env (env.unix_nano d.clock - d.last_request)
      (record d { clock = suc d.clock; idle_timer = false })

-- The timer fires, if it has been started and has not fired yet.
unfoldable pub idle_fired : Env → Action
unfolding fire_armed
idle_fired env d = fire_armed env d.idle_timer d
