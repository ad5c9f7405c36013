-- ===== src/Daemon/Shutdown.antt =====
-- internal/daemon/daemon.go: `shutdown`, with socket.go's `SocketListener.Close` and audit.go's
-- `Auditor.Stop`.
use mathlib.Core.List.{◌++◌ as append, reverse}
use cognitiveosd.Prelude.{ℕ, String, true, Option, List, [], ◌∷◌, ◌==◌, if◌then◌else◌}
use cognitiveosd.Prelude.Dict.{Dict}
use cognitiveosd.Mcp
use cognitiveosd.Mcp.{Panic, Signal}
use cognitiveosd.Protocol.{shutdown_notice}
use cognitiveosd.Protocol.Env.{Env}
use cognitiveosd.Raw
use cognitiveosd.Wide
use cognitiveosd.Daemon.{
  State, command, returned, panicked, Run, Action, skip, ◌>>=◌, ◌>>◌, set_state, on_wide,
  new_envelope,
}
use cognitiveosd.Daemon.Clients.{broadcast, close_holding, remove_client}

-- `mcpMgr.ShutdownAll`
unfoldable pub shutdown_servers : Action
shutdown_servers d =
    let (m, signals) = Mcp.shutdown_all d.mcp in
    returned tt (record d { mcp = m; signals = append (reverse signals) d.signals })

-- `rmClient.Close`
unfoldable pub close_raw : Action
close_raw d = returned tt (record d { raw = Raw.close d.raw })

-- Closing a channel a second time panics.
unfoldable pub close_listener : Action
close_listener d =
    if d.listener_closed
    then panicked Panic.close_of_closed d
    else returned tt (record d { listener_closed = true })

unfoldable pub stop_auditor : Action
stop_auditor d =
    if d.auditor_stopped
    then panicked Panic.close_of_closed d
    else returned tt (record d { auditor_stopped = true })

-- The loop over the clients, under `clientsMu`; `remove_client` is its `delete`.
unfoldable pub close_clients : Dict ℕ → Action
unfolding remove_client
close_clients [] = skip
close_clients ((id, c) ∷ m) = do close_holding c; remove_client id; close_clients m

unfoldable pub run_command : String → List String → Action
run_command name args d = returned tt (record d { commands = command name args ∷ d.commands })

-- The switch on the reason; a command that fails is logged.
unfoldable pub power_down : String → Action
unfolding run_command
power_down reason =
    if reason == "security_code"
    then (do run_command "gpioset" ("0" ∷ "0=0" ∷ []); run_command "gpioset" ("0" ∷ "1=0" ∷ []))
    else if reason == "idle_code"
    then run_command "sysctl" ("-w" ∷ "kernel.printk=0" ∷ [])
    else if reason == "reset_code"
    then (do
      run_command "rm" ("-rf" ∷ "/cognitiveos/data/*" ∷ [])
      run_command "rm" ("-rf" ∷ "/cognitiveos/models/wide/*" ∷ [])
      run_command "rm" ("-rf" ∷ "/cognitiveos/patches/*" ∷ []))
    else skip

-- `wmClient.Unload`
unfoldable pub unload_wide : Env → String → Run (Option String)
unload_wide env reason d = on_wide (Wide.unload env d.config.inference_url reason) d

-- Up to the point where the clients' lock is taken. The pause of half a second behind the servers' stop,
-- in which other goroutines go on, is left out.
unfoldable pub wind_down : Env → String → Action
unfolding unload_wide shutdown_servers close_raw close_listener stop_auditor broadcast
wind_down env reason = do
  set_state State.shutdown
  e ← new_envelope env "shutdown_notice" "cognitiveosd" (shutdown_notice reason)
  broadcast e
  unload_wide env reason
  shutdown_servers
  close_raw
  close_listener
  stop_auditor

unfoldable pub close_all_clients : Action
close_all_clients d = close_clients d.clients d

unfoldable pub unmount : Action
unfolding run_command
unmount d = run_command "umount" (d.config.run_dir ∷ []) d

-- `shutdown`
unfoldable pub shutdown : Env → String → Action
shutdown env reason = do wind_down env reason; close_all_clients; power_down reason; unmount
