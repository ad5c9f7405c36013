-- ===== src/Daemon/Closing.antt =====
-- internal/daemon/daemon.go: a shutdown up to the point where it closes the clients.
pub mod Stuck
pub mod Ended
use mathlib.Core.Bool.{false≢true}
use mathlib.Core.List.{◌++◌ as append, reverse}
use cognitiveosd.Prelude.{
  ℕ, suc, String, sym, ◌≡◌, refl, ◌≢◌, ◌⊎◌, inl, inr, ◌∙◌, true, false, none, List, [], ◌∷◌, arith,
  eq_iff, ◌==◌, eqb, eq_of_eqb, ne-beq, ap, Bool-cases, if◌then◌else◌,
}
use cognitiveosd.Prelude.Dict.{Dict, delete}
use cognitiveosd.Mcp
use cognitiveosd.Mcp.{Panic}
use cognitiveosd.Protocol.{Body, Envelope, shutdown_notice}
use cognitiveosd.Protocol.Uuid.{uuid}
use cognitiveosd.Protocol.Env.{Env}
use cognitiveosd.Raw
use cognitiveosd.Wide
use cognitiveosd.Daemon.{
  Daemon, State, ClientConn, Command, command, Outcome, returned, panicked, deadlocked, Action,
  ◌>>◌, continue,
}
use cognitiveosd.Daemon.Clients.{close_holding, with_conn, mark_closed}
use cognitiveosd.Daemon.Delivery.{broadcast_written, broadcast_lem}
use cognitiveosd.Daemon.Shutdown.{
  wind_down, close_clients, close_all_clients, power_down, unmount, shutdown,
}

-- What `shutdown` has done when it comes to the clients.
pub record IsWound (d d' : Daemon) : Type 0 where
  pub state : d'.state ≡ State.shutdown
  pub clients : d'.clients ≡ d.clients
  pub conns : d'.conns ≡ d.conns
  pub commands : d'.commands ≡ d.commands
  pub config : d'.config ≡ d.config
  pub no_servers : d'.mcp.servers ≡ []
  pub no_raw : d'.raw.conn ≡ none
  pub listener : d'.listener_closed ≡ true
  pub auditor : d'.auditor_stopped ≡ true

-- The daemon when `wind_down` comes to the listener.
abbrev pub unwound : Env → String → Daemon → Daemon
unwound env reason d =
    let notice : Envelope Body = record {
      type = "shutdown_notice";
      id = uuid env d.drawn;
      timestamp = env.rfc3339 d.clock;
      from = "cognitiveosd";
      payload = shutdown_notice reason;
    } in
    record d {
      state = State.shutdown;
      clock = suc d.clock;
      drawn = suc d.drawn;
      sent = broadcast_written d.conns d.clients notice d.sent;
      wide = (Wide.unload env d.config.inference_url reason d.wide).0;
      mcp = (Mcp.shutdown_all d.mcp).0;
      signals = append (reverse (Mcp.shutdown_all d.mcp).1) d.signals;
      raw = Raw.close d.raw;
    }

-- The daemon that `wind_down` leaves.
abbrev pub wound : Env → String → Daemon → Daemon
wound env reason d = record (unwound env reason d) {
  listener_closed = true;
  auditor_stopped = true;
}

pub wind_down_lem :
    (env : Env) (reason : String) (d : Daemon)
    → d.listener_closed ≡ false
    → d.auditor_stopped ≡ false
    → wind_down env reason d ≡ returned tt (wound env reason d)
unfolding wind_down
wind_down_lem env reason d open_listener running =
    rw (broadcast_lem _ _) (rw (open_listener, running))

pub wind_down-panics :
    (env : Env) (reason : String) (d : Daemon)
    → d.listener_closed ≡ true
    → wind_down env reason d ≡ panicked Panic.close_of_closed (unwound env reason d)
unfolding wind_down
wind_down-panics env reason d closed = rw (broadcast_lem _ _) (rw closed)

-- The listener has been closed by the time that the auditor's channel is found closed.
pub wind_down-stopped :
    (env : Env) (reason : String) (d : Daemon)
    → d.listener_closed ≡ false
    → d.auditor_stopped ≡ true
    → wind_down env reason d
      ≡ panicked Panic.close_of_closed (record (unwound env reason d) { listener_closed = true })
unfolding wind_down
wind_down-stopped env reason d open_listener stopped =
    rw (broadcast_lem _ _) (rw (open_listener, stopped))

wound-IsWound : (env : Env) (reason : String) (d : Daemon) → IsWound d (wound env reason d)
unfolding Mcp.shutdown_all Raw.close
wound-IsWound env reason d = record {
  state = refl;
  clients = refl;
  conns = refl;
  commands = refl;
  config = refl;
  no_servers = refl;
  no_raw = refl;
  listener = refl;
  auditor = refl;
}

-- Where the channels are still open, a shutdown comes to the clients.
shutdown-wound :
    (env : Env) (reason : String) (d : Daemon)
    → d.listener_closed ≡ false
    → d.auditor_stopped ≡ false
    → shutdown env reason d
      ≡ continue (close_clients d.clients (wound env reason d)) (λ _. power_down reason >> unmount)
unfolding shutdown close_all_clients
shutdown-wound env reason d open_listener running =
    rw (wind_down_lem env reason d open_listener running, ◌>>◌)
