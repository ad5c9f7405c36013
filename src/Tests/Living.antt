-- ===== src/Tests/Living.antt =====
-- The theorems on the life of a daemon at work.
use cognitiveosd.Prelude.{inl, [], ◌≡◌, true, refl, none}
use cognitiveosd.Prelude.Result.{err}
use cognitiveosd.Config.{default, ensure_dirs}
use cognitiveosd.Mcp.Process.{spawn_core_bridges}
use cognitiveosd.Mcp.Process.Waited.{AllWaited}
use cognitiveosd.Protocol.{code_accepted, ok_payload, reply}
use cognitiveosd.Protocol.Decoding.{decode_system_code}
use cognitiveosd.Prelude.Text.{to_lower}
use cognitiveosd.Protocol.Env.{Env}
use cognitiveosd.Raw
use cognitiveosd.Raw.{Conn, Raw, live, shut, is_ready, call, connect}
use cognitiveosd.Daemon.Closing.Stuck.{IsStuck}
use cognitiveosd.Daemon.Shutdown.{shutdown}
use cognitiveosd.Life.Ending.{Turns-closed, shutdown-never_powers}
use cognitiveosd.Registry.Models.{load_wide_model}
use cognitiveosd.Socket.{handle_line, new_client_conn, parse_line, listener_error}
use cognitiveosd.Daemon.{Daemon, left, returned}
use cognitiveosd.Daemon.Clients.{broadcast, with_conn}
use cognitiveosd.Daemon.Delivery.{replied}
use cognitiveosd.Daemon.Reports.{audit_tick}
use cognitiveosd.Handlers.{unmarshal}
use cognitiveosd.Handlers.Dispatch.{handle_message}
use cognitiveosd.Raw.Requests.{validate_prompt}
use cognitiveosd.Life.Guard.{Turns-refused, Turns-unlocked}
use cognitiveosd.Life.{born, Life, Turns, start, later, accepts, reads, ticks, signalled}
use cognitiveosd.Life.Invariants.{IsWell, IsPowered, Life-AllWaited, Life-IsWell, Life-IsPowered}
use cognitiveosd.Startup.{
  new_daemon, start_up, come_up, write_pid, start_auditor, scan_patches, load_first_model,
  signal_received, main_loop,
}
use cognitiveosd.Daemon.Idle.{start_idle_timer}
use cognitiveosd.Tests.{daemon_with, ready_raw, shell, request, willing, world}

-- A machine without patches and models.
abbrev pub bare : Env
bare = record (world willing) { read_dir = λ path. err "no such file" }

abbrev up : Daemon
up = left (start_up bare (new_daemon default))

up_lem : start_up bare (new_daemon default) ≡ returned none up
unfolding start_up new_daemon ensure_dirs write_pid listener_error come_up start_auditor
    scan_patches load_first_model load_wide_model start_idle_timer broadcast spawn_core_bridges
up_lem = refl

-- A connection comes and asks for the status, the audit runs, and then a signal ends the daemon.
abbrev accepted : Daemon
accepted = with_conn 7 (λ k. new_client_conn) up

abbrev asked : Daemon
asked = left (handle_line bare 7 "how are you" (parse_line bare "how are you") accepted)

abbrev audited : Daemon
audited = left (audit_tick bare asked)

abbrev ended : Daemon
ended = left (main_loop bare signal_received audited)

auditing : Turns bare (Unit {0}) up audited
auditing = later (later (later start (accepts 7)) (reads 7 "how are you")) ticks

ended-Life : Life bare (Unit {0}) default ended
ended-Life = born up_lem (later auditing (signalled tt))

Life-IsWell_example : IsWell default ended
Life-IsWell_example = Life-IsWell bare default ended ended-Life

Life-AllWaited_example : AllWaited (Unit {0}) ended.mcp
Life-AllWaited_example = Life-AllWaited bare default ended ended-Life

Life-IsPowered_example : IsPowered ended
Life-IsPowered_example = Life-IsPowered bare default ended ended-Life

-- The raw model cannot be reached at the start.
up-lost : up.raw.conn ≡ none
unfolding start_up new_daemon ensure_dirs write_pid listener_error come_up start_auditor
    scan_patches load_first_model load_wide_model start_idle_timer broadcast spawn_core_bridges
    connect Raw.new
up-lost = refl

Turns-refused_example :
    (call bare "healthcheck" none audited.raw
      ≡ (audited.raw, err "E_NOT_CONNECTED: raw model not connected"))
    × (audited.raw.rpc_id ≡ up.raw.rpc_id)
    × (validate_prompt bare "hello" [] audited.raw
        ≡ (audited.raw, err "E_NOT_CONNECTED: raw model not connected"))
Turns-refused_example = Turns-refused bare up audited up-lost auditing "healthcheck" "hello" none []

unlocking : Turns bare (Unit {0}) up accepted
unlocking = later start (accepts 7)

Turns-unlocked_example :
    handle_message bare (request "unlock") 7 accepted
    ≡ returned tt (
        replied bare
          (request "unlock")
          7
          (reply (ok_payload (code_accepted "ok" "unlock code 1234 accepted")))
          accepted)
unfolding unmarshal decode_system_code to_lower start_up new_daemon ensure_dirs write_pid
    listener_error come_up start_auditor scan_patches load_first_model load_wide_model
    start_idle_timer broadcast spawn_core_bridges
Turns-unlocked_example =
    Turns-unlocked bare up accepted up-lost unlocking (request "unlock") 7
      (record { code = "unlock"; origin = "cli"; unlock_code = "1234" }) (λ e. cc) refl refl refl
      refl (λ e. cc)

-- The listener has been closed, and then the audit runs and a signal comes.
abbrev closing : Daemon
closing = record up { listener_closed = true }

abbrev closing_audited : Daemon
closing_audited = left (audit_tick bare closing)

Turns-closed_example : (closing_audited.commands ≡ []) × (closing_audited.listener_closed ≡ true)
unfolding start_up new_daemon ensure_dirs write_pid listener_error come_up start_auditor
    scan_patches load_first_model load_wide_model start_idle_timer broadcast spawn_core_bridges
Turns-closed_example = Turns-closed bare closing closing_audited refl (later start ticks)

-- A shutdown for a reset finds a client, and then a signal comes.
abbrev visited : Daemon
visited = daemon_with ready_raw shell

abbrev stuck : Daemon
stuck = left (shutdown bare "reset_code" visited)

abbrev signalled_once : Daemon
signalled_once = left (main_loop bare signal_received stuck)

shutdown-never_powers_example :
    IsStuck [] (shutdown bare "reset_code" visited) × (signalled_once.commands ≡ [])
shutdown-never_powers_example =
    shutdown-never_powers bare "reset_code" visited signalled_once refl refl (inl (refl, λ e. cc))
      (later start (signalled tt))
