-- ===== src/Startup.antt =====
-- internal/daemon/daemon.go: `New`, `Run` and the goroutines that it starts.
pub mod Moving
pub mod Patches
pub mod Ready
use mathlib.Core.List.{◌++◌ as append}
use cognitiveosd.Prelude.{
  ℕ, zero, suc, ◌*◌, ◌-◌, ◌%◌, ◌^◌, String, ◌++◌, Bool, true, false, Option, none, some, List, [],
  ◌∷◌, if◌then◌else◌,
}
use cognitiveosd.Prelude.Int.{ℤ, pos, negsuc, wrap64}
use cognitiveosd.Prelude.Result.{Result, ok, err}
use cognitiveosd.Prelude.Text.{decimal}
use cognitiveosd.Config.{Config, ensure_dirs}
use cognitiveosd.Mcp
use cognitiveosd.Mcp.{Panic}
use cognitiveosd.Mcp.Process.{spawn_core_bridges}
use cognitiveosd.Protocol.{OutputPayload, output}
use cognitiveosd.Protocol.Env.{DirEntry, Env}
use cognitiveosd.Raw
use cognitiveosd.Raw.{connect}
use cognitiveosd.Registry.{build_model_registry}
use cognitiveosd.Registry.Models.{load_wide_model}
use cognitiveosd.Socket.{listener_error}
use cognitiveosd.Wide
use cognitiveosd.Daemon.{
  Action, Daemon, Run, State, idle, continue, new_envelope, on_raw, panicked, returned, skip, ◌>>◌,
  ◌>>=◌,
}
use cognitiveosd.Daemon.Clients.{broadcast}
use cognitiveosd.Daemon.Idle.{start_idle_timer}
use cognitiveosd.Daemon.Shutdown.{shutdown}
use cognitiveosd.Socket.{new_client_conn}
use Patches.{patch_spawns}

-- `New`; the parts that `Run` makes are there from the start, as `Run` makes them.
unfoldable pub new_daemon : Config → Daemon
unfolding Mcp.new Wide.new Raw.new
new_daemon cfg = record {
  config = cfg;
  state = idle;
  mcp = Mcp.new;
  wide = Wide.new;
  raw = Raw.new;
  registry = [];
  clients = [];
  conns = λ c. new_client_conn;
  sent = [];
  tasks = [];
  signals = [];
  commands = [];
  saved = [];
  pid_file = false;
  last_request = 0;
  idle_timer = false;
  listener_closed = false;
  auditor_stopped = false;
  clock = 0;
  drawn = 0;
}

-- `time.Duration(n) * time.Second`
abbrev pub seconds : ℤ → ℤ
seconds (pos n) = wrap64 (n * 1000000000)
seconds (negsuc n) = wrap64 (2 ^ 64 - (suc n * 1000000000) % 2 ^ 64)

abbrev pub is_positive : ℤ → Bool
is_positive (pos zero) = false
is_positive (pos (suc n)) = true
is_positive (negsuc n) = false

module _ (env : Env) where
  wrote_pid : Option String → Action
  wrote_pid (some e) = skip
  wrote_pid none = λ d. returned tt (record d {
    saved = (d.config.pid_file_path, decimal env.pid ++ "\n") ∷ d.saved;
    pid_file = true;
  })

  -- `writePid`; its error is printed.
  unfoldable pub write_pid : Action
  unfolding wrote_pid
  write_pid d = wrote_pid (env.write_file d.config.pid_file_path (decimal env.pid ++ "\n")) d

  unfoldable pub remove_pid : Action
  remove_pid d = returned tt (record d { pid_file = false })

  -- `Auditor.Start`: a ticker of an interval that is not positive panics, here as soon as its
  -- goroutine is started.
  unfoldable pub start_auditor : Action
  start_auditor d =
      if is_positive (seconds d.config.audit_interval)
      then returned tt d
      else panicked Panic.no_ticker d

  abbrev connect_raw : Run (Option String)
  connect_raw d = on_raw (connect env) d

  abbrev start_bridges : Action
  start_bridges d = returned tt (record d { mcp = spawn_core_bridges env d.config d.mcp })

  scanned : Result (List DirEntry) → Action
  scanned (err e) = skip
  scanned (ok es) = λ d. returned tt (record d {
    registry = build_model_registry env d.config.patch_dir;
    mcp = record d.mcp { spawning = append (patch_spawns env d.config.patch_dir) d.mcp.spawning };
  })

  -- `scanPatches`
  unfoldable pub scan_patches : Action
  unfolding scanned
  scan_patches d = scanned (env.read_dir d.config.patch_dir) d

  -- `loadWideModel`, whose error is logged
  unfoldable pub load_first_model : Action
  load_first_model d =
      let (r, w, e) = load_wide_model env d.config d.registry d.raw d.wide in
      returned tt (record d { raw = r; wide = w })

  abbrev ready_notice : OutputPayload
  ready_notice = record {
    session_id = "system";
    content = "CognitiveOS ready";
    content_type = "text";
  }

  announce : Action
  announce = do
    e ← new_envelope env "output_deliver" "cognitiveosd" (output ready_notice)
    broadcast e

  -- `Run` behind its listener, up to its loop. The first audit is only logged.
  unfoldable pub come_up : Action
  unfolding announce
  come_up = do
    connect_raw
    start_auditor
    start_bridges
    scan_patches
    load_first_model
    start_idle_timer env
    announce

  with_listener : Option String → Run (Option String)
  with_listener (some e) = do remove_pid; λ d. returned (some ("socket: " ++ e)) d
  with_listener none = do come_up; λ d. returned none d

  with_dirs : Option String → Run (Option String)
  with_dirs (some e) d = returned (some ("ensure dirs: " ++ e)) d
  with_dirs none d =
      (do write_pid; with_listener (listener_error (env.listen_unix d.config.socket_path))) d

  -- `Run` up to its loop, by the error with which it ends before that.
  unfoldable pub start_up : Run (Option String)
  unfolding with_dirs with_listener
  start_up d = with_dirs (ensure_dirs env.mkdir_all d.config) d

-- What the loop of `Run` waits for.
pub data Wake : Type 0 where
  signal_received done_closed : Wake

-- The loop of `Run`, behind which the file with the process's number is removed.
unfoldable pub main_loop : Env → Wake → Action
main_loop env signal_received = do shutdown env "signal"; remove_pid env
main_loop env done_closed = remove_pid env
