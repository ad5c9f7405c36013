-- ===== src/Startup/Moving.antt =====
-- internal/daemon/daemon.go: what `Run` does to the daemon's parts before its loop.
use mathlib.Core.Path.{subst}
use cognitiveosd.Prelude.{suc, String, ◌≡◌, refl, true, Option, none, some, List}
use cognitiveosd.Prelude.Result.{Result, ok, err}
use cognitiveosd.Config.{Config, ensure_dirs}
use cognitiveosd.Mcp.{Panic}
use cognitiveosd.Mcp.Process.Managed.{Managed}
use cognitiveosd.Mcp.Process.Steps.{Step}
use cognitiveosd.Protocol.{output}
use cognitiveosd.Protocol.Env.{DirEntry, Env}
use cognitiveosd.Protocol.Uuid.{uuid}
use cognitiveosd.Raw
use cognitiveosd.Raw.{connect}
use cognitiveosd.Registry.Models.Moving.{load_wide_model-Loads}
use cognitiveosd.Daemon.{Daemon, Outcome, continue, panicked, returned, deadlocked}
use cognitiveosd.Daemon.Evolution.{
  Permits, Core, Evolves, Moves, clients-Evolves, continue-Moves, core, either-Moves, mcp-Evolves,
  panicked-Moves, returned-Moves,
}
use cognitiveosd.Daemon.Evolution.Sending.{broadcast-Moves}
use cognitiveosd.Daemon.Idle.{start_idle_timer}
use cognitiveosd.Startup.{
  announce, come_up, is_positive, load_first_model, new_daemon, ready_notice, scan_patches, scanned,
  start_auditor, start_bridges, remove_pid, seconds, start_up, write_pid, with_dirs, with_listener,
  wrote_pid,
}
use cognitiveosd.Startup.Patches.{patch_spawns}

-- The parts of a daemon that has only tried to connect its raw model.
abbrev pub connected : Env → Config → Core
connected env cfg = record (core (new_daemon cfg)) { raw = (connect env Raw.new).0 }

-- Of a start that comes to the loop, what it has done to the parts.
abbrev Came : Env → Permits → Config → Outcome (Option String) → Type 0
Came env May cfg (returned none d) = Evolves env May (connected env cfg) (core d)
Came env May cfg (returned (some e) d) = Unit {0}
Came env May cfg (panicked p d) = Unit {0}
Came env May cfg (deadlocked d) = Unit {0}

module _ (env : Env) (May : Permits) where
  auditor-Moves : (d : Daemon) → Moves env May (core d) (start_auditor env d)
  unfolding start_auditor
  auditor-Moves d =
      either-Moves env May (core d) (is_positive (seconds d.config.audit_interval)) _ _
        (returned-Moves env May tt d) (panicked-Moves env May (Unit {0}) Panic.no_ticker d)

  bridges-Moves : (d : Daemon) → Moves env May (core d) (start_bridges env d)
  bridges-Moves d = record {
    at = mcp-Evolves env May (core d) _ (Managed.runs Managed.nothing Step.bridges);
  }

  scanned-Moves :
      (r : Result (List DirEntry)) (d : Daemon) → Moves env May (core d) (scanned env r d)
  unfolding scanned
  scanned-Moves (err e) d = returned-Moves env May tt d
  scanned-Moves (ok es) d = record {
    at =
        mcp-Evolves env May (core d) _
          (Managed.queues Managed.nothing (patch_spawns env d.config.patch_dir));
  }

  first_model-Moves : (d : Daemon) → Moves env May (core d) (load_first_model env d)
  unfolding load_first_model
  first_model-Moves d =
      let loads =
        load_wide_model-Loads env May.shutdown May.generate d.config d.registry d.raw d.wide in
      record { at = clients-Evolves env May (core d) _ _ loads.0 loads.1 }

  announce-Moves : (d : Daemon) → Moves env May (core d) (announce env d)
  unfolding announce
  announce-Moves d =
      broadcast-Moves env May
        (record {
          type = "output_deliver";
          id = uuid env d.drawn;
          timestamp = env.rfc3339 d.clock;
          from = "cognitiveosd";
          payload = output (ready_notice env);
        })
        (record d { clock = suc d.clock; drawn = suc d.drawn }) refl

  -- Behind the connecting.
  come_up-Moves :
      (d : Daemon) → Moves env May (record (core d) { raw = (connect env d.raw).0 }) (come_up env d)
  unfolding come_up scan_patches start_idle_timer
  come_up-Moves d =
      let d1 : Daemon = record d { raw = (connect env d.raw).0 } in
      continue-Moves env May (core d1) (start_auditor env d1) _ (auditor-Moves d1) (λ u d2.
        continue-Moves env May (core d2) (start_bridges env d2) _ (bridges-Moves d2) (λ u' d3.
          continue-Moves env May (core d3) (scanned env (env.read_dir d3.config.patch_dir) d3) _
            (scanned-Moves _ d3)
            (λ u'' d4.
              continue-Moves env May (core d4) (load_first_model env d4) _ (first_model-Moves d4)
                (λ v d5. announce-Moves (record d5 {
                  last_request = env.unix_nano d5.clock;
                  clock = suc d5.clock;
                  idle_timer = true;
                })))))

  module _ (cfg : Config) where
    looped-Came :
        (o : Outcome (Unit {0}))
        → Moves env May (connected env cfg) o
        → Came env May cfg (continue o (λ _ d. returned none d))
    looped-Came (returned u d) h = h.at
    looped-Came (panicked p d) h = tt
    looped-Came (deadlocked d) h = tt

    listener-Came :
        (e : Option String) (d : Daemon)
        → core d ≡ core (new_daemon cfg)
        → Came env May cfg (with_listener env e d)
    unfolding with_listener remove_pid Raw.new new_daemon
    listener-Came (some e) d same = tt
    listener-Came none d same = looped-Came (come_up env d) (
        subst
          (λ (k : Core). Moves env May (record k { raw = (connect env k.raw).0 }) (come_up env d))
          same (come_up-Moves d))

    pid-Came :
        (written e : Option String)
        → Came env May cfg
            (continue (wrote_pid env written (new_daemon cfg)) (λ _. with_listener env e))
    unfolding wrote_pid new_daemon
    pid-Came (some p) e = listener-Came e (new_daemon cfg) refl
    pid-Came none e = listener-Came e _ refl

    dirs-Came : (e : Option String) → Came env May cfg (with_dirs env e (new_daemon cfg))
    unfolding with_dirs write_pid new_daemon
    dirs-Came (some e) = tt
    dirs-Came none = pid-Came _ _

  -- A daemon in its loop.
  pub start_up-Evolves :
      (cfg : Config) (d : Daemon)
      → start_up env (new_daemon cfg) ≡ returned none d
      → Evolves env May (connected env cfg) (core d)
  unfolding start_up new_daemon
  start_up-Evolves cfg d e =
      subst (Came env May cfg) e (dirs-Came cfg (ensure_dirs env.mkdir_all cfg))
