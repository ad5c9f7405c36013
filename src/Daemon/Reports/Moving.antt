-- ===== src/Daemon/Reports/Moving.antt =====
-- internal/daemon/audit.go: what a round of the audit loop does to the daemon's parts.
use cognitiveosd.Prelude.{suc, String, Option, none, some, ◌∷◌, refl}
use cognitiveosd.Prelude.Result.{Result, ok, err}
use cognitiveosd.Audit.{collect}
use cognitiveosd.Protocol.{audit_notice}
use cognitiveosd.Protocol.Env.{Env}
use cognitiveosd.Protocol.Resources.{AuditResources}
use cognitiveosd.Protocol.Uuid.{uuid}
use cognitiveosd.Daemon.{Daemon}
use cognitiveosd.Daemon.Evolution.{Permits, Moves, continue-Moves, core, returned-Moves}
use cognitiveosd.Daemon.Evolution.Sending.{broadcast-Moves}
use cognitiveosd.Daemon.Reports.{
  audit_tick, broadcast_report, report_path, save_in, save_report, write_encoded, write_report,
}

module _ (env : Env) (May : Permits) where
  write_report-Moves :
      (e : Option String) (path text : String) (d : Daemon)
      → Moves env May (core d) (write_report e path text d)
  unfolding write_report
  write_report-Moves (some e) path text d = returned-Moves env May tt d
  write_report-Moves none path text d =
      returned-Moves env May tt (record d { saved = (path, text) ∷ d.saved })

  write_encoded-Moves :
      (r : Result String) (d : Daemon) → Moves env May (core d) (write_encoded env r d)
  unfolding write_encoded
  write_encoded-Moves (err e) d = returned-Moves env May tt d
  write_encoded-Moves (ok text) d =
      write_report-Moves (env.write_file (report_path d.config) text) (report_path d.config) text d

  save_in-Moves :
      (r : AuditResources) (e : Option String) (d : Daemon)
      → Moves env May (core d) (save_in env r e d)
  unfolding save_in
  save_in-Moves r (some e) d = returned-Moves env May tt d
  save_in-Moves r none d =
      write_encoded-Moves (env.encode_report (env.rfc3339 d.clock) r)
        (record d { clock = suc d.clock })

  broadcast_report-Moves :
      (r : AuditResources) (d : Daemon) → Moves env May (core d) (broadcast_report env r d)
  unfolding broadcast_report
  broadcast_report-Moves r d =
      broadcast-Moves env May
        (record {
          type = "audit_report";
          id = uuid env d.drawn;
          timestamp = env.rfc3339 (suc d.clock);
          from = "cognitiveosd";
          payload = audit_notice (env.rfc3339 d.clock) r;
        })
        (record d { clock = suc (suc d.clock); drawn = suc d.drawn }) refl

  pub audit_tick-Moves : (d : Daemon) → Moves env May (core d) (audit_tick env d)
  unfolding audit_tick save_report
  audit_tick-Moves d =
      continue-Moves env May (core d) (save_report env (collect env d.config) d) _
        (save_in-Moves (collect env d.config) (env.mkdir_all d.config.audit_dir) d)
        (λ u d'. broadcast_report-Moves (collect env d.config) d')
