-- ===== src/Daemon/Reports.antt =====
-- internal/daemon/audit.go: a round of the audit loop, which saves a report and sends it to the
-- clients.
pub mod Moving
use cognitiveosd.Prelude.{String, Option, none, some, [], ◌∷◌}
use cognitiveosd.Prelude.FilePath.{path_join}
use cognitiveosd.Audit.{collect}
use cognitiveosd.Prelude.Result.{Result, ok, err}
use cognitiveosd.Config.{Config}
use cognitiveosd.Protocol.{audit_notice}
use cognitiveosd.Protocol.Env.{Env}
use cognitiveosd.Protocol.Resources.{AuditResources}
use cognitiveosd.Daemon.{Action, new_envelope, now, returned, skip, ◌>>◌, ◌>>=◌}
use cognitiveosd.Daemon.Clients.{broadcast}

abbrev pub report_path : Config → String
report_path cfg = path_join (cfg.audit_dir ∷ "current.json" ∷ [])

write_report : Option String → String → String → Action
write_report (some e) path text = skip
write_report none path text = λ d. returned tt (record d { saved = (path, text) ∷ d.saved })

write_encoded : Env → Result String → Action
write_encoded env (err e) = skip
write_encoded env (ok text) =
    λ d. write_report (env.write_file (report_path d.config) text) (report_path d.config) text d

save_in : Env → AuditResources → Option String → Action
save_in env r (some e) = skip
save_in env r none = do t ← now env; write_encoded env (env.encode_report t r)

-- `saveReport`: its errors are logged.
unfoldable pub save_report : Env → AuditResources → Action
unfolding save_in write_encoded write_report
save_report env r d = save_in env r (env.mkdir_all d.config.audit_dir) d

-- `broadcastReport`
unfoldable pub broadcast_report : Env → AuditResources → Action
broadcast_report env r = do
  t ← now env
  e ← new_envelope env "audit_report" "cognitiveosd" (audit_notice t r)
  broadcast e

-- What the loop of `Start` does when its ticker ticks.
unfoldable pub audit_tick : Env → Action
unfolding save_report broadcast_report
audit_tick env d =
    (do save_report env (collect env d.config); broadcast_report env (collect env d.config)) d
