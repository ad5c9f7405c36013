-- ===== src/Handlers/Moving.antt =====
-- internal/daemon/handlers.go: the handlers of the messages that are no system codes.
use cognitiveosd.Prelude.{ℕ, suc, String, Option, none, some, ◌∷◌, ◌==◌}
use cognitiveosd.Mcp
use cognitiveosd.Mcp.Process.Managed.{Managed}
use cognitiveosd.Protocol.{InputPayload, TunePayload}
use cognitiveosd.Protocol.Env.{Env}
use cognitiveosd.Wide.{load}
use cognitiveosd.Wide.Driven.{load-Driven}
use cognitiveosd.Daemon.{Daemon, process, tune, processing, Action, ◌>>=◌}
use cognitiveosd.Daemon.Shutdown.{unload_wide}
use cognitiveosd.Daemon.Evolution.Closing.{unload_wide-Moves}
use cognitiveosd.Daemon.Evolution.Sending.{error-Moves, ok-Moves}
use cognitiveosd.Daemon.Evolution.{
  Permits, Moves, continue-Moves, core, if-Moves, mcp-Evolves, wide-Evolves, first-Moves,
  returned-Moves,
}
use cognitiveosd.Handlers.{
  Request, default_path, handle_audit_request, handle_cpm_tune, handle_input_forward,
  handle_mcp_register, handle_mcp_result, handle_mcp_unregister, handle_status_request,
  handle_wide_model_load, handle_wide_model_unload, input_forward, is_missing, load_wide,
  loaded_reply, mcp_register, mcp_unregister, on_payload, session_of, spawn, tune_manifest,
  tune_package, tune_tool, tune_with, unloaded_reply, wide_model_load, wide_model_unload,
}

module _ (env : Env) (May : Permits) (req : Request) (c : ℕ) where
  pub payload-Moves {ℓ} :
      {A : Type ℓ} (k : A → Action) (o : Option A) (d : Daemon)
      → ((p : A) → Moves env May (core d) (k p d))
      → Moves env May (core d) (on_payload env req c k o d)
  unfolding on_payload
  payload-Moves k none d h = error-Moves env May req c _ _ d
  payload-Moves k (some p) d h = h p

  session-Moves : (given : String) (d : Daemon) → Moves env May (core d) (session_of env given d)
  session-Moves given d =
      if-Moves env May (core d) (given == "") _ _ d
        (returned-Moves env May _ (record d { clock = suc d.clock }))
        (returned-Moves env May given d)

  forwarded-Moves :
      (p : InputPayload) (given : String) (d : Daemon)
      → Moves env May
          (core d)
          ((session_of env given >>= λ s. spawn env (process p.content s req.from)) d)
  forwarded-Moves p given d =
      continue-Moves env May (core d) (session_of env given d) _ (session-Moves given d)
        (λ s d'. returned-Moves env May tt _)

  pub input_forward-Moves : (d : Daemon) → Moves env May (core d) (handle_input_forward env req c d)
  unfolding handle_input_forward input_forward
  input_forward-Moves d = payload-Moves (input_forward env req c) _ d (λ p.
      if-Moves env May (core d) (p.content == "") _ _ d (error-Moves env May req c _ _ d) (
        continue-Moves env May (core d) _ _
          (ok-Moves env May req c _ (record d { state = processing }))
          (λ u d'. forwarded-Moves p _ d')))

  pub mcp_register-Moves : (d : Daemon) → Moves env May (core d) (handle_mcp_register env req c d)
  unfolding handle_mcp_register mcp_register
  mcp_register-Moves d = payload-Moves (mcp_register env req c) _ d (λ p.
      if-Moves env May (core d) (p.server.name == "") _ _ d (error-Moves env May req c _ _ d) (
        first-Moves env May
          (mcp-Evolves env May (core d) _
            (Managed.registers Managed.nothing p.server.name p.tools c))
          (ok-Moves env May req c _
            (record d { mcp = Mcp.register p.server.name p.tools c d.mcp }))))

  pub mcp_unregister-Moves :
      (d : Daemon) → Moves env May (core d) (handle_mcp_unregister env req c d)
  unfolding handle_mcp_unregister mcp_unregister
  mcp_unregister-Moves d = payload-Moves (mcp_unregister env req c) _ d (λ p.
      if-Moves env May (core d) (req.from == "") _ _ d (error-Moves env May req c _ _ d) (
        first-Moves env May
          (mcp-Evolves env May (core d) _ (Managed.unregisters Managed.nothing req.from))
          (ok-Moves env May req c _ (record d { mcp = Mcp.unregister req.from d.mcp }))))

  pub mcp_result-Moves : (d : Daemon) → Moves env May (core d) (handle_mcp_result env req c d)
  unfolding handle_mcp_result
  mcp_result-Moves d = payload-Moves _ _ d (λ p. returned-Moves env May tt d)

  pub audit_request-Moves : (d : Daemon) → Moves env May (core d) (handle_audit_request env req c d)
  unfolding handle_audit_request
  audit_request-Moves d = ok-Moves env May req c _ (record d { clock = suc d.clock })

  pub status_request-Moves :
      (d : Daemon) → Moves env May (core d) (handle_status_request env req c d)
  unfolding handle_status_request
  status_request-Moves d = ok-Moves env May req c _ (record d { clock = suc d.clock })

  loaded-Moves :
      (e : Option String) (d : Daemon) → Moves env May (core d) (loaded_reply env req c e d)
  unfolding loaded_reply
  loaded-Moves none d = ok-Moves env May req c _ d
  loaded-Moves (some e) d = error-Moves env May req c _ _ d

  pub wide_model_load-Moves :
      (d : Daemon) → Moves env May (core d) (handle_wide_model_load env req c d)
  unfolding handle_wide_model_load wide_model_load load_wide
  wide_model_load-Moves d =
      payload-Moves
        (λ given d'. wide_model_load env req c (default_path env given d'.config.model_dir) d') _ d
        (λ given.
          if-Moves env May (core d)
            (is_missing env (env.stat (default_path env given d.config.model_dir))) _ _ d
            (error-Moves env May req c _ _ d)
            (first-Moves env May
              (wide-Evolves env May (core d) _
                (load-Driven env May.generate d.config.inference_url _ d.wide))
              (loaded-Moves _ (record d {
                wide =
                    (load env d.config.inference_url (default_path env given d.config.model_dir)
                      d.wide).0;
              }))))

  unloaded-Moves :
      (e : Option String) (d : Daemon) → Moves env May (core d) (unloaded_reply env req c e d)
  unfolding unloaded_reply
  unloaded-Moves none d = ok-Moves env May req c _ d
  unloaded-Moves (some e) d = error-Moves env May req c _ _ d

  pub wide_model_unload-Moves :
      (d : Daemon) → Moves env May (core d) (handle_wide_model_unload env req c d)
  unfolding handle_wide_model_unload wide_model_unload
  wide_model_unload-Moves d = payload-Moves (wide_model_unload env req c) _ d (λ reason.
      continue-Moves env May (core d) (unload_wide env _ d) _ (unload_wide-Moves env May _ d)
        (λ e d'. unloaded-Moves e d'))

  tune_with-Moves :
      (p : TunePayload) (tool : String) (d : Daemon)
      → Moves env May (core d) (tune_with env req c p tool d)
  unfolding tune_with
  tune_with-Moves p tool d =
      if-Moves env May (core d) (tool == "") _ _ d (error-Moves env May req c _ _ d) (
        ok-Moves env May req c _ (record d {
          tasks = tune p.pkg tool p.epochs p.finalize p.quantize p.background ∷ d.tasks;
        }))

  tune_tool-Moves :
      (p : TunePayload) (text : String) (t : Option String) (d : Daemon)
      → Moves env May (core d) (tune_tool env req c p text t d)
  unfolding tune_tool
  tune_tool-Moves p text none d = error-Moves env May req c _ _ d
  tune_tool-Moves p text (some tool) d = tune_with-Moves p tool d

  tune_manifest-Moves :
      (p : TunePayload) (t : Option String) (d : Daemon)
      → Moves env May (core d) (tune_manifest env req c p t d)
  unfolding tune_manifest
  tune_manifest-Moves p none d = error-Moves env May req c _ _ d
  tune_manifest-Moves p (some text) d = tune_tool-Moves p text _ d

  pub cpm_tune-Moves : (d : Daemon) → Moves env May (core d) (handle_cpm_tune env req c d)
  unfolding handle_cpm_tune tune_package
  cpm_tune-Moves d = payload-Moves (tune_package env req c) _ d (λ p.
      if-Moves env May (core d) (p.pkg == "") _ _ d (error-Moves env May req c _ _ d)
        (tune_manifest-Moves p _ d))
