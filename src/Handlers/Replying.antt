-- ===== src/Handlers/Replying.antt =====
-- internal/daemon/handlers.go: the handlers reply once, on every branch.
use cognitiveosd.Prelude.{
  ℕ, suc, String, ◌≡◌, refl, ◌⊎◌, Bool, true, false, Option, none, some, List, [], ◌∷◌, ◌++◌, ◌==◌,
  Bool-cases, inl, inr, if◌then◌else◌,
}
use cognitiveosd.Protocol.{Body, Data, Envelope, InputPayload, TunePayload, no_data, response_type}
use cognitiveosd.Mcp
use cognitiveosd.Wide.{load, unload}
use cognitiveosd.Protocol.Env.{Env}
use cognitiveosd.Daemon.{
  Action, Daemon, process, tune, Outcome, returned, panicked, deadlocked, answer_to, continue,
  processing, send_error, send_ok, ◌>>=◌,
}
use cognitiveosd.Daemon.Delivery.{send_error_lem, send_ok_lem, written}
use cognitiveosd.Daemon.Shutdown.{unload_wide}
use cognitiveosd.Handlers.{
  Request, default_path, handle_audit_request, handle_cpm_tune, handle_input_forward,
  handle_mcp_register, handle_mcp_unregister, handle_status_request, handle_wide_model_load,
  handle_wide_model_unload, input_forward, is_missing, load_wide, loaded_reply, mcp_register,
  mcp_unregister, on_payload, session_of, session_in, spawn, tune_manifest, tune_package, tune_tool,
  tune_with, unloaded_reply, wide_model_load, wide_model_unload,
}

-- What a handler leaves alone: the connections and their table, the commands, the listener and the
-- auditor; the state is as it was, or that of a prompt under way.
abbrev pub Untouched : Daemon → Daemon → Type 0
Untouched d d' =
    (d'.clients ≡ d.clients)
    × (d'.conns ≡ d.conns)
    × (d'.commands ≡ d.commands)
    × (d'.listener_closed ≡ d.listener_closed)
    × (d'.auditor_stopped ≡ d.auditor_stopped)
    × ((d'.state ≡ d.state) ⊎ (d'.state ≡ processing))

-- The type of the answer to each type of request; to any other type it is the type and `_response`.
abbrev pub answer_types : List (String × String)
answer_types =
    ("input_forward", "input_accepted")
    ∷ ("system_code", "code_accepted")
    ∷ ("mcp_register", "mcp_registered")
    ∷ ("mcp_unregister", "mcp_unregistered")
    ∷ ("audit_request", "audit_report")
    ∷ ("status_request", "status_response")
    ∷ ("wide_model_load", "wide_model_loaded")
    ∷ ("wide_model_unload", "wide_model_unloaded")
    ∷ []

abbrev pub type_in : List (String × String) → String → String
type_in [] t = t ++ "_response"
type_in ((asked, answered) ∷ l) t = if t == asked then answered else type_in l t

-- An answer to the request: its type is that of the table, and it names the request and the daemon.
pub record IsAnswerTo (req : Request) (e : Envelope Body) : Type 0 where
  pub type : e.type ≡ type_in answer_types req.type
  pub id : e.id ≡ req.id
  pub from : e.from ≡ "cognitiveosd"

pub answer_to-IsAnswerTo :
    (req : Request) (time : String) (body : Body) → IsAnswerTo req (answer_to req time body)
unfolding response_type
answer_to-IsAnswerTo req time body = record { type = refl; id = refl; from = refl }

-- The action has returned, and has sent one message: to the connection, under the identifier of the
-- request and the type of its response. It is written unless the connection is closed or its peer
-- has gone.
abbrev pub OneReply : Request → ℕ → Daemon → Outcome (Unit {0}) → Type 0
OneReply req c d (returned u d') =
    (time : String) × (body : Body) × (d'.sent ≡ written d c (answer_to req time body))
    × Untouched d d'
OneReply req c d (panicked p d') = ⊥
OneReply req c d (deadlocked d') = ⊥

pub Untouched-refl : (d : Daemon) → Untouched d d
Untouched-refl d = (refl, refl, refl, refl, refl, inl refl)

pub if-OneReply :
    (req : Request) (c : ℕ) (b : Bool) (x y : Action) (d d' : Daemon)
    → (b ≡ true → OneReply req c d (x d'))
    → (b ≡ false → OneReply req c d (y d'))
    → OneReply req c d ((if b then x else y) d')
if-OneReply req c true x y d d' h k = h refl
if-OneReply req c false x y d d' h k = k refl

module _ (env : Env) (req : Request) (c : ℕ) where
  pub error-OneReply :
      (code message : String) (d : Daemon) → OneReply req c d (send_error env req c code message d)
  error-OneReply code message d =
      rw (send_error_lem env req c code message d) (_, _, refl, Untouched-refl d)

  ok-OneReply : (content : Data) (d : Daemon) → OneReply req c d (send_ok env req c content d)
  ok-OneReply content d = rw (send_ok_lem env req c content d) (_, _, refl, Untouched-refl d)

  payload-OneReply {ℓ} :
      {A : Type ℓ} (k : A → Action) (o : Option A) (d : Daemon)
      → ((p : A) → OneReply req c d (k p d))
      → OneReply req c d (on_payload env req c k o d)
  unfolding on_payload
  payload-OneReply k none d h = error-OneReply _ _ d
  payload-OneReply k (some p) d h = h p

  session-OneReply :
      (p : InputPayload) (given : String) (d : Daemon)
      → OneReply req c d (
          continue
            (send_ok env req c no_data (record d { state = processing }))
            (λ u. session_of env given >>= λ s. spawn env (process p.content s req.from)))
  session-OneReply p given d =
      rw (send_ok_lem env req c no_data (record d { state = processing }))
        (elim (Bool-cases (given == "")) [
          | inl y ↦ rw y (_, _, refl, (refl, refl, refl, refl, refl, inr refl))
          | inr n ↦ rw n (_, _, refl, (refl, refl, refl, refl, refl, inr refl))
        ])

  pub input_forward-OneReply : (d : Daemon) → OneReply req c d (handle_input_forward env req c d)
  unfolding handle_input_forward input_forward
  input_forward-OneReply d = payload-OneReply (input_forward env req c) _ d (λ p.
      if-OneReply req c (p.content == "") _ _ d d (λ y. error-OneReply _ _ d)
        (λ n. session-OneReply p (session_in env p.context) d))

  pub mcp_register-OneReply : (d : Daemon) → OneReply req c d (handle_mcp_register env req c d)
  unfolding handle_mcp_register mcp_register
  mcp_register-OneReply d = payload-OneReply (mcp_register env req c) _ d (λ p.
      if-OneReply req c (p.server.name == "") _ _ d d (λ y. error-OneReply _ _ d)
        (λ n. ok-OneReply _ (record d { mcp = Mcp.register p.server.name p.tools c d.mcp })))

  pub mcp_unregister-OneReply : (d : Daemon) → OneReply req c d (handle_mcp_unregister env req c d)
  unfolding handle_mcp_unregister mcp_unregister
  mcp_unregister-OneReply d = payload-OneReply (mcp_unregister env req c) _ d (λ p.
      if-OneReply req c (req.from == "") _ _ d d (λ y. error-OneReply _ _ d)
        (λ n. ok-OneReply _ (record d { mcp = Mcp.unregister req.from d.mcp })))

  pub audit_request-OneReply : (d : Daemon) → OneReply req c d (handle_audit_request env req c d)
  unfolding handle_audit_request
  audit_request-OneReply d = ok-OneReply _ (record d { clock = suc d.clock })

  pub status_request-OneReply : (d : Daemon) → OneReply req c d (handle_status_request env req c d)
  unfolding handle_status_request
  status_request-OneReply d = ok-OneReply _ (record d { clock = suc d.clock })

  loaded-OneReply : (e : Option String) (d : Daemon) → OneReply req c d (loaded_reply env req c e d)
  unfolding loaded_reply
  loaded-OneReply none d = ok-OneReply _ d
  loaded-OneReply (some e) d = error-OneReply _ _ d

  pub wide_model_load-OneReply :
      (d : Daemon) → OneReply req c d (handle_wide_model_load env req c d)
  unfolding handle_wide_model_load wide_model_load load_wide
  wide_model_load-OneReply d =
      payload-OneReply
        (λ given d'. wide_model_load env req c (default_path env given d'.config.model_dir) d') _ d
        (λ given.
          if-OneReply req c (is_missing env (env.stat (default_path env given d.config.model_dir)))
            _ _ d d (λ y. error-OneReply _ _ d)
            (λ n. loaded-OneReply _ (record d {
              wide =
                  (load env d.config.inference_url (default_path env given d.config.model_dir)
                    d.wide).0;
            })))

  unloaded-OneReply :
      (e : Option String) (d : Daemon) → OneReply req c d (unloaded_reply env req c e d)
  unfolding unloaded_reply
  unloaded-OneReply none d = ok-OneReply _ d
  unloaded-OneReply (some e) d = error-OneReply _ _ d

  pub wide_model_unload-OneReply :
      (d : Daemon) → OneReply req c d (handle_wide_model_unload env req c d)
  unfolding handle_wide_model_unload wide_model_unload unload_wide
  wide_model_unload-OneReply d = payload-OneReply (wide_model_unload env req c) _ d (λ reason.
      unloaded-OneReply _ (record d {
        wide =
            (unload env d.config.inference_url (if reason == "" then "requested" else reason)
              d.wide).0;
      }))

  tune_with-OneReply :
      (p : TunePayload) (tool : String) (d : Daemon)
      → OneReply req c d (tune_with env req c p tool d)
  unfolding tune_with
  tune_with-OneReply p tool d =
      if-OneReply req c (tool == "") _ _ d d (λ y. error-OneReply _ _ d)
        (λ n. ok-OneReply _ (record d {
          tasks = tune p.pkg tool p.epochs p.finalize p.quantize p.background ∷ d.tasks;
        }))

  tune_tool-OneReply :
      (p : TunePayload) (text : String) (t : Option String) (d : Daemon)
      → OneReply req c d (tune_tool env req c p text t d)
  unfolding tune_tool
  tune_tool-OneReply p text none d = error-OneReply _ _ d
  tune_tool-OneReply p text (some tool) d = tune_with-OneReply p tool d

  tune_manifest-OneReply :
      (p : TunePayload) (t : Option String) (d : Daemon)
      → OneReply req c d (tune_manifest env req c p t d)
  unfolding tune_manifest
  tune_manifest-OneReply p none d = error-OneReply _ _ d
  tune_manifest-OneReply p (some text) d = tune_tool-OneReply p text _ d

  pub cpm_tune-OneReply : (d : Daemon) → OneReply req c d (handle_cpm_tune env req c d)
  unfolding handle_cpm_tune tune_package
  cpm_tune-OneReply d = payload-OneReply (tune_package env req c) _ d (λ p.
      if-OneReply req c (p.pkg == "") _ _ d d (λ y. error-OneReply _ _ d)
        (λ n. tune_manifest-OneReply p _ d))
