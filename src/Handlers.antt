-- ===== src/Handlers.antt =====
-- internal/daemon/handlers.go: the handlers of the messages. A message is an envelope whose payload
-- is the text of a document.
pub mod Codes
pub mod Loop
pub mod Prompt
pub mod Dispatch
pub mod Replying
pub mod Moving
use cognitiveosd.Prelude.{
  ℕ, suc, String, ◌++◌, Bool, true, false, not, ◌&&◌, ◌||◌, Option, none, some, List, [], ◌∷◌, ◌==◌,
  length, if◌then◌else◌,
}
use cognitiveosd.Prelude.FilePath.{path_join}
use cognitiveosd.Prelude.Opt
use cognitiveosd.Prelude.Result.{Result, ok, err}
use cognitiveosd.Prelude.Text.{decimal}
use cognitiveosd.Audit.{collect}
use cognitiveosd.Json.{Json}
use cognitiveosd.Mcp
use cognitiveosd.Protocol.{
  Envelope, InputContext, InputPayload, McpRegisterPayload, McpTool, TunePayload, Data, no_data,
  entry, mcp_registered, wide_model_loaded, wide_model_unloaded, status_response, audit_report,
  WideModelStatus,
}
use cognitiveosd.Protocol.Decoding.{
  decode_input, decode_load, decode_reason, decode_register, decode_result, decode_tune,
}
use cognitiveosd.Protocol.Env.{Env, Stat, missing}
use cognitiveosd.Registry.{patch_count, routing_hints}
use cognitiveosd.Registry.Manifest.{decode_training_tool}
use cognitiveosd.Wide.{Wide, load, unload, loaded_model_id, loaded_model_name}
use cognitiveosd.Daemon.{
  Daemon, State, Task, process, tune, listening, processing, state_text, Outcome, returned, Run,
  Action, ◌>>=◌, ◌>>◌, continue, skip, set_state, now, unix_nano, send_error, send_ok, on_wide,
}
use cognitiveosd.Daemon.Shutdown.{unload_wide}

-- A message as it comes from a client.
abbrev pub Request : Type 0
Request = Envelope String

-- `json.Unmarshal` of a text into a handler's struct; `none` is its error.
unfoldable pub unmarshal {ℓ} : {A : Type ℓ} → Env → (Json → Option A) → String → Option A
unmarshal env decode text = Opt.◌>>=◌ (env.parse_json text) decode

module _ (env : Env) where
  -- A handler behind `json.Unmarshal` of its payload, whose error it answers.
  unfoldable pub on_payload {ℓ} : {A : Type ℓ} → Request → ℕ → (A → Action) → Option A → Action
  on_payload req c k none =
      send_error env req c "E_INVALID_PAYLOAD" (env.json_error req.type req.payload)
  on_payload req c k (some p) = k p

  abbrev pub with_payload {ℓ} :
      {A : Type ℓ} → Request → ℕ → (Json → Option A) → (A → Action) → Action
  with_payload req c decode k = on_payload req c k (unmarshal env decode req.payload)

  -- A goroutine that the handler starts.
  abbrev pub spawn : Task → Action
  spawn t d = returned tt (record d { tasks = t ∷ d.tasks })

  abbrev session_in : Option InputContext → String
  session_in none = ""
  session_in (some x) = x.session_id

  abbrev session_of : String → Run String
  session_of given =
      if given == ""
      then (do n ← unix_nano env; λ d. returned ("sess_" ++ decimal n) d)
      else (λ d. returned given d)

  input_forward : Request → ℕ → InputPayload → Action
  input_forward req c p =
      if p.content == ""
      then send_error env req c "E_INVALID_PAYLOAD" "content is required"
      else (do
        set_state processing
        send_ok env req c no_data
        s ← session_of (session_in p.context)
        spawn (process p.content s req.from))

  -- `handleInputForward`
  unfoldable pub handle_input_forward : Request → ℕ → Action
  unfolding input_forward
  handle_input_forward req c = with_payload req c decode_input (input_forward req c)

  abbrev names_of : List McpTool → List String
  names_of [] = []
  names_of (t ∷ ts) = t.name ∷ names_of ts

  abbrev register : String → List McpTool → ℕ → Action
  register name tools c d = returned tt (record d { mcp = Mcp.register name tools c d.mcp })

  mcp_register : Request → ℕ → McpRegisterPayload → Action
  mcp_register req c p =
      if p.server.name == ""
      then send_error env req c "E_INVALID_PAYLOAD" "server name is required"
      else (do
        register p.server.name p.tools c
        send_ok env req c (mcp_registered "ok" p.server.name (names_of p.tools)))

  -- `handleMCPRegister`
  unfoldable pub handle_mcp_register : Request → ℕ → Action
  unfolding mcp_register
  handle_mcp_register req c = with_payload req c decode_register (mcp_register req c)

  abbrev unregister : String → Action
  unregister name d = returned tt (record d { mcp = Mcp.unregister name d.mcp })

  mcp_unregister : Request → ℕ → String → Action
  mcp_unregister req c reason =
      if req.from == ""
      then send_error env req c "E_INVALID_PAYLOAD" "from field is required"
      else (do unregister req.from; send_ok env req c (entry "server_id" req.from))

  -- `handleMCPUnregister`
  unfoldable pub handle_mcp_unregister : Request → ℕ → Action
  unfolding mcp_unregister
  handle_mcp_unregister req c = with_payload req c decode_reason (mcp_unregister req c)

  -- `handleMCPResult`: a result is logged, and has no reply.
  unfoldable pub handle_mcp_result : Request → ℕ → Action
  handle_mcp_result req c = with_payload req c decode_result (λ p. skip)

  -- `handleAuditRequest`; its timestamp is a reading of the clock of its own.
  unfoldable pub handle_audit_request : Request → ℕ → Action
  handle_audit_request req c = do
    t ← now env
    λ d. send_ok env req c (audit_report t (collect env d.config)) d

  abbrev wide_status : State → Wide → WideModelStatus
  wide_status s w =
      if w.loaded
      then record { status = "loaded"; name = loaded_model_name w; model_id = loaded_model_id w }
      else record {
        status = elim s [ processing ↦ "loading" | listening ↦ "loading" | _ ↦ "unloaded" ];
        name = "";
        model_id = "";
      }

  -- `handleStatusRequest`; the uptime is read off the clock.
  unfoldable pub handle_status_request : Request → ℕ → Action
  handle_status_request req c d =
      send_ok env req c
        (status_response (record {
          state = state_text d.state;
          uptime_seconds = env.uptime d.clock;
          wide_model = wide_status d.state d.wide;
          model_registry = length (routing_hints d.registry);
          patches_installed = patch_count env d.config.patch_dir;
          mcp_servers_active = Mcp.active_count d.mcp;
        }))
        (record d { clock = suc d.clock })

  abbrev is_missing : Stat → Bool
  is_missing missing = true
  is_missing _ = false

  load_wide : String → Run (Option String)
  load_wide path d = on_wide (load env d.config.inference_url path) d

  loaded_reply : Request → ℕ → Option String → Action
  loaded_reply req c (some e) = send_error env req c "E_MODEL_LOAD_FAILED" e
  loaded_reply req c none =
      λ d. send_ok env req c (wide_model_loaded "ok" (loaded_model_name d.wide)) d

  wide_model_load : Request → ℕ → String → Action
  wide_model_load req c path =
      if is_missing (env.stat path)
      then send_error env req c "E_MODEL_NOT_FOUND" path
      else (do e ← load_wide path; loaded_reply req c e)

  default_path : String → String → String
  default_path given model_dir =
      if given == "" then path_join (model_dir ∷ "wide" ∷ "active" ∷ []) else given

  -- `handleWideModelLoad`
  unfoldable pub handle_wide_model_load : Request → ℕ → Action
  unfolding wide_model_load load_wide loaded_reply default_path
  handle_wide_model_load req c =
      with_payload req c decode_load
        (λ given d. wide_model_load req c (default_path given d.config.model_dir) d)

  unloaded_reply : Request → ℕ → Option String → Action
  unloaded_reply req c (some e) = send_error env req c "E_MODEL_UNLOAD_FAILED" e
  unloaded_reply req c none = send_ok env req c (wide_model_unloaded "ok")

  wide_model_unload : Request → ℕ → String → Action
  wide_model_unload req c reason = do
    e ← unload_wide env (if reason == "" then "requested" else reason)
    unloaded_reply req c e

  -- `handleWideModelUnload`
  unfoldable pub handle_wide_model_unload : Request → ℕ → Action
  unfolding wide_model_unload unloaded_reply
  handle_wide_model_unload req c = with_payload req c decode_reason (wide_model_unload req c)

  tune_with : Request → ℕ → TunePayload → String → Action
  tune_with req c p tool =
      if tool == ""
      then send_error env req c "E_NOT_SUPPORTED" "package does not support tuning"
      else (do
        spawn (tune p.pkg tool p.epochs p.finalize p.quantize p.background)
        send_ok env req c (entry "status" "triggered"))

  tune_tool : Request → ℕ → TunePayload → String → Option String → Action
  tune_tool req c p text none =
      send_error env req c "E_INVALID_MANIFEST" (env.json_error "manifest" text)
  tune_tool req c p text (some tool) = tune_with req c p tool

  tune_manifest : Request → ℕ → TunePayload → Option String → Action
  tune_manifest req c p none = send_error env req c "E_NOT_FOUND" "package manifest not found"
  tune_manifest req c p (some text) =
      tune_tool req c p text (unmarshal env decode_training_tool text)

  tune_package : Request → ℕ → TunePayload → Action
  tune_package req c p =
      if p.pkg == ""
      then send_error env req c "E_INVALID_PAYLOAD" "package is required"
      else tune_manifest req c p
          (env.read_file (path_join ("/cognitiveos/patches" ∷ p.pkg ∷ "cognitive.json" ∷ [])))

  -- `handleCPMTune`; the manifest is looked for under /cognitiveos/patches, whatever `PatchDir` is.
  unfoldable pub handle_cpm_tune : Request → ℕ → Action
  unfolding tune_package tune_manifest tune_tool tune_with
  handle_cpm_tune req c = with_payload req c decode_tune (tune_package req c)
