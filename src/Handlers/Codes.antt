-- ===== src/Handlers/Codes.antt =====
-- internal/daemon/handlers.go: `handleSystemCode`, the codes wake, idle, security, reset and unlock.
pub mod Origin
pub mod Gate
pub mod Moving
use cognitiveosd.Prelude.{
  ℕ, String, ◌++◌, Bool, true, false, ◌&&◌, ◌||◌, Option, none, some, ◌==◌, if◌then◌else◌,
}
use cognitiveosd.Prelude.Result.{Result, ok, err}
use cognitiveosd.Prelude.Text.{to_lower}
use cognitiveosd.Protocol.{SystemCodePayload, code_accepted}
use cognitiveosd.Protocol.Decoding.{decode_system_code}
use cognitiveosd.Protocol.Env.{Env}
use cognitiveosd.Raw.{Raw, is_ready}
use cognitiveosd.Raw.Requests.{check_unlock_code, validate_system_code}
use cognitiveosd.Daemon.{
  Daemon, State, listening, idle, idle_requested, security, Outcome, returned, Run, Action, ◌>>=◌,
  ◌>>◌, continue, set_state, on_raw, send_error, send_ok,
}
use cognitiveosd.Daemon.Shutdown.{shutdown, shutdown_servers, unload_wide}
use cognitiveosd.Handlers.{Request, with_payload}

-- The origins that a program can claim.
unfoldable pub is_software : String → Bool
is_software origin = origin == "keyboard" || origin == "voice" || origin == "cli"

-- The codes that want a physical trigger.
unfoldable pub needs_trigger : String → Bool
needs_trigger code = code == "security" || code == "reset"

module _ (env : Env) (req : Request) (c : ℕ) where
  accept : String → Action
  accept effect = send_ok env req c (code_accepted "ok" effect)

  wake : Action
  wake = do set_state listening; accept "waking from idle state"

  go_idle : Action
  go_idle = do
    set_state idle_requested
    unload_wide env "idle"
    shutdown_servers
    set_state idle
    accept "entering idle state"

  secure : Action
  secure = do
    set_state security
    unload_wide env "security"
    shutdown_servers
    shutdown env "security_code"
    accept "SECURITY SHUTDOWN: terminating all processes"

  reset : Action
  reset = do
    unload_wide env "reset"
    shutdown_servers
    shutdown env "reset_code"
    accept "RESET: wiping data and rebooting"

  unlock_checked : Result (String × String) → Action
  unlock_checked (err e) = send_error env req c "E_RAW_MODEL_ERROR" e
  unlock_checked (ok (status, message)) =
      if status == "accepted"
      then accept message
      else send_error env req c "E_UNLOCK_DENIED" message

  check_unlock : String → Action
  check_unlock code = do r ← on_raw (check_unlock_code env code "wide-model"); unlock_checked r

  unlock : String → Action
  unlock code =
      if code == ""
      then send_error env req c "E_INVALID_PAYLOAD" "unlock_code required for unlock code"
      else (λ d.
          (if is_ready d.raw
              then check_unlock code
              else accept ("unlock code " ++ code ++ " accepted"))
            d)

  -- The switch on the code.
  unfoldable pub run_code : String → String → Action
  unfolding wake go_idle secure reset unlock check_unlock unlock_checked accept
  run_code code unlock_code =
      if code == "wake"
      then wake
      else if code == "idle"
      then go_idle
      else if code == "security"
      then secure
      else if code == "reset"
      then reset
      else if code == "unlock"
      then unlock unlock_code
      else send_error env req c "E_INVALID_PAYLOAD" ("unknown system code: " ++ code)

  unfoldable pub validated : String → String → Result (String × String) → Action
  validated code unlock_code (err e) = send_error env req c "E_RAW_MODEL_ERROR" e
  validated code unlock_code (ok (status, action)) =
      if status == "valid"
      then run_code code unlock_code
      else send_error env req c "E_INVALID_CODE" "system code rejected by raw model"

  ask_raw : String → String → String → Action
  ask_raw code origin unlock_code = do
    r ← on_raw (validate_system_code env code origin)
    validated code unlock_code r

  -- The raw model is asked if it is ready, and passed over if it is not.
  unfoldable pub system_code : SystemCodePayload → Action
  unfolding ask_raw
  system_code p =
      let code = to_lower p.code in
      let origin = to_lower p.origin in
      if needs_trigger code && is_software origin
      then send_error env req c "E_UNAUTHORIZED" (code ++ " code requires physical trigger")
      else (λ d.
          (if is_ready d.raw
              then ask_raw code origin p.unlock_code
              else run_code code p.unlock_code)
            d)

-- `handleSystemCode`
unfoldable pub handle_system_code : Env → Request → ℕ → Action
handle_system_code env req c = with_payload env req c decode_system_code (system_code env req c)
