-- ===== src/Handlers/Prompt.antt =====
-- internal/daemon/handlers.go: `processPrompt`, the goroutine behind an input, and the goroutine that
-- `handleCPMTune` starts.
pub mod Ends
pub mod Answers
pub mod Tasks
pub mod Moving
use cognitiveosd.Prelude.{
  ℕ, String, ◌++◌, Bool, true, false, ◌&&◌, Option, none, some, List, [], ◌∷◌, ◌==◌, if◌then◌else◌,
}
use cognitiveosd.Prelude.Dict.{Dict, insert}
use cognitiveosd.Prelude.FilePath.{path_join}
use cognitiveosd.Prelude.Int.{ℤ}
use cognitiveosd.Prelude.Result.{Result, ok, err}
use cognitiveosd.Json.{Json, bool, int, str}
use cognitiveosd.Mcp.{Invoked}
use cognitiveosd.Mcp.Rpc.{invoke}
use cognitiveosd.Protocol.{Body, Envelope, OutputPayload, output, McpResultPayload}
use cognitiveosd.Protocol.Env.{Env}
use cognitiveosd.Raw.Requests.{Verdict, validate_prompt}
use cognitiveosd.Registry.{routing_hints}
use cognitiveosd.Registry.Models.{hot_swap}
use cognitiveosd.Wide.{load_adapter}
use cognitiveosd.Daemon.{
  deadlocked, Daemon, State, Task, process, tune, listening, Outcome, returned, panicked, Run,
  Action, ◌>>=◌, ◌>>◌, continue, skip, set_state, on_raw, on_wide, new_envelope,
}
use cognitiveosd.Daemon.Idle.{touch_idle_timer}
use cognitiveosd.Daemon.Clients.{send_to_client}
use cognitiveosd.Handlers.Loop.{Final, generate_text, on_mcp, tool_loop}

module _ (env : Env) (session from : String) where
  abbrev pub output_of : String → String → Body
  output_of content content_type =
      output (record { session_id = session; content = content; content_type = content_type })

  -- An `output_deliver` to the client that sent the prompt; a failure to send is logged.
  unfoldable pub deliver : String → String → Action
  deliver content content_type = do
    e ← new_envelope env "output_deliver" "cognitiveosd" (output_of content content_type)
    send_to_client from e
    skip

  unfoldable pub deliver_tools : List String → Action
  deliver_tools [] = skip
  deliver_tools (s ∷ ss) = do deliver s "tool_result"; deliver_tools ss

  -- The last message of a prompt, and the state behind it.
  unfoldable pub finish : String → Action
  finish content = do deliver content "text"; set_state listening

  unfoldable pub deliver_all : Final → Action
  deliver_all (response, tools) = do deliver_tools tools; finish response

  unfoldable pub generated : String → Result String → Action
  generated prompt (err e) = finish ("Error: " ++ e)
  generated prompt (ok response) = do r ← tool_loop env response prompt; deliver_all r

  abbrev swap : String → Run (Option String)
  swap id d = on_wide (hot_swap env d.config d.registry id) d

  -- The model is swapped if the verdict names one; an error is logged, and the prompt goes on.
  unfoldable pub answer : String → String → Action
  answer prompt model = do swap model; r ← generate_text env prompt; generated prompt r

  abbrev pub denial : String → String
  denial reason =
      if reason == "" then "Request blocked by system guardrail." else "Guardrail: " ++ reason

  abbrev pub modified : Verdict → String → String
  modified v prompt =
      if v.action == "modify"
      then (if v.modified_prompt == "" then prompt else v.modified_prompt)
      else prompt

  unfoldable pub judged : String → Result Verdict → Action
  judged prompt (err e) = finish ("Guardrail error: " ++ e)
  judged prompt (ok v) =
      if v.action == "deny" then finish (denial v.reason) else answer (modified v prompt) v.model

  ask_prompt : String → Run (Result Verdict)
  ask_prompt prompt d = on_raw (validate_prompt env prompt (routing_hints d.registry)) d

  -- `processPrompt`
  unfoldable pub process_prompt : String → Action
  unfolding ask_prompt touch_idle_timer
  process_prompt prompt = do touch_idle_timer env; r ← ask_prompt prompt; judged prompt r

-- The arguments of a tuning tool.
abbrev pub tune_args : String → ℤ → Bool → String → Bool → Dict Json
tune_args pkg epochs finalize quantize background =
    let base : Dict Json = ("package", str pkg) ∷ ("epochs", int epochs) ∷ [] in
    let last : Dict Json =
      (if finalize
        then insert "quantize" (str quantize) (insert "finalize" (bool true) base)
        else base) in
    if background then insert "background" (bool true) last else last

load_tuned : Env → String → Bool → Action
load_tuned env pkg false = skip
load_tuned env pkg true = λ d.
    (do
      on_wide (
          load_adapter env d.config.inference_url
            (path_join ("/cognitiveos/patches" ∷ pkg ∷ "weights" ∷ "user_adapter.bin" ∷ [])))
      skip)
      d

tuned : Env → String → Bool → Invoked → Action
tuned env pkg finalize (Invoked.panicked p) = λ d. panicked p d
tuned env pkg finalize Invoked.waiting = λ d. deadlocked d
tuned env pkg finalize (Invoked.returned (err e)) = skip
tuned env pkg finalize (Invoked.returned (ok r)) = load_tuned env pkg finalize

invoke_tune : Env → String → Dict Json → Run Invoked
invoke_tune env tool args d = on_mcp (invoke env (env.unix_nano d.clock) tool args) d

-- The goroutine of `handleCPMTune`: the adapter is loaded if the tool could be invoked, whatever the
-- status of its result.
unfoldable pub run_tune : Env → String → String → ℤ → Bool → String → Bool → Action
unfolding tuned load_tuned invoke_tune
run_tune env pkg tool epochs finalize quantize background = do
  r ← invoke_tune env tool (tune_args pkg epochs finalize quantize background)
  tuned env pkg finalize r

-- A goroutine that a handler started.
unfoldable pub run_task : Env → Task → Action
unfolding run_tune
run_task env (process content session from) = process_prompt env session from content
run_task env (tune pkg tool epochs finalize quantize background) =
    run_tune env pkg tool epochs finalize quantize background
