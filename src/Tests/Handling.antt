-- ===== src/Tests/Handling.antt =====
-- The handlers' theorems at work.
use cognitiveosd.Prelude.{String, ◌≡◌, refl, ◌≤◌, inl, inr, [], ◌∷◌}
use cognitiveosd.Prelude.Text.{to_lower}
use cognitiveosd.Json.{str}
use cognitiveosd.Mcp.Names.{is_tool_validated}
use cognitiveosd.Protocol.{SystemCodePayload, error_payload, reply}
use cognitiveosd.Protocol.Decoding.{decode_system_code}
use cognitiveosd.Raw.{call, is_ready}
use cognitiveosd.Raw.Requests.{validate_package, validate_prompt, validate_system_code}
use cognitiveosd.Tools.{ToolCall}
use cognitiveosd.Daemon.{Daemon, returned, left}
use cognitiveosd.Daemon.Delivery.{replied}
use cognitiveosd.Handlers.{Request, unmarshal}
use cognitiveosd.Handlers.Codes.{handle_system_code}
use cognitiveosd.Handlers.Codes.Gate.{OnlyRefused, system_code-needs_valid}
use cognitiveosd.Handlers.Codes.Origin.{system_code-unauthorized}
use cognitiveosd.Handlers.Dispatch.{handle_message}
use cognitiveosd.Handlers.Dispatch.OneReply.{Answered, handle_message-Answered}
use cognitiveosd.Handlers.Loop.{package_params, tool_loop, tool_step}
use cognitiveosd.Handlers.Loop.Approval.{IsHeld, tool_step-IsHeld}
use cognitiveosd.Handlers.Loop.Bound.{tool_loop-asked}
use cognitiveosd.Handlers.Prompt.{process_prompt}
use cognitiveosd.Handlers.Prompt.Ends.{IsListening, process_prompt-IsListening}
use cognitiveosd.Registry.{routing_hints}
use cognitiveosd.Tests.{daemon_with, no_raw, ready_raw, request, shell, willing, world}

abbrev guarded : Daemon
guarded = daemon_with ready_raw shell

abbrev unguarded : Daemon
unguarded = daemon_with no_raw shell

abbrev reset_by : String → String → SystemCodePayload
reset_by code origin = record { code = code; origin = origin; unlock_code = "" }

abbrev install : ToolCall
install = record { tool = "cognitiveos.package.install"; arguments = ("name", str "vim") ∷ [] }

system_code-needs_valid_example :
    OnlyRefused
      (request "reset by button")
      7
      guarded
      (handle_system_code (world willing) (request "reset by button") 7 guarded)
unfolding unmarshal decode_system_code is_ready validate_system_code call to_lower
system_code-needs_valid_example =
    system_code-needs_valid (world willing) (request "reset by button") 7 refl
      (reset_by "Reset" "button") guarded refl refl (λ e. cc)

system_code-unauthorized_example :
    handle_system_code (world willing) (request "reset by voice") 7 guarded
    ≡ returned tt (
        replied
          (world willing)
          (request "reset by voice")
          7
          (reply (error_payload "E_UNAUTHORIZED" "reset code requires physical trigger"))
          guarded)
unfolding unmarshal decode_system_code to_lower
system_code-unauthorized_example =
    system_code-unauthorized (world willing) (request "reset by voice") 7 (reset_by "RESET" "Voice")
      guarded refl (inr refl) (inr (inl refl))

tool_step-IsHeld_example :
    IsHeld install
      (validate_package (world willing) (package_params (world willing) "" install) ready_raw).1
      guarded
      (tool_step (world willing) install guarded)
unfolding is_tool_validated validate_package call
tool_step-IsHeld_example = tool_step-IsHeld (world willing) install guarded refl (λ e. cc)

process_prompt-IsListening_example :
    IsListening
      (record guarded {
        raw = (validate_prompt (world willing) "format the disk" (routing_hints []) ready_raw).0;
        last_request = 0;
      })
      (process_prompt (world willing) "s" "shell" "format the disk" guarded)
unfolding validate_prompt call
process_prompt-IsListening_example =
    process_prompt-IsListening (world willing) "s" "shell" "format the disk" guarded refl

tool_loop-asked_example :
    (left (tool_loop (world willing) "@@fs.read(path=a)@@" "read a" guarded)).wide.exchanges ≤ 10
tool_loop-asked_example = tool_loop-asked (world willing) "@@fs.read(path=a)@@" "read a" guarded

abbrev status_request : Request
status_request = record (request "status") { type = "status_request" }

handle_message-Answered_example :
    Answered status_request 7 guarded (handle_message (world willing) status_request 7 guarded)
handle_message-Answered_example =
    handle_message-Answered (world willing) status_request 7 guarded (λ e. cc) (λ e. cc)
