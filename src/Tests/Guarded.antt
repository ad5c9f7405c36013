-- ===== src/Tests/Guarded.antt =====
-- The theorems on a daemon whose raw model refuses everything, at work.
use cognitiveosd.Prelude.{
  List, String, ◌≡◌, ◌≢◌, ◌==◌, if◌then◌else◌, true, refl, Option, none, some,
}
use cognitiveosd.Prelude.Result.{ok}
use cognitiveosd.Config.{default, ensure_dirs}
use cognitiveosd.Mcp.Process.{spawn_core_bridges}
use cognitiveosd.Protocol.Env.{Env, RawResponse, answered}
use cognitiveosd.Raw
use cognitiveosd.Raw.{Conn, Raw, live, shut, is_ready, call, connect}
use cognitiveosd.Raw.Requests.{validate_prompt, finish, validate_system_code}
use cognitiveosd.Json.{obj, end}
use cognitiveosd.Handlers.Codes.Moving.{Verdicts}
use cognitiveosd.Life.Unasked.{IsUnasked, Life-IsUnasked}
use cognitiveosd.Handlers.Prompt.{run_task}
use cognitiveosd.Prelude.Dict.{Dict}
use cognitiveosd.Life.Denied.{IsUnharmed, Turns-IsUnharmed}
use cognitiveosd.Registry.Models.{load_wide_model}
use cognitiveosd.Socket.{handle_line, new_client_conn, parse_line, listener_error}
use cognitiveosd.Daemon.{Task, Daemon, left, returned}
use cognitiveosd.Daemon.Clients.{broadcast, with_conn}
use cognitiveosd.Handlers.Prompt.Ends.{IsBlocked}
use cognitiveosd.Life.{works, born, start, later, accepts, reads}
use cognitiveosd.Startup.{
  new_daemon, start_up, come_up, write_pid, start_auditor, scan_patches, load_first_model,
}
use cognitiveosd.Daemon.Idle.{start_idle_timer}
use cognitiveosd.Tests.{code_text, text_field}
use cognitiveosd.Tests.Living.{bare}

-- A raw model that is there, and calls no code valid; every line is a reset by a button.
abbrev strict_answer : RawResponse
strict_answer = record {
  result = some (obj (text_field "status" "ready" (text_field "action" "deny" end)));
  error = none;
}

abbrev strict : Env
strict = record bare {
  dial_raw = λ n. none;
  raw_model = λ req. answered strict_answer;
  parse_json = λ text.
      if text == ""
      then code_text "reset" "button" ""
      else some (obj (text_field "type" "system_code" (text_field "from" "shell" end)));
}

strict-conn :
    (code origin action : String) (conn : Option Conn) (r : Raw)
    → (validate_system_code strict code origin (record r { conn = conn })).1 ≢ ok ("valid", action)
unfolding validate_system_code call finish
strict-conn code origin action none r e = cc
strict-conn code origin action (some live) r e = cc
strict-conn code origin action (some shut) r e = cc

strict-rejects : Verdicts strict → ⊥
strict-rejects (code, origin, r, action, e) = strict-conn code origin action r.conn r e

abbrev guarded : Daemon
guarded = left (start_up strict (new_daemon default))

guarded_lem : start_up strict (new_daemon default) ≡ returned none guarded
unfolding start_up new_daemon ensure_dirs write_pid listener_error come_up start_auditor
    scan_patches load_first_model load_wide_model start_idle_timer broadcast spawn_core_bridges
guarded_lem = refl

guarded-ready : is_ready guarded.raw ≡ true
unfolding start_up new_daemon ensure_dirs write_pid listener_error come_up start_auditor
    scan_patches load_first_model load_wide_model start_idle_timer broadcast spawn_core_bridges
    connect Raw.new is_ready call Raw.decode_health
guarded-ready = refl

-- A connection comes and sends the code.
abbrev tried : Daemon
tried = left (
    handle_line strict 7 "reset" (parse_line strict "reset")
      (with_conn 7 (λ k. new_client_conn) guarded))

Turns-IsUnharmed_example : IsUnharmed guarded tried × (is_ready tried.raw ≡ true)
Turns-IsUnharmed_example =
    Turns-IsUnharmed strict (λ req. (strict_answer, refl)) strict-rejects default guarded tried
      (born guarded_lem start) guarded-ready (later (later start (accepts 7)) (reads 7 "reset"))

strict-prompt :
    (prompt : String) (hints : Dict (List String)) (conn : Option Conn) (r : Raw)
    → IsBlocked (validate_prompt strict prompt hints (record r { conn = conn })).1
unfolding validate_prompt call finish
strict-prompt prompt hints none r = tt
strict-prompt prompt hints (some live) r = refl
strict-prompt prompt hints (some shut) r = tt

strict-blocks :
    (prompt : String) (hints : Dict (List String)) (r : Raw)
    → IsBlocked (validate_prompt strict prompt hints r).1
strict-blocks prompt hints r = strict-prompt prompt hints r.conn r

-- A prompt comes to its turn.
abbrev prompted : Daemon
prompted = left (run_task strict (Task.process "hello" "s" "shell") guarded)

Life-IsUnasked_example : IsUnasked strict default prompted.wide
Life-IsUnasked_example =
    Life-IsUnasked strict strict-blocks default prompted
      (born guarded_lem (later start (works (Task.process "hello" "s" "shell"))))
