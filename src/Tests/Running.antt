-- ===== src/Tests/Running.antt =====
-- The theorems on the start, the socket, the timer, the audit, the mock and the texts at work.
use Prim.Native.String.{len}
use cognitiveosd.Prelude.{
  List, some, Option, String, ◌*◌, ◌++◌, ◌≡◌, refl, arith, true, false, none, [], ◌∷◌,
}
use cognitiveosd.Prelude.Result.{err}
use cognitiveosd.Config.{default}
use cognitiveosd.Daemon.{Daemon}
use cognitiveosd.Daemon.Idle.Once.{prompted, fired, steps, steps-never_idle}
use mathlib.Core.List.{map}
use cognitiveosd.Json.{Json, str, obj, get}
use cognitiveosd.Protocol.Env.{RawRequest}
use cognitiveosd.MockRaw.Serving.{handle_conn, handle_conn-answers, request_json}
use cognitiveosd.MockRaw.{dispatch, rpc_of, handle, new}
use cognitiveosd.MockRaw.Allowing.{connected_raw, mock-error_disconnects, with_mock}
use cognitiveosd.Protocol.Uuid.{IsVariant, uuid_v4, uuid_v4-shape}
use cognitiveosd.Raw.{call, is_ready}
use cognitiveosd.Startup.{new_daemon, start_up}
use cognitiveosd.Startup.Ready.{Started, start_up-Started}
use cognitiveosd.Tests.{daemon_with, ready_raw, shell, willing, world}

start_up-Started_example :
    Started (world willing) default (start_up (world willing) (new_daemon default))
start_up-Started_example = start_up-Started (world willing) default

uuid_v4-shape_example :
    (before between variant behind : String) × (uuid_v4 (λ i. i * 20)
      ≡ before ++ ("4" ++ (between ++ (variant ++ behind))))
    × (len before ≡ 14)
    × (len between ≡ 4)
    × IsVariant variant
    × (len behind ≡ 16)
uuid_v4-shape_example = uuid_v4-shape (λ i. i * 20)

abbrev timed : Daemon
timed = record (daemon_with ready_raw shell) { idle_timer = true }

steps-never_idle_example :
    ((steps (world willing) (fired ∷ prompted ∷ fired ∷ []) timed).wide ≡ timed.wide)
    × ((steps (world willing) (fired ∷ prompted ∷ fired ∷ []) timed).state ≡ timed.state)
steps-never_idle_example =
    steps-never_idle (world willing) (prompted ∷ fired ∷ []) timed (ground arith)

mock-error_disconnects_example :
    let e = with_mock (world willing) (handle "version" (λ p. err "out of memory") new) in
    let r = (call e "version" none (connected_raw 4 1)).0 in (r.conn ≡ none) × (is_ready r ≡ false)
mock-error_disconnects_example =
    mock-error_disconnects (world willing) new "version" "out of memory" none 4 1

-- A wire on which a request is no more than its method.
abbrev text_or_empty : Option Json → String
text_or_empty (some (str s)) = s
text_or_empty _ = ""

abbrev method_of : Json → String
method_of (obj fs) = text_or_empty (get "method" fs)
method_of _ = ""

abbrev asking : String → RawRequest
asking method = record { id = 1; method = method; params = none }

abbrev read_method : String → Option Json
read_method text = some (request_json (asking text))

abbrev two_requests : List RawRequest
two_requests = asking "healthcheck" ∷ asking "reboot" ∷ []

handle_conn-answers_example :
    handle_conn read_method new
      (λ k. true)
      0
      (map (λ req. method_of (request_json req)) two_requests)
    ≡ map (λ req. dispatch new (rpc_of req)) two_requests
unfolding request_json
handle_conn-answers_example =
    handle_conn-answers read_method method_of new (λ k. true) 0 two_requests (λ k. refl)
      ((refl, refl, refl), ((refl, refl, refl), tt))
