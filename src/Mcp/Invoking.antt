-- ===== src/Mcp/Invoking.antt =====
-- internal/daemon/mcp_lifecycle.go: the results of `Invoke`.
use cognitiveosd.Prelude.{
  ℕ, String, ◌≡◌, refl, ◌≢◌, ◌⊎◌, inl, inr, Option, none, some, [], Bool-cases, ◌==◌,
}
use cognitiveosd.Prelude.Dict.{Dict, lookup}
use cognitiveosd.Prelude.Result.{ok, err}
use cognitiveosd.Json.{Json, Fields, obj, get}
use cognitiveosd.Protocol.{McpResultPayload}
use cognitiveosd.Protocol.Env.{Env, McpReply, not_encoded, hung_up, line, silent}
use cognitiveosd.Mcp.{Server, Manager, resolve_server, Invoked, returned, panicked, waiting}
use cognitiveosd.Mcp.Rpc.{
  invoke_request, decoded_map, invoke, invoke_server, invoke_on, answer, answer_result,
  answer_error, read_reply, is_true, fields_or_empty,
}

-- A result that is no error carries no error object; one that is carries it and no content.
abbrev pub IsConsistent : McpResultPayload → Type 0
IsConsistent r =
    ((r.status ≡ "ok") × (r.error ≡ none))
    ⊎ ((r.status ≡ "error") × (r.error ≢ none) × (r.content ≡ []))

abbrev pub IsFine : Invoked → Type 0
IsFine (returned (ok r)) = IsConsistent r
IsFine (returned (err e)) = Unit
IsFine (panicked p) = Unit
IsFine waiting = Unit

answer_error-IsFine : (env : Env) (j : Json) → IsFine (answer_error env j)
unfolding answer_error
answer_error-IsFine env (obj fs) = inr (refl, λ e. cc, refl)
answer_error-IsFine env _ = tt

answer_result-IsFine :
    (env : Env) (result : Fields) (e : Option Json) → IsFine (answer_result env result e)
unfolding answer_result
answer_result-IsFine env result none = elim (Bool-cases (is_true (get "isError" result))) [
  | inl failed ↦ rw failed (inr (refl, λ e. cc, refl))
  | inr fine ↦ rw fine (inl (refl, refl))
]
answer_result-IsFine env result (some j) = elim (Bool-cases (is_true (get "isError" result))) [
  | inl failed ↦ rw failed (inr (refl, λ e. cc, refl))
  | inr fine ↦ rw fine (answer_error-IsFine env j)
]

answer-IsFine : (env : Env) (text : String) (resp : Option Fields) → IsFine (answer env text resp)
unfolding answer
answer-IsFine env text none = tt
answer-IsFine env text (some resp) =
    answer_result-IsFine env (fields_or_empty (get "result" resp)) (get "error" resp)

read_reply-IsFine :
    (env : Env) (name : String) (reply : McpReply) → IsFine (read_reply env name reply)
unfolding read_reply
read_reply-IsFine env name (not_encoded e) = tt
read_reply-IsFine env name hung_up = tt
read_reply-IsFine env name silent = tt
read_reply-IsFine env name (line text) = answer-IsFine env text (decoded_map (env.parse_json text))

invoke_on-IsFine :
    (env : Env) (nano : ℕ) (tool : String) (args : Dict Json) (name : String) (s : Server)
    (pid : Option ℕ) (m : Manager)
    → IsFine (invoke_on env tool args nano name s pid m).1
unfolding invoke_on
invoke_on-IsFine env nano tool args name s none m = tt
invoke_on-IsFine env nano tool args name s (some pid) m =
    read_reply-IsFine env name (env.mcp m.exchanges name (invoke_request nano tool args))

invoke_server-IsFine :
    (env : Env) (nano : ℕ) (tool : String) (args : Dict Json) (name : String) (s : Option Server)
    (m : Manager)
    → IsFine (invoke_server env tool args nano name s m).1
unfolding invoke_server
invoke_server-IsFine env nano tool args name none m = tt
invoke_server-IsFine env nano tool args name (some s) m = elim (Bool-cases s.active) [
  | inl on ↦ rw on (invoke_on-IsFine env nano tool args name s s.process m)
  | inr off ↦ rw off tt
]

-- Whatever the process answers, a result that `Invoke` returns is either "ok" and carries no error,
-- or "error" and carries one and no content.
pub invoke-IsFine :
    (env : Env) (nano : ℕ) (tool : String) (args : Dict Json) (m : Manager)
    → IsFine (invoke env nano tool args m).1
unfolding invoke
invoke-IsFine env nano tool args m = elim (Bool-cases (resolve_server tool m == "")) [
  | inl unknown ↦ rw unknown tt
  | inr known ↦ rw known (
      invoke_server-IsFine env nano tool args (resolve_server tool m)
        (lookup (resolve_server tool m) m.servers) m)
]
