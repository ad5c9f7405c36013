-- ===== src/Mcp/Silent.antt =====
-- internal/daemon/mcp_lifecycle.go: when `Invoke` waits for ever.
use cognitiveosd.Prelude.{ℕ, String, ◌≡◌, refl, Option, none, some, ◌==◌, Bool-cases, inl, inr}
use cognitiveosd.Prelude.Dict.{Dict, lookup}
use cognitiveosd.Json.{Json, Fields, obj, get}
use cognitiveosd.Protocol.Env.{Env, McpReply, not_encoded, hung_up, line, silent}
use cognitiveosd.Mcp.{Server, Manager, resolve_server, Invoked, returned, panicked, waiting}
use cognitiveosd.Mcp.Rpc.{
  invoke_request, decoded_map, invoke, invoke_server, invoke_on, answer, answer_error,
  answer_result, read_reply, is_true, fields_or_empty,
}

-- There is a request that an MCP process does not answer, while its pipe stays open.
abbrev pub IsSilent : Env → Type 0
IsSilent env = (n : ℕ) × (name : String) × (request : Json) × (env.mcp n name request ≡ silent)

-- An invocation comes to an end, but where a process is silent.
abbrev pub Hears : Env → Invoked → Type 0
Hears env (returned r) = Unit
Hears env (panicked p) = Unit
Hears env waiting = IsSilent env

module _ (env : Env) where
  answer_error-Hears : (j : Json) → Hears env (answer_error env j)
  unfolding answer_error
  answer_error-Hears (obj fs) = tt
  answer_error-Hears _ = tt

  answer_result-Hears : (result : Fields) (e : Option Json) → Hears env (answer_result env result e)
  unfolding answer_result
  answer_result-Hears result none = elim (Bool-cases (is_true (get "isError" result))) [
    | inl failed ↦ rw failed tt
    | inr fine ↦ rw fine tt
  ]
  answer_result-Hears result (some j) = elim (Bool-cases (is_true (get "isError" result))) [
    | inl failed ↦ rw failed tt
    | inr fine ↦ rw fine (answer_error-Hears j)
  ]

  answer-Hears : (text : String) (resp : Option Fields) → Hears env (answer env text resp)
  unfolding answer
  answer-Hears text none = tt
  answer-Hears text (some resp) =
      answer_result-Hears (fields_or_empty (get "result" resp)) (get "error" resp)

  read_reply-Hears :
      (n : ℕ) (name : String) (request : Json) (reply : McpReply)
      → env.mcp n name request ≡ reply
      → Hears env (read_reply env name reply)
  unfolding read_reply
  read_reply-Hears n name request (not_encoded e) eq = tt
  read_reply-Hears n name request hung_up eq = tt
  read_reply-Hears n name request (line text) eq =
      answer-Hears text (decoded_map (env.parse_json text))
  read_reply-Hears n name request silent eq = (n, name, request, eq)

  invoke_on-Hears :
      (nano : ℕ) (tool : String) (args : Dict Json) (name : String) (s : Server) (pid : Option ℕ)
      (m : Manager)
      → Hears env (invoke_on env tool args nano name s pid m).1
  unfolding invoke_on
  invoke_on-Hears nano tool args name s none m = tt
  invoke_on-Hears nano tool args name s (some pid) m =
      read_reply-Hears m.exchanges name (invoke_request nano tool args) _ refl

  invoke_server-Hears :
      (nano : ℕ) (tool : String) (args : Dict Json) (name : String) (s : Option Server)
      (m : Manager)
      → Hears env (invoke_server env tool args nano name s m).1
  unfolding invoke_server
  invoke_server-Hears nano tool args name none m = tt
  invoke_server-Hears nano tool args name (some s) m = elim (Bool-cases s.active) [
    | inl on ↦ rw on (invoke_on-Hears nano tool args name s s.process m)
    | inr off ↦ rw off tt
  ]

  -- An invocation waits for ever only where there is a request that a process leaves without an
  -- answer.
  pub invoke-Hears :
      (nano : ℕ) (tool : String) (args : Dict Json) (m : Manager)
      → Hears env (invoke env nano tool args m).1
  unfolding invoke
  invoke-Hears nano tool args m = elim (Bool-cases (resolve_server tool m == "")) [
    | inl unknown ↦ rw unknown tt
    | inr known ↦ rw known (
        invoke_server-Hears nano tool args (resolve_server tool m)
          (lookup (resolve_server tool m) m.servers) m)
  ]
