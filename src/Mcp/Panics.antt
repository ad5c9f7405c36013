-- ===== src/Mcp/Panics.antt =====
-- internal/daemon/mcp_lifecycle.go: when `Invoke` panics.
use cognitiveosd.Prelude.{
  ℕ, String, ◌≡◌, refl, ◌≢◌, ◌⊎◌, inl, inr, true, false, Option, none, some, List, [], ◌∷◌, arith,
  eq_iff, All, Bool-cases, ◌==◌,
}
use mathlib.Core.Path.{subst}
use cognitiveosd.Prelude.Dict.{Dict, lookup, lookup-insert_self}
use cognitiveosd.Json.{Json, Fields, obj, get}
use cognitiveosd.Protocol.{McpTool}
use cognitiveosd.Protocol.Env.{Env, McpReply, not_encoded, hung_up, line, silent}
use cognitiveosd.Mcp.{
  Server, Manager, has_tool, resolve_server, register, registered, Invoked, returned, panicked,
  waiting, Panic, nil_encoder,
}
use cognitiveosd.Mcp.Rpc.{
  invoke_request, decoded_map, invoke, invoke_server, invoke_on, answer, answer_result, read_reply,
  is_true, fields_or_empty,
}
use cognitiveosd.Mcp.Resolve.{IsOnlyProvider, resolve_server-register}

-- What JSON-RPC says of a response: its error, if it has one, is an object.
abbrev pub IsJsonRpc : Env → Type 0
IsJsonRpc env =
    (n : ℕ) (name : String) (req : Json) (text : String) (resp : Fields) (e : Json)
    → env.mcp n name req ≡ line text
    → env.parse_json text ≡ some (obj resp)
    → get "error" resp ≡ some e
    → (fs : Fields) × (e ≡ obj fs)

abbrev pub HasProcesses : Dict Server → Type 0
HasProcesses m = All (λ e. e.1.process ≢ none) m

abbrev Survives : Invoked → Type 0
Survives (returned r) = Unit
Survives (panicked p) = ⊥
Survives waiting = Unit

answer_result-Survives :
    (env : Env) (result : Fields) (e : Option Json)
    → ((j : Json) → e ≡ some j → (fs : Fields) × (j ≡ obj fs))
    → Survives (answer_result env result e)
unfolding answer_result
answer_result-Survives env result none h = elim (Bool-cases (is_true (get "isError" result))) [
  | inl failed ↦ rw failed tt
  | inr fine ↦ rw fine tt
]
answer_result-Survives env result (some j) h =
    let (fs, is_object) = h j refl in
    elim (Bool-cases (is_true (get "isError" result))) [
      | inl failed ↦ rw failed tt
      | inr fine ↦ rw (fine, is_object) tt
    ]

line-Survives :
    (env : Env) (text : String) (parsed : Option Json)
    → ((resp : Fields) (e : Json)
        → parsed ≡ some (obj resp)
        → get "error" resp ≡ some e
        → (fs : Fields) × (e ≡ obj fs))
    → Survives (answer env text (decoded_map parsed))
line-Survives env text (some (obj resp)) h =
    unfold answer in
    answer_result-Survives env (fields_or_empty (get "result" resp)) (get "error" resp)
      (λ j e. h resp j refl e)
line-Survives env text (some Json.null) h =
    unfold answer in answer_result-Survives env (fields_or_empty none) none (λ j e. cc)
line-Survives env text (some (Json.int n)) h = unfold answer in tt
line-Survives env text (some (Json.bool n)) h = unfold answer in tt
line-Survives env text (some (Json.real n)) h = unfold answer in tt
line-Survives env text (some (Json.str n)) h = unfold answer in tt
line-Survives env text (some (Json.arr n)) h = unfold answer in tt
line-Survives env text none h = unfold answer in tt

read_reply-Survives :
    (env : Env) (n : ℕ) (name : String) (req : Json)
    → IsJsonRpc env
    → Survives (read_reply env name (env.mcp n name req))
read_reply-Survives env n name req h = go (env.mcp n name req) refl
  where
    go : (reply : McpReply) → env.mcp n name req ≡ reply → Survives (read_reply env name reply)
    go (not_encoded e) eq = unfold read_reply in tt
    go hung_up eq = unfold read_reply in tt
    go silent eq = unfold read_reply in tt
    go (line text) eq =
        unfold read_reply in
        line-Survives env text (env.parse_json text) (λ resp e. h n name req text resp e eq)

invoke_on-Survives :
    (env : Env) (nano : ℕ) (tool : String) (args : Dict Json) (name : String) (s : Server)
    (pid : Option ℕ) (m : Manager)
    → IsJsonRpc env
    → pid ≢ none
    → Survives (invoke_on env tool args nano name s pid m).1
unfolding invoke_on
invoke_on-Survives env nano tool args name s none m h p = absurd (p refl)
invoke_on-Survives env nano tool args name s (some pid) m h p =
    read_reply-Survives env m.exchanges name (invoke_request nano tool args) h

invoke_server-Survives :
    (env : Env) (nano : ℕ) (tool : String) (args : Dict Json) (name : String) (s : Option Server)
    (m : Manager)
    → IsJsonRpc env
    → ((t : Server) → s ≡ some t → t.process ≢ none)
    → Survives (invoke_server env tool args nano name s m).1
unfolding invoke_server
invoke_server-Survives env nano tool args name none m h p = tt
invoke_server-Survives env nano tool args name (some s) m h p = elim (Bool-cases s.active) [
  | inl on ↦ rw on (invoke_on-Survives env nano tool args name s s.process m h (p s refl))
  | inr off ↦ rw off tt
]

HasProcesses-lookup :
    (name : String) (m : Dict Server)
    → HasProcesses m
    → (s : Server) → lookup name m ≡ some s
    → s.process ≢ none
unfolding lookup
HasProcesses-lookup name [] h s e = cc
HasProcesses-lookup name ((k, t) ∷ m) (p, h) s e = ground (arith, HasProcesses-lookup name m h s)

-- While every known server has a process, and the processes keep to JSON-RPC's form of an error, no
-- invocation panics, whatever the tool, its arguments and the answers.
pub invoke-Survives :
    (env : Env) (nano : ℕ) (tool : String) (args : Dict Json) (m : Manager) (p : Panic)
    → IsJsonRpc env
    → HasProcesses m.servers
    → (invoke env nano tool args m).1 ≢ panicked p
invoke-Survives env nano tool args m p h alive e = subst Survives e (survives (Bool-cases _))
  where
    survives :
        ((resolve_server tool m == "") ≡ true) ⊎ ((resolve_server tool m == "") ≡ false)
        → Survives (invoke env nano tool args m).1
    survives (inl unknown) = unfold invoke in rw unknown tt
    survives (inr known) =
        unfold invoke in
        rw known (
          invoke_server-Survives env nano tool args (resolve_server tool m)
            (lookup (resolve_server tool m) m.servers) m h
            (HasProcesses-lookup (resolve_server tool m) m.servers alive))

register-lookup :
    (name : String) (tools : List McpTool) (conn : ℕ) (m : Manager)
    → lookup name m.servers ≡ none
    → lookup name (register name tools conn m).servers ≡ some (registered name tools conn none)
unfolding register
register-lookup name tools conn m fresh =
    rw fresh (lookup-insert_self name (registered name tools conn none) m.servers)

-- After a server that the daemon has not spawned has registered over the socket with a tool that no
-- other server offers, the first invocation of the tool panics.
pub invoke-register-panics :
    (env : Env) (nano : ℕ) (tool name : String) (tools : List McpTool) (conn : ℕ) (args : Dict Json)
    (m : Manager)
    → name ≢ ""
    → lookup name m.servers ≡ none
    → IsOnlyProvider tool name m.servers
    → has_tool tool tools ≡ true
    → (invoke env nano tool args (register name tools conn m)).1 ≡ panicked nil_encoder
unfolding invoke
invoke-register-panics env nano tool name tools conn args m named fresh only offers =
    rw (resolve_server-register tool name tools conn m only offers)
      (rw (register-lookup name tools conn m fresh) (ground (arith, eq_iff name "")))
