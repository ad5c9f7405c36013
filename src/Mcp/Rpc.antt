-- ===== src/Mcp/Rpc.antt =====
-- internal/daemon/mcp_lifecycle.go: `Invoke` and `DiscoverTools`, the requests to a process.
use cognitiveosd.Prelude.{
  ℕ, suc, String, ◌++◌, Bool, true, false, Option, none, some, List, [], ◌∷◌, ◌==◌, if◌then◌else◌,
}
use cognitiveosd.Prelude.Dict.{Dict, lookup}
use cognitiveosd.Prelude.Result.{ok, err}
use cognitiveosd.Prelude.Text.{decimal, has_prefix, split_first, trim_space}
use cognitiveosd.Json.{Json, null, bool, str, arr, obj, Items, nil, cons, Fields, end, field, get}
use cognitiveosd.Protocol.{ContentItem, ErrorInfo, McpResultPayload}
use cognitiveosd.Protocol.Env.{Env, McpReply, not_encoded, hung_up, line, silent}
use cognitiveosd.Mcp.{
  Server, Manager, resolve_server, Invoked, returned, panicked, waiting, nil_encoder, not_an_object,
}

abbrev pub to_fields : Dict Json → Fields
to_fields [] = end
to_fields ((k, v) ∷ m) = field k v (to_fields m)

-- The request of `Invoke`, with the keys in the order in which a map is written.
unfoldable pub invoke_request : ℕ → String → Dict Json → Json
invoke_request nano tool args = obj (
    field "id" (str ("invoke-" ++ decimal nano)) (
      field "jsonrpc" (str "2.0") (
        field "method" (str tool)
          (field "params" (obj (field "arguments" (obj (to_fields args)) end)) end))))

-- A decoded `map[string]interface{}`: an object, or the nil map for `null`.
abbrev pub as_map : Json → Option Fields
as_map null = some end
as_map (obj fs) = some fs
as_map _ = none

-- `v.(map[string]interface{})` and `v.([]interface{})`, with the zero value where it does not hold.
abbrev pub fields_or_empty : Option Json → Fields
fields_or_empty (some (obj fs)) = fs
fields_or_empty _ = end

abbrev pub items_or_empty : Option Json → Items
items_or_empty (some (arr vs)) = vs
items_or_empty _ = nil

abbrev pub is_true : Option Json → Bool
is_true (some (bool b)) = b
is_true _ = false

-- `text[6:]`, behind the six characters of the prefix
abbrev drop6 : String → String
drop6 (String.◌∷◌ a (String.◌∷◌ b (String.◌∷◌ c (String.◌∷◌ d (String.◌∷◌ e (String.◌∷◌ f s)))))) =
    s
drop6 s = s

abbrev code_or_internal : String → String
code_or_internal code = if code == "" then "E_INTERNAL" else code

abbrev split_error : String → String × Option String → ErrorInfo
split_error text (code, none) = record { code = code_or_internal code; message = text }
split_error text (code, some rest) = record {
  code = code_or_internal code;
  message = trim_space rest;
}

-- The `ERROR:CODE:message` convention.
unfoldable pub error_of_text : String → ErrorInfo
error_of_text text =
    if has_prefix text "ERROR:"
    then split_error text (split_first b':' (drop6 text))
    else record { code = "E_INTERNAL"; message = text }

abbrev pub decoded_map : Option Json → Option Fields
decoded_map none = none
decoded_map (some j) = as_map j

module _ (env : Env) where
  -- `fmt.Sprintf("%v", v)`
  abbrev pub shown : Option Json → String
  shown none = "<nil>"
  shown (some null) = "<nil>"
  shown (some (str s)) = s
  shown (some (bool true)) = "true"
  shown (some (bool false)) = "false"
  shown (some j) = env.format j

  abbrev pub joined_text : Items → String
  joined_text nil = ""
  joined_text (cons (obj fs) vs) = shown (get "text" fs) ++ joined_text vs
  joined_text (cons _ vs) = joined_text vs

  abbrev pub content_items : Items → List ContentItem
  content_items nil = []
  content_items (cons (obj fs) vs) =
      record { type = shown (get "type" fs); text = shown (get "text" fs) } ∷ content_items vs
  content_items (cons _ vs) = content_items vs

  abbrev pub failure : ErrorInfo → McpResultPayload
  failure e = record { status = "error"; error = some e; content = [] }

  -- The type assertion on the `error` member is not checked.
  unfoldable pub answer_error : Json → Invoked
  answer_error (obj fs) =
      returned
        (ok (failure (record { code = shown (get "code" fs); message = shown (get "message" fs) })))
  answer_error _ = panicked not_an_object

  unfoldable pub answer_with : Fields → Option Json → Invoked
  unfolding answer_error
  answer_with result (some e) = answer_error e
  answer_with result none = returned (
      ok (record {
        status = "ok";
        error = none;
        content = content_items (items_or_empty (get "content" result));
      }))

  unfoldable pub answer_result : Fields → Option Json → Invoked
  unfolding answer_with
  answer_result result e =
      if is_true (get "isError" result)
      then returned
          (ok (failure (error_of_text (joined_text (items_or_empty (get "content" result))))))
      else answer_with result e

  unfoldable pub answer : String → Option Fields → Invoked
  unfolding answer_result
  answer text none = returned (err ("parse MCP response: " ++ env.json_error "rpc" text))
  answer text (some resp) = answer_result (fields_or_empty (get "result" resp)) (get "error" resp)

  unfoldable pub read_reply : String → McpReply → Invoked
  unfolding answer
  read_reply name (not_encoded e) = returned (err ("send to MCP server: " ++ e))
  read_reply name hung_up =
      returned (err ("E_SERVER_NOT_FOUND: MCP server " ++ name ++ " disconnected"))
  read_reply name (line text) = answer text (decoded_map (env.parse_json text))
  read_reply name silent = waiting

  -- Behind the checks: `server.Stdin` is nil for a server without a process.
  unfoldable pub invoke_on :
      String → Dict Json → ℕ → String → Server → Option ℕ → Manager → Manager × Invoked
  unfolding read_reply
  invoke_on tool args nano name s none m = (m, panicked nil_encoder)
  invoke_on tool args nano name s (some pid) m = (
    record m { exchanges = suc m.exchanges },
    read_reply name (env.mcp m.exchanges name (invoke_request nano tool args)),
  )

  unfoldable pub invoke_server :
      String → Dict Json → ℕ → String → Option Server → Manager → Manager × Invoked
  unfolding invoke_on
  invoke_server tool args nano name none m =
      (m, returned (err ("E_SERVER_NOT_FOUND: server for " ++ tool ++ " not active")))
  invoke_server tool args nano name (some s) m =
      if s.active
      then invoke_on tool args nano name s s.process m
      else (m, returned (err ("E_SERVER_NOT_FOUND: server for " ++ tool ++ " not active")))

  -- `Invoke`, with the clock's reading for the request's identifier.
  unfoldable pub invoke : ℕ → String → Dict Json → Manager → Manager × Invoked
  unfolding invoke_server
  invoke nano tool args m =
      let name = resolve_server tool m in
      if name == ""
      then (m, returned (err ("E_TOOL_NOT_FOUND: tool " ++ tool ++ " not found")))
      else invoke_server tool args nano name (lookup name m.servers) m
