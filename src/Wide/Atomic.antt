-- ===== src/Wide/Atomic.antt =====
-- internal/daemon/wide_client.go: what an operation that fails leaves behind.
use cognitiveosd.Prelude.{String, ◌≡◌, true, false, Option, none, some, arith}
use cognitiveosd.Prelude.Result.{Result, ok, err}
use cognitiveosd.Protocol.Env.{Env}
use cognitiveosd.Wide.{Wide, sent, generate, load_with_id, unload, load_adapter}

-- The operations that speak to the engine, with their arguments.
pub data Call : Type 0 where
  generate_call : (prompt : String) → Call
  load_call : (path id : String) → Call
  unload_call : (reason : String) → Call
  adapter_call : (path : String) → Call

abbrev text_error : Result String → Option String
text_error (ok _) = none
text_error (err e) = some e

-- One operation, with its error if it failed.
unfoldable pub perform : Env → String → Call → Wide → Wide × Option String
unfolding generate load_with_id unload load_adapter
perform env url (generate_call prompt) w =
    let (w', r) = generate env url prompt w in (w', text_error r)
perform env url (load_call path id) w = load_with_id env url path id w
perform env url (unload_call reason) w = unload env url reason w
perform env url (adapter_call path) w = load_adapter env url path w

-- What an operation that succeeds makes of the client.
abbrev pub after : Call → Wide → Wide
after (generate_call prompt) w = record (sent w) { loaded = true; model_name = "wide-model" }
after (load_call path id) w = record (sent w) { loaded = true; model_name = path; model_id = id }
after (unload_call reason) w = record (sent w) { loaded = false; model_name = ""; model_id = "" }
after (adapter_call path) w = sent w

abbrev pub outcome : Option String → Call → Wide → Wide
outcome none c w = after c w
outcome (some e) c w = sent w

-- Whatever the engine answers, each operation of the Wide Model's client either fails, and then
-- nothing has changed but the number of exchanges, or succeeds, and then the client is the one that
-- `after` describes; the system prompt never changes.
pub perform-outcome :
    (env : Env) (url : String) (c : Call) (w : Wide)
    → ((perform env url c w).0 ≡ outcome (perform env url c w).1 c w)
      × ((perform env url c w).0.system_prompt ≡ w.system_prompt)
unfolding perform
perform-outcome env url (generate_call prompt) w = ground arith
perform-outcome env url (load_call path id) w = ground arith
perform-outcome env url (unload_call reason) w = ground arith
perform-outcome env url (adapter_call path) w = ground arith
