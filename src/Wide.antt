-- ===== src/Wide.antt =====
-- internal/daemon/wide_client.go: the client of the inference engine that runs the Wide Model.
-- A method takes the engine's environment, the base URL `Config.InferenceURL` and the client, and
-- gives the client back with its result. The JSON bodies are maps of texts and numbers, so encoding
-- them does not fail and those error branches are not reached.
pub mod Atomic
pub mod Loaded
pub mod Count
pub mod Driven
use cognitiveosd.Prelude.{
  ℕ, suc, String, ◌++◌, Bool, true, false, not, Option, none, some, ◌==◌, eqb, if◌then◌else◌,
}
use cognitiveosd.Prelude.Int.{ℤ}
use cognitiveosd.Prelude.Opt.{◌>>=◌}
use cognitiveosd.Prelude.Result.{Result, ok, err}
use cognitiveosd.Prelude.Text.{decimal, trim_space}
use cognitiveosd.Json.{
  Json, int, real, str, bool, obj, Fields, end, field, d_string, d_bool, d_struct, member,
}
use cognitiveosd.Protocol.Env.{
  Env, EngineRequest, post, remove, fetch, EngineReply, bad_request, no_reply, cut, response,
}

-- `WideModelClient`; `exchanges` counts its HTTP requests.
pub record Wide : Type 0 where
  pub loaded : Bool
  pub model_name : String
  pub model_id : String
  pub system_prompt : String
  pub exchanges : ℕ

-- `NewWideModelClient`
unfoldable pub new : Wide
new = record { loaded = false; model_name = ""; model_id = ""; system_prompt = ""; exchanges = 0 }

abbrev pub sent : Wide → Wide
sent w = record w { exchanges = suc w.exchanges }

-- `Generate`'s prompt: the system prompt stands in front of the user's.
unfoldable pub full_prompt : String → String → String
full_prompt system prompt = if system == "" then prompt else system ++ "\n\n" ++ prompt

unfoldable pub generate_body : String → Json
generate_body prompt = obj (
    field "model" (str "wide-model") (
      field "prompt" (str prompt) (
        field "stream" (bool false) (
          field "options"
            (obj (field "temperature" (real "0.7") (field "num_predict" (int (ℤ.pos 512)) end)))
            end))))

read_generated : Fields → String × Bool → Option (String × Bool)
read_generated fs (r, d) = do
  r' ← member d_string "response" fs r
  d' ← member d_bool "done" fs d
  some (r', d')

unfoldable pub decode_generated : Json → Option (String × Bool)
unfolding read_generated
decode_generated = d_struct read_generated ("", false)

module _ (env : Env) where
  abbrev answered : Wide → Option (String × Bool) → String → Wide × Result String
  answered w none text = (w, err ("parse response: " ++ env.json_error "generate" text))
  answered w (some (text, done)) _ =
      (record w { loaded = true; model_name = "wide-model" }, ok text)

  generated : Wide → EngineReply → Wide × Result String
  generated w (bad_request e) = (w, err ("inference request: " ++ e))
  generated w (no_reply e) = (w, err ("inference request: " ++ e))
  generated w (cut status e) = (w, err ("read response: " ++ e))
  generated w (response status text) =
      if eqb status 200
      then answered w (env.parse_json text >>= decode_generated) text
      else (w, err ("inference error (HTTP " ++ decimal status ++ "): " ++ trim_space text))

  unfoldable pub generate : String → String → Wide → Wide × Result String
  unfolding generated
  generate url prompt w = generated (sent w) (
      env.engine w.exchanges
        (post (url ++ "/api/generate") (generate_body (full_prompt w.system_prompt prompt))))

  load_finished : Wide → String → String → EngineReply → Wide × Option String
  load_finished w path id (bad_request e) = (w, some ("load request: " ++ e))
  load_finished w path id (no_reply e) = (w, some ("load request: " ++ e))
  load_finished w path id (cut status e) =
      if eqb status 200
      then (record w { loaded = true; model_name = path; model_id = id }, none)
      else (w, some ("load failed: HTTP " ++ decimal status))
  load_finished w path id (response status text) =
      if eqb status 200
      then (record w { loaded = true; model_name = path; model_id = id }, none)
      else (w, some ("load failed: HTTP " ++ decimal status))

  -- `LoadWithID`; the reply's body is not read.
  unfoldable pub load_with_id : String → String → String → Wide → Wide × Option String
  unfolding load_finished
  load_with_id url path id w = load_finished (sent w) path id (
      env.engine w.exchanges (
        post (url ++ "/api/pull")
          (obj (field "model" (str "wide-model") (field "path" (str path) end)))))

  unfoldable pub load : String → String → Wide → Wide × Option String
  unfolding load_with_id
  load url path w = load_with_id url path "" w

  -- The status of the reply is not looked at.
  unloaded : Wide → EngineReply → Wide × Option String
  unloaded w (bad_request e) = (w, some e)
  unloaded w (no_reply e) = (w, some ("unload request: " ++ e))
  unloaded w (cut status e) = (record w { loaded = false; model_name = ""; model_id = "" }, none)
  unloaded w (response status text) =
      (record w { loaded = false; model_name = ""; model_id = "" }, none)

  unfoldable pub unload : String → String → Wide → Wide × Option String
  unfolding unloaded
  unload url reason w = unloaded (sent w) (
      env.engine w.exchanges
        (remove (url ++ "/api/delete") (obj (field "reason" (str reason) end))))

  adapter_finished : EngineReply → Option String
  adapter_finished (bad_request e) = some ("adapter load request: " ++ e)
  adapter_finished (no_reply e) = some ("adapter load request: " ++ e)
  adapter_finished (cut status e) =
      if eqb status 200 then none else some ("adapter load failed: HTTP " ++ decimal status)
  adapter_finished (response status text) =
      if eqb status 200 then none else some ("adapter load failed: HTTP " ++ decimal status)

  unfoldable pub load_adapter : String → String → Wide → Wide × Option String
  unfolding adapter_finished
  load_adapter url path w = (
    sent w,
    adapter_finished (
        env.engine w.exchanges
          (post (url ++ "/api/adapter") (obj (field "adapter" (str path) end)))),
  )

  healthy : EngineReply → Bool
  healthy (bad_request e) = false
  healthy (no_reply e) = false
  healthy (cut status e) = eqb status 200
  healthy (response status text) = eqb status 200

  unfoldable pub health : String → Wide → Wide × Bool
  unfolding healthy
  health url w = (sent w, healthy (env.engine w.exchanges (fetch (url ++ "/health"))))

unfoldable pub loaded_model_name : Wide → String
loaded_model_name w = if not w.loaded then "" else w.model_name

unfoldable pub loaded_model_id : Wide → String
loaded_model_id w = if not w.loaded then "" else w.model_id

-- `SetSystemPrompt`
unfoldable pub set_system_prompt : String → Wide → Wide
set_system_prompt prompt w = record w { system_prompt = prompt }
