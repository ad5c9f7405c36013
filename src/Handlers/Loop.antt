-- ===== src/Handlers/Loop.antt =====
-- internal/daemon/handlers.go: `toolLoop`, which runs the tools that the Wide Model calls and lets it
-- go on, ten times at most.
pub mod Approval
pub mod Bound
pub mod Live
pub mod Moving
use mathlib.Core.List.{◌++◌ as append}
use cognitiveosd.Prelude.{
  ℕ, zero, suc, String, ◌++◌, Bool, true, false, ◌&&◌, ◌||◌, Option, none, some, List, [], ◌∷◌,
  ◌==◌, if◌then◌else◌,
}
use cognitiveosd.Prelude.Dict.{Dict, lookup}
use cognitiveosd.Prelude.Result.{Result, ok, err}
use cognitiveosd.Prelude.Text.{join}
use cognitiveosd.Json.{Json, str}
use cognitiveosd.Mcp.{Invoked, Panic, slice_bounds, Manager}
use cognitiveosd.Mcp.Metadata.{fetch_metadata}
use cognitiveosd.Mcp.Names.{is_tool_validated, operation_from_tool}
use cognitiveosd.Mcp.Rpc.{invoke}
use cognitiveosd.Protocol.{ContentItem, McpResultPayload}
use cognitiveosd.Protocol.Env.{Env}
use cognitiveosd.Raw.Requests.{ManifestMetadata, PackageParams, PackageResult, validate_package}
use cognitiveosd.Tools.{ToolCall, parse_tool_calls}
use cognitiveosd.Wide.{generate}
use cognitiveosd.Daemon.{
  deadlocked, Daemon, Outcome, returned, panicked, Run, ◌>>=◌, ◌>>◌, continue, on_raw, on_wide,
  pure,
}

-- `args[name].(string)`, with "" where it does not hold.
abbrev pub text_or_empty : Option Json → String
text_or_empty (some (str s)) = s
text_or_empty _ = ""

abbrev pub text_arg : String → Dict Json → String
text_arg name args = text_or_empty (lookup name args)

-- The package whose manifest is fetched: `name`, or else `package_name`.
unfoldable pub fetched_package : Dict Json → String
fetched_package args =
    if text_arg "name" args == "" then text_arg "package_name" args else text_arg "name" args

unfoldable pub metadata_for : Env → String → String → Dict Json → Option ManifestMetadata
metadata_for env registry op args =
    if op == "install" || op == "update"
    then (if fetched_package args == ""
        then none
        else fetch_metadata env registry (fetched_package args) (text_arg "version" args))
    else none

-- What the raw model is asked about a call: its `name` alone goes as the package's name.
unfoldable pub package_params : Env → String → ToolCall → PackageParams
package_params env registry tc = record {
  operation = operation_from_tool tc.tool;
  package_name = text_arg "name" tc.arguments;
  version = text_arg "version" tc.arguments;
  manifest_metadata = metadata_for env registry (operation_from_tool tc.tool) tc.arguments;
}

-- The lines for the model's next prompt, and the ones for the client.
abbrev pub Results : Type 0
Results = List String × List String

abbrev content_text : List ContentItem → String
content_text [] = ""
content_text (i ∷ is) = i.text ++ content_text is

invoked : ToolCall → Invoked → Run Results
invoked tc (Invoked.panicked p) d = panicked p d
invoked tc Invoked.waiting d = deadlocked d
invoked tc (Invoked.returned (err e)) d =
    returned (("Error calling " ++ tc.tool ++ ": " ++ e) ∷ [], []) d
invoked tc (Invoked.returned (ok r)) d =
    returned
      (
        ("Tool " ++ tc.tool ++ " returned: " ++ content_text r.content) ∷ [],
        (tc.tool ++ " → " ++ content_text r.content) ∷ [],
      )
      d

unfoldable pub on_mcp : (Manager → Manager × Invoked) → Run Invoked
on_mcp f d = let (m, i) = f d.mcp in returned i (record d { mcp = m; clock = suc d.clock })

-- `mcpMgr.Invoke` and what the loop makes of its result. The clock is read once, also where the
-- invocation ends before its request is made.
unfoldable pub invoke_tool : Env → ToolCall → Run Results
unfolding invoked on_mcp
invoke_tool env tc =
    λ d. (do i ← on_mcp (invoke env (env.unix_nano d.clock) tc.tool tc.arguments); invoked tc i) d

abbrev reason_or : String → String
reason_or reason = if reason == "" then "operation denied by system guardrail" else reason

unfoldable pub approved : Env → ToolCall → Result PackageResult → Run Results
approved env tc (err e) =
    pure (("E_PACKAGE_MANIFEST_FETCH: Cannot validate " ++ tc.tool ++ ": " ++ e) ∷ [], [])
approved env tc (ok r) =
    if r.status == "approved"
    then invoke_tool env tc
    else pure (("E_PACKAGE_DENIED: Tool " ++ tc.tool ++ " denied: " ++ reason_or r.reason) ∷ [], [])

ask_package : Env → ToolCall → Run Results
ask_package env tc = λ d.
    (do
      r ← on_raw (validate_package env (package_params env d.config.registry_url tc))
      approved env tc r)
      d

-- One call: a tool of the validated namespace is asked about first.
unfoldable pub tool_step : Env → ToolCall → Run Results
unfolding ask_package
tool_step env tc = if is_tool_validated tc.tool then ask_package env tc else invoke_tool env tc

unfoldable pub run_tools : Env → List ToolCall → Run Results
run_tools env [] = pure ([], [])
run_tools env (tc ∷ tcs) = do
  (lines, shown) ← tool_step env tc
  (lines', shown') ← run_tools env tcs
  pure (append lines lines', append shown shown')

abbrev next_prompt : String → List String → String
next_prompt prompt lines = prompt ++ "\n\nTool results:\n" ++ join "\n" lines ++ "\n\nContinue."

unfoldable pub generate_text : Env → String → Run (Result String)
generate_text env prompt d = on_wide (generate env d.config.inference_url prompt) d

-- What the client is given in the end: the response, and the tools' results.
abbrev pub Final : Type 0
Final = String × List String

-- Behind the tools of one round: the model goes on, unless it cannot be asked.
abbrev continued : String → List String → (String → Run Final) → Result String → Run Final
continued response shown next (err e) = pure (response, shown)
continued response shown next (ok text) = next text

abbrev round :
    Env
    → String
    → String
    → List String
    → (String → List String → Run Final)
    → Option (List ToolCall)
    → Run Final
round env prompt response shown next none = panicked slice_bounds
round env prompt response shown next (some []) = pure (response, shown)
round env prompt response shown next (some (tc ∷ tcs)) = do
  (lines, shown') ← run_tools env (tc ∷ tcs)
  r ← generate_text env (next_prompt prompt lines)
  continued response (append shown shown') (λ text. next text (append shown shown')) r

-- The loop, by the rounds that are left.
unfoldable pub loop : ℕ → Env → String → String → List String → Run Final
loop zero env prompt response shown = pure (response, shown)
loop (suc n) env prompt response shown =
    round env prompt response shown (λ text shown'. loop n env prompt text shown')
      (parse_tool_calls response)

abbrev pub max_loops : ℕ
max_loops = 10

-- `toolLoop`
unfoldable pub tool_loop : Env → String → String → Run Final
tool_loop env response prompt = loop max_loops env prompt response []
