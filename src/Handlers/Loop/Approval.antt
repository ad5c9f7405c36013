-- ===== src/Handlers/Loop/Approval.antt =====
-- internal/daemon/handlers.go: the package operations of the Wide Model and the raw model's approval.
use cognitiveosd.Prelude.{String, ◌++◌, ◌==◌, if◌then◌else◌, ◌≡◌, refl, ◌≢◌, true, [], ◌∷◌, ne-beq}
use cognitiveosd.Prelude.Result.{Result, ok, err}
use cognitiveosd.Mcp.Names.{is_tool_validated}
use cognitiveosd.Protocol.Env.{Env}
use cognitiveosd.Raw.Requests.{PackageResult, validate_package}
use cognitiveosd.Tools.{ToolCall}
use cognitiveosd.Daemon.{Daemon, Outcome, returned, panicked, deadlocked}
use cognitiveosd.Handlers.Loop.{Results, approved, ask_package, package_params, tool_step}

-- The raw model did not answer, or its answer is another than "approved".
abbrev pub IsUnapproved : Result PackageResult → Type 0
IsUnapproved (ok r) = r.status ≢ "approved"
IsUnapproved (err e) = Unit

-- What the model reads of the call: that it was denied, and why, or that it could not be validated.
abbrev pub refusal : ToolCall → Result PackageResult → String
refusal tc (err e) = "E_PACKAGE_MANIFEST_FETCH: Cannot validate " ++ tc.tool ++ ": " ++ e
refusal tc (ok r) =
    "E_PACKAGE_DENIED: Tool "
    ++ tc.tool
    ++ " denied: "
    ++ (if r.reason == "" then "operation denied by system guardrail" else r.reason)

-- The step returned the refusal as the one line for the model, and nothing for the client; of the
-- daemon, it changed the connection to the raw model at most.
abbrev pub IsHeld : ToolCall → Result PackageResult → Daemon → Outcome Results → Type 0
IsHeld tc r d (returned (lines, shown) d') =
    (lines ≡ refusal tc r ∷ []) × (shown ≡ []) × (d' ≡ record d { raw = d'.raw })
IsHeld tc r d (panicked p d') = ⊥
IsHeld tc r d (deadlocked d') = ⊥

approved-IsHeld :
    (env : Env) (tc : ToolCall) (r : Result PackageResult) (d d' : Daemon)
    → IsUnapproved r
    → d' ≡ record d { raw = d'.raw }
    → IsHeld tc r d (approved env tc r d')
unfolding approved
approved-IsHeld env tc (err e) d d' un same = (refl, refl, same)
approved-IsHeld env tc (ok r) d d' un same = rw (ne-beq r.status "approved" un) (refl, refl, same)

-- A tool of the namespace of the packages that the raw model does not approve (or about which it
-- cannot be asked) is not invoked: no process is spoken to, and instead of a result the model's next
-- prompt holds one line, which says that the tool was denied and why, or that it could not be
-- validated. Of the daemon, nothing but the raw model's client changes.
pub tool_step-IsHeld :
    (env : Env) (tc : ToolCall) (d : Daemon)
    → is_tool_validated tc.tool ≡ true
    → IsUnapproved (validate_package env (package_params env d.config.registry_url tc) d.raw).1
    → IsHeld tc
        (validate_package env (package_params env d.config.registry_url tc) d.raw).1
        d
        (tool_step env tc d)
unfolding tool_step ask_package
tool_step-IsHeld env tc d asked un = rw asked (
    approved-IsHeld env tc _ d
      (record d {
        raw = (validate_package env (package_params env d.config.registry_url tc) d.raw).0;
      })
      un refl)
