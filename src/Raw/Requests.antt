-- ===== src/Raw/Requests.antt =====
-- internal/daemon/raw_client.go: the five requests to the raw model.
use cognitiveosd.Prelude.{
  zero, String, ◌++◌, Bool, true, false, Option, none, some, List, [], ◌∷◌, ◌==◌, if◌then◌else◌,
}
use cognitiveosd.Prelude.Dict.{Dict}
use cognitiveosd.Prelude.Int.{ℤ}
use cognitiveosd.Prelude.Opt.{◌>>=◌}
use cognitiveosd.Prelude.Result.{Result, ok, err}
use cognitiveosd.Json.{
  Json, bool, int, str, arr, obj, Items, nil, cons, Fields, end, field, d_string, d_bool, d_int,
  d_struct, member,
}
use cognitiveosd.Protocol.Env.{Env}
use cognitiveosd.Raw.{Raw, call}

-- `PackageManifestMetadata`, `PackageValidationParams` and `PackageValidationResult` of types.go.
pub record ManifestMetadata : Type 0 where
  pub has_raw_model : Bool
  pub disk_space_mb : ℤ
  pub registry : String
  pub is_critical : Bool

pub record PackageParams : Type 0 where
  pub operation : String
  pub package_name : String
  pub version : String
  pub manifest_metadata : Option ManifestMetadata

pub record PackageResult : Type 0 where
  pub status : String
  pub reason : String
  pub command : String

-- A field with `omitempty`.
abbrev omit_text : String → String → Fields → Fields
omit_text name s fs = if s == "" then fs else field name (str s) fs

abbrev omit_bool : String → Bool → Fields → Fields
omit_bool name true fs = field name (bool true) fs
omit_bool name false fs = fs

abbrev omit_int : String → ℤ → Fields → Fields
omit_int name (ℤ.pos zero) fs = fs
omit_int name n fs = field name (int n) fs

two_texts : Fields → String × String → String → String → Option (String × String)
two_texts fs (a, b) name name' = do
  a' ← member d_string name fs a
  b' ← member d_string name' fs b
  some (a', b')

-- The results with two texts: `status` and another.
decode_status_and : String → Json → Option (String × String)
unfolding two_texts
decode_status_and name = d_struct (λ fs old. two_texts fs old "status" name) ("", "")

module _ {ℓ} {A : Type ℓ} (env : Env) where
  abbrev decoded : String → Json → Option A → Result A
  decoded what j none = err (what ++ env.type_error j)
  decoded what j (some a) = ok a

  -- A call whose result is decoded; the client is the one that the call leaves.
  unfoldable pub finish : String → (Json → Option A) → Raw × Result Json → Raw × Result A
  finish what decode (r, err e) = (r, err e)
  finish what decode (r, ok j) = (r, decoded what j (decode j))

-- `ValidateSystemCode`: the status and the action.
unfoldable pub validate_system_code : Env → String → String → Raw → Raw × Result (String × String)
unfolding call finish decode_status_and
validate_system_code env code origin r =
    finish env "parse validate response: " (decode_status_and "action") (
      call env "validate_system_code"
        (some (obj (field "code" (str code) (field "origin" (str origin) end)))) r)

-- `CheckUnlockCode`: the status and the message.
unfoldable pub check_unlock_code : Env → String → String → Raw → Raw × Result (String × String)
unfolding call finish decode_status_and
check_unlock_code env code patch r =
    finish env "parse unlock response: " (decode_status_and "message") (
      call env "check_unlock_code"
        (some (obj (field "code" (str code) (field "patch_name" (str patch) end)))) r)

pub record Audit : Type 0 where
  pub available : Bool
  pub total_mb : ℤ
  pub free_mb : ℤ
  pub allowed : Bool

read_audit : Fields → Audit → Option Audit
read_audit fs a = do
  v ← member d_bool "available" fs a.available
  t ← member d_int "total_mb" fs a.total_mb
  f ← member d_int "free_mb" fs a.free_mb
  w ← member d_bool "allowed" fs a.allowed
  some (record { available = v; total_mb = t; free_mb = f; allowed = w })

abbrev no_audit : Audit
no_audit = record { available = false; total_mb = ℤ.pos 0; free_mb = ℤ.pos 0; allowed = false }

-- `AuditResources`
unfoldable pub audit_resources : Env → ℤ → Raw → Raw × Result Audit
unfolding call finish read_audit
audit_resources env requested r =
    finish env "parse audit response: " (d_struct read_audit no_audit)
      (call env "audit_resources" (some (obj (field "requested_mb" (int requested) end))) r)

-- What `ValidatePrompt` returns beside its error.
pub record Verdict : Type 0 where
  pub action : String
  pub modified_prompt : String
  pub reason : String
  pub model : String

read_verdict : Fields → Verdict → Option Verdict
read_verdict fs v = do
  a ← member d_string "action" fs v.action
  m ← member d_string "modified_prompt" fs v.modified_prompt
  r ← member d_string "reason" fs v.reason
  o ← member d_string "model" fs v.model
  some (record { action = a; modified_prompt = m; reason = r; model = o })

abbrev no_verdict : Verdict
no_verdict = record { action = ""; modified_prompt = ""; reason = ""; model = "" }

abbrev texts : List String → Items
texts [] = nil
texts (s ∷ ss) = cons (str s) (texts ss)

abbrev hint_fields : Dict (List String) → Fields
hint_fields [] = end
hint_fields ((id, tags) ∷ m) = field id (arr (texts tags)) (hint_fields m)

-- The prompt, and the hints unless there are none.
unfoldable pub prompt_params : String → Dict (List String) → Json
prompt_params prompt [] = obj (field "prompt" (str prompt) end)
prompt_params prompt (h ∷ hs) =
    obj (field "prompt" (str prompt) (field "routing_hints" (obj (hint_fields (h ∷ hs))) end))

-- `ValidatePrompt`
unfoldable pub validate_prompt : Env → String → Dict (List String) → Raw → Raw × Result Verdict
unfolding call finish read_verdict
validate_prompt env prompt hints r =
    finish env "parse validate_prompt response: " (d_struct read_verdict no_verdict)
      (call env "validate_prompt" (some (prompt_params prompt hints)) r)

abbrev metadata : Option ManifestMetadata → Fields → Fields
metadata none fs = fs
metadata (some m) fs =
    field "manifest_metadata"
      (obj (
        omit_bool "has_raw_model" m.has_raw_model (
          omit_int "disk_space_mb" m.disk_space_mb
            (omit_text "registry" m.registry (omit_bool "is_critical" m.is_critical end)))))
      fs

unfoldable pub package_params : PackageParams → Json
package_params p = obj (
    field "operation" (str p.operation) (
      field "package_name" (str p.package_name)
        (omit_text "version" p.version (metadata p.manifest_metadata end))))

read_package : Fields → PackageResult → Option PackageResult
read_package fs p = do
  s ← member d_string "status" fs p.status
  r ← member d_string "reason" fs p.reason
  c ← member d_string "command" fs p.command
  some (record { status = s; reason = r; command = c })

-- `ValidatePackageRequest`
unfoldable pub validate_package : Env → PackageParams → Raw → Raw × Result PackageResult
unfolding call finish read_package
validate_package env p r =
    finish env "parse validate_package_request response: "
      (d_struct read_package (record { status = ""; reason = ""; command = "" }))
      (call env "validate_package_request" (some (package_params p)) r)
