-- ===== src/MockRaw.antt =====
-- internal/testutil/rawmodel/raw_model_mock.go: the mock of the raw model that the tests run, and how
-- internal/daemon/raw_client.go reads what it answers.
pub mod Allowing
pub mod Lifetime
pub mod Serving
use cognitiveosd.Prelude.{
  ℕ, String, ◌++◌, Bool, true, false, Option, none, some, List, [], ◌∷◌, ◌==◌, if◌then◌else◌,
}
use cognitiveosd.Prelude.Dict.{Dict, insert, lookup}
use cognitiveosd.Prelude.Int.{ℤ}
use cognitiveosd.Prelude.Opt.{◌>>=◌}
use cognitiveosd.Prelude.Result.{Result, ok, err}
use cognitiveosd.Json.{
  Json, bool, int, str, obj, Fields, end, field, d_pointer, d_raw, d_string, d_struct, member,
}
use cognitiveosd.Protocol.Env.{Env, RawReply, RawRequest, RawResponse, answered, not_read}

-- `HandlerFunc`, from the parameters to a result as JSON or an error's text.
abbrev pub Handler : Type 0
Handler = Option Json → Result Json

-- `Mock`, by its handlers.
abbrev pub Mock : Type 0
Mock = Dict Handler

abbrev text_fields : List (String × String) → Fields
text_fields [] = end
text_fields ((k, v) ∷ l) = field k (str v) (text_fields l)

abbrev healthcheck_result : Json
healthcheck_result = obj (field "status" (str "ready") (field "model_loaded" (bool false) end))

abbrev audit_result : Json
audit_result = obj (
    field "available" (bool true) (
      field "total_mb" (int (ℤ.pos 32000))
        (field "free_mb" (int (ℤ.pos 16000)) (field "allowed" (bool true) end))))

-- `New`, with the handlers of `setDefaults`. Fields with `omitempty` that are empty are left out.
unfoldable pub new : Mock
new =
    ("healthcheck", λ p. ok healthcheck_result)
    ∷ (
      "validate_system_code",
      λ p. ok (obj (text_fields (("status", "valid") ∷ ("action", "") ∷ []))),
    )
    ∷ (
      "check_unlock_code",
      λ p. ok (obj (text_fields (("status", "accepted") ∷ ("message", "unlock accepted") ∷ []))),
    )
    ∷ ("audit_resources", λ p. ok audit_result)
    ∷ (
      "version",
      λ p.
          ok
            (obj (text_fields (("version", "1.0.0") ∷ ("model", "mock") ∷ ("quant", "Q4_0") ∷ []))),
    )
    ∷ ("validate_prompt", λ p. ok (obj (text_fields (("action", "allow") ∷ []))))
    ∷ (
      "validate_package_request",
      λ p. ok (obj (text_fields (("status", "approved") ∷ ("reason", "") ∷ ("command", "") ∷ []))),
    )
    ∷ []

-- `Handle`
unfoldable pub handle : String → Handler → Mock → Mock
handle method f m = insert method f m

-- `jsonRPCRequest`
pub record Rpc : Type 0 where
  pub id : ℤ
  pub method : String
  pub params : Option Json

-- What the client sends, as the mock reads it.
abbrev pub rpc_of : RawRequest → Rpc
rpc_of req = record { id = ℤ.pos req.id; method = req.method; params = req.params }

-- The responses, as they are written.
abbrev pub error_response : ℤ → ℕ → String → Json
error_response id code message = obj (
    field "jsonrpc" (str "2.0") (
      field "id" (int id) (
        field "error" (obj (field "code" (int (ℤ.negsuc code)) (field "message" (str message) end)))
          end)))

abbrev result_response : ℤ → Json → Json
result_response id result =
    obj (field "jsonrpc" (str "2.0") (field "id" (int id) (field "result" result end)))

abbrev answer : ℤ → Result Json → Json
answer id (ok result) = result_response id result
answer id (err e) = error_response id 31999 e

abbrev handled : Rpc → Option Handler → Json
handled req none = error_response req.id 32600 ("Method not found: " ++ req.method)
handled req (some f) = answer req.id (f req.params)

-- `dispatch`
unfoldable pub dispatch : Mock → Rpc → Json
dispatch m req = handled req (lookup req.method m)

-- What the client's decoder makes of a response: the code of an error is read as a text.
read_error : Fields → String × String → Option (String × String)
read_error fs (c, m) = do
  c' ← member d_string "code" fs c
  m' ← member d_string "message" fs m
  some (c', m')

read_response : Fields → RawResponse → Option RawResponse
read_response fs r = do
  result ← member d_raw "result" fs r.result
  error ← member (d_pointer ("", "") (d_struct read_error)) "error" fs r.error
  some (record { result = result; error = error })

unfoldable pub decode_response : Json → Option RawResponse
unfolding read_response read_error
decode_response = d_struct read_response (record { result = none; error = none })

abbrev reply_or : String → Option RawResponse → RawReply
reply_or e none = not_read e
reply_or e (some r) = answered r

-- The raw model that the daemon meets, where the mock stands behind its socket.
unfoldable pub raw_reply : (Json → String) → Mock → RawRequest → RawReply
raw_reply type_error m req =
    let response = dispatch m (rpc_of req) in
    reply_or (type_error response) (decode_response response)
