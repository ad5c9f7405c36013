-- ===== src/MockRaw/Allowing.antt =====
-- internal/testutil/rawmodel/raw_model_mock.go and internal/daemon/raw_client.go: the daemon's client
-- against the mock.
use cognitiveosd.Prelude.{ℕ, suc, String, ◌≡◌, refl, true, false, Option, none, some, List}
use cognitiveosd.Prelude.Dict.{Dict, lookup, lookup-insert_self}
use cognitiveosd.Prelude.Result.{ok, err}
use cognitiveosd.Json.{Json}
use cognitiveosd.Protocol.Env.{Env}
use cognitiveosd.Raw.{Raw, call, connect, decode_health, is_ready, live}
use cognitiveosd.Raw.Requests.{
  PackageParams, check_unlock_code, validate_package, validate_prompt, validate_system_code,
}
use cognitiveosd.MockRaw.{Mock, decode_response, dispatch, handle, new, raw_reply}

-- The daemon's surroundings with the mock as the raw model.
abbrev pub with_mock : Env → Mock → Env
with_mock env m = record env { raw_model = raw_reply env.type_error m }

-- A client that is connected.
abbrev pub connected_raw : ℕ → ℕ → Raw
connected_raw n dials = record { conn = some live; ready = true; rpc_id = n; dials = dials }

-- Against the mock as it comes, the client connects when it is dialled, and from then on, whatever it
-- asks, every code is valid, every unlock code accepted, every prompt and package allowed, and the
-- connection stays.
pub mock-allows :
    (env : Env) (code origin patch prompt : String) (hints : Dict (List String)) (p : PackageParams)
    (n dials : ℕ)
    → env.dial_raw dials ≡ none
    → let e = with_mock env new in
      let r = connected_raw n dials in
      let r' = connected_raw (suc n) dials in
      (connect e (record { conn = none; ready = false; rpc_id = n; dials = dials })
        ≡ (connected_raw (suc n) (suc dials), none))
      × (validate_system_code e code origin r ≡ (r', ok ("valid", "")))
      × (check_unlock_code e code patch r ≡ (r', ok ("accepted", "unlock accepted")))
      × ((validate_prompt e prompt hints r).0 ≡ r')
      × ((validate_package e p r).1
          ≡ ok (record { status = "approved"; reason = ""; command = "" }))
unfolding connect call validate_system_code check_unlock_code validate_prompt validate_package
    raw_reply decode_response dispatch new lookup decode_health
mock-allows env code origin patch prompt hints p n dials dial =
    (rw dial refl, refl, refl, refl, refl)

-- An error that the mock answers, as JSON-RPC has it, carries a number as its code; the client reads
-- a text there. So whatever the error is, the client takes its connection for lost: it gives up the
-- connection and is not ready any more.
pub mock-error_disconnects :
    (env : Env) (m : Mock) (method message : String) (params : Option Json) (n dials : ℕ)
    → let e = with_mock env (handle method (λ p. err message) m) in
      let r = (call e method params (connected_raw n dials)).0 in
      (r.conn ≡ none) × (is_ready r ≡ false)
unfolding call raw_reply decode_response dispatch handle is_ready
mock-error_disconnects env m method message params n dials =
    rw (lookup-insert_self method (λ (p : Option Json). err message) m) (refl, refl)
