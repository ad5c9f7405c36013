-- ===== src/Raw.antt =====
-- internal/daemon/raw_client.go: the client of the raw model, the guardrail behind a Unix socket.
-- A method gives the client back with its result. `ResolveUnixAddr` does not fail on "unix", and
-- the parameters are maps of texts and numbers, so those two error branches are not reached.
pub mod Requests
pub mod Connection
pub mod Asked
use cognitiveosd.Prelude.{
  ℕ, suc, String, ◌++◌, Bool, true, false, ◌&&◌, Option, none, some, is_some, ◌==◌, if◌then◌else◌,
}
use cognitiveosd.Prelude.Opt.{◌>>=◌}
use cognitiveosd.Prelude.Result.{Result, ok, err}
use cognitiveosd.Json.{Json, Fields, d_string, d_bool, d_struct, member}
use cognitiveosd.Protocol.Env.{Env, RawRequest, RawResponse, RawReply, not_sent, not_read, answered}

-- The connection object: `Close` leaves it closed, and a write to it then fails.
pub data Conn : Type 0 where
  live shut : Conn

-- `RawModelClient`, with the counter `rpcID` and the number of dials.
pub record Raw : Type 0 where
  pub conn : Option Conn
  pub ready : Bool
  pub rpc_id : ℕ
  pub dials : ℕ

-- `NewRawModelClient`
unfoldable pub new : Raw
new = record { conn = none; ready = false; rpc_id = 0; dials = 0 }

-- `IsReady`
unfoldable pub is_ready : Raw → Bool
is_ready r = r.ready && is_some r.conn

-- `Close`
unfoldable pub close : Raw → Raw
close r = record r { conn = none; ready = false }

abbrev lost : Raw → Raw
lost r = record r { conn = none; ready = false }

read_health : Fields → String × Bool → Option (String × Bool)
read_health fs (s, l) = do
  s' ← member d_string "status" fs s
  l' ← member d_bool "model_loaded" fs l
  some (s', l')

unfoldable pub decode_health : Json → Option (String × Bool)
unfolding read_health
decode_health = d_struct read_health ("", false)

-- What `callConn` makes of the reply. A response with an error is looked at before its result, and
-- its identifier is not compared with the request's.
received : Raw → RawReply → Raw × Result Json
received r (not_sent e) = (lost r, err ("E_CONNECTION_LOST: send to raw model: " ++ e))
received r (not_read e) = (lost r, err ("E_CONNECTION_LOST: read from raw model: " ++ e))
received r (answered resp) = elim resp.error [
  | some (code, message) ↦ (r, err (code ++ ": " ++ message))
  | none ↦ elim resp.result [
    | none ↦ (r, err "E_EMPTY_RESPONSE: no result from raw model")
    | some result ↦ (r, ok result)
  ]
]

module _ (env : Env) where
  exchange : Conn → RawRequest → RawReply
  exchange live req = env.raw_model req
  exchange shut req = not_sent "use of closed network connection"

  -- `callConn`
  unfoldable pub call_conn : Conn → String → Option Json → Raw → Raw × Result Json
  unfolding received exchange
  call_conn c method params r =
      received (record r { rpc_id = suc r.rpc_id })
        (exchange c (record { id = suc r.rpc_id; method = method; params = params }))

  call_on : Option Conn → String → Option Json → Raw → Raw × Result Json
  call_on none method params r = (r, err "E_NOT_CONNECTED: raw model not connected")
  call_on (some c) method params r = call_conn c method params r

  -- `call`
  unfoldable pub call : String → Option Json → Raw → Raw × Result Json
  unfolding call_on call_conn
  call method params r = call_on r.conn method params r

  abbrev closed_after : Raw → Raw
  closed_after r = record r { conn = none }

  health_checked : Json → Option (String × Bool) → Raw → Raw × Option String
  health_checked j none r = (closed_after r, some ("parse health result: " ++ env.type_error j))
  health_checked j (some (status, loaded)) r =
      if status == "ready"
      then (record r { ready = true }, none)
      else (closed_after r, some ("raw model not ready: " ++ status))

  dialled : Raw × Result Json → Raw × Option String
  dialled (r, err e) = (closed_after r, some ("raw healthcheck: " ++ e))
  dialled (r, ok j) = health_checked j (decode_health j) r

  abbrev close_old : Option Conn → Option Conn
  close_old none = none
  close_old (some c) = some shut

  connected : Option String → Raw → Raw × Option String
  connected (some e) r = (r, some ("connect to raw model: " ++ e))
  connected none r = dialled (call_conn live "healthcheck" none (record r { conn = some live }))

  -- `Connect`: the old connection is closed first, and stays in place if the dial fails.
  unfoldable pub connect : Raw → Raw × Option String
  unfolding connected dialled health_checked call_conn
  connect r =
      connected (env.dial_raw r.dials) (record r { conn = close_old r.conn; dials = suc r.dials })
