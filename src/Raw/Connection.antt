-- ===== src/Raw/Connection.antt =====
-- internal/daemon/raw_client.go: when the client counts as connected.
use cognitiveosd.Prelude.{
  String, ◌≡◌, refl, ◌≢◌, true, false, Option, none, some, is_some, List, [], ◌∷◌, arith,
}
use cognitiveosd.Prelude.Result.{err}
use cognitiveosd.Json.{Json}
use cognitiveosd.Protocol.Env.{Env}
use cognitiveosd.Raw.{Raw, shut, new, is_ready, close, call, connect}

-- What `ready` promises: it goes with a connection, and a connection is open.
pub record IsSound (r : Raw) : Type 0 where
  pub ready_iff : r.ready ≡ is_some r.conn
  pub open_conn : r.conn ≢ some shut

pub connect-IsSound :
    (env : Env) (r : Raw) → r.conn ≡ none → r.ready ≡ false → IsSound (connect env r).0
unfolding connect
connect-IsSound env r e f = ground arith

pub call-IsSound :
    (env : Env) (method : String) (params : Option Json) (r : Raw)
    → IsSound r
    → IsSound (call env method params r).0
unfolding call
call-IsSound env method params r h = ground arith

-- What happens on a client after `Connect`: a request, or `Close`.
pub data Op : Type 0 where
  request : (method : String) → Option Json → Op
  closing : Op

unfoldable pub run : Env → List Op → Raw → Raw
run env [] r = r
run env (request method params ∷ ops) r = run env ops (call env method params r).0
run env (closing ∷ ops) r = run env ops (close r)

pub close-IsSound : (r : Raw) → IsSound (close r)
unfolding close
close-IsSound r = ground arith

run-IsSound : (env : Env) (ops : List Op) (r : Raw) → IsSound r → IsSound (run env ops r)
unfolding run
run-IsSound env [] r h = h
run-IsSound env (request method params ∷ ops) r h =
    run-IsSound env ops (call env method params r).0 (call-IsSound env method params r h)
run-IsSound env (closing ∷ ops) r h = run-IsSound env ops (close r) (close-IsSound r)

pub is_ready-IsSound : (r : Raw) → IsSound r → (is_ready r ≡ is_some r.conn) × (r.conn ≢ some shut)
unfolding is_ready
is_ready-IsSound r h = ground arith

-- From the one `Connect` of a new client, through any requests and closings and whatever the raw
-- model answers: the client reports ready exactly when it holds a connection, and the connection
-- that it holds has not been closed.
pub ready_iff_connected :
    (env : Env) (ops : List Op)
    → let r = run env ops (connect env new).0 in
      (is_ready r ≡ is_some r.conn) × (r.conn ≢ some shut)
unfolding new
ready_iff_connected env ops =
    is_ready-IsSound _ (run-IsSound env ops _ (connect-IsSound env new refl refl))

pub call-not_connected :
    (env : Env) (method : String) (params : Option Json) (r : Raw)
    → r.conn ≡ none
    → call env method params r ≡ (r, err "E_NOT_CONNECTED: raw model not connected")
unfolding call
call-not_connected env method params r h = ground arith

run-not_connected :
    (env : Env) (ops : List Op) (r : Raw)
    → r.conn ≡ none
    → ((run env ops r).conn ≡ none) × ((run env ops r).rpc_id ≡ r.rpc_id)
unfolding run close
run-not_connected env [] r h = (h, refl)
run-not_connected env (request method params ∷ ops) r h =
    rw (call-not_connected env method params r h, run) (run-not_connected env ops r h)
run-not_connected env (closing ∷ ops) r h = run-not_connected env ops (close r) refl

-- Once a client has no connection, through any later requests and closings, every request is
-- refused with E_NOT_CONNECTED and leaves the client as it is: no request reaches the raw model
-- again, and its counter stands still.
pub lost_for_good :
    (env : Env) (ops : List Op) (method : String) (params : Option Json) (r : Raw)
    → r.conn ≡ none
    → let s = run env ops r in
      (call env method params s ≡ (s, err "E_NOT_CONNECTED: raw model not connected"))
      × (s.rpc_id ≡ r.rpc_id)
lost_for_good env ops method params r h =
    let (gone, still) = run-not_connected env ops r h in
    (call-not_connected env method params _ gone, still)

-- A second `Connect` whose dial fails, on a client that was ready: the connection is closed, and
-- the client goes on reporting ready.
pub reconnect-stays_ready :
    (env : Env) (r : Raw) (e : String)
    → is_ready r ≡ true
    → env.dial_raw r.dials ≡ some e
    → let (r', failed) = connect env r in
      (failed ≢ none) × (is_ready r' ≡ true) × (r'.conn ≡ some shut)
unfolding is_ready connect
reconnect-stays_ready env r e h d = ground arith
