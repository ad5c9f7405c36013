-- ===== src/Socket.antt =====
-- internal/daemon/socket.go: the listener and the loop that reads a connection's lines.
pub mod Lines
pub mod Listed
pub mod Moving
pub mod Replies
pub mod Table
use cognitiveosd.Prelude.{
  ℕ, String, Bool, true, false, Option, none, some, List, [], ◌∷◌, eqb, ◌++◌, if◌then◌else◌,
}
use cognitiveosd.Prelude.Opt
use cognitiveosd.Prelude.Result.{Result, ok, err}
use cognitiveosd.Protocol.{Body, Envelope, error_payload, reply}
use cognitiveosd.Protocol.Decoding.{decode_envelope}
use cognitiveosd.Protocol.Env.{Env, Opened, unresolved, not_given, mode_kept, open_socket}
use cognitiveosd.Daemon.{
  Action, ClientConn, Daemon, continue, new_envelope, returned, send, skip, ◌>>◌, ◌>>=◌,
}
use cognitiveosd.Daemon.Clients.{close, identify, with_conn}
use cognitiveosd.Handlers.{Request}
use cognitiveosd.Handlers.Dispatch.{handle_message}

-- `NewSocketListener`, by its error.
unfoldable pub listener_error : Opened → Option String
listener_error (unresolved e) = some ("resolve addr: " ++ e)
listener_error (not_given e) = some ("listen unix: " ++ e)
listener_error (mode_kept e) = some ("chmod: " ++ e)
listener_error open_socket = none

-- `NewClientConn`
abbrev pub new_client_conn : ClientConn
new_client_conn = record { id = ""; closed = false; broken = none }

-- `acceptLoop` over the connections that come in and the errors of accepting; the connections whose
-- `ReadLoop` was started are the ones that were taken before the listener was closed.
unfoldable pub accept_loop : List (Result ℕ) → Daemon → Daemon × List ℕ
accept_loop [] d = (d, [])
accept_loop (err e ∷ events) d =
    let rest = accept_loop events d in if d.listener_closed then (d, []) else rest
accept_loop (ok c ∷ events) d =
    let (d', started) = accept_loop events (with_conn c (λ k. new_client_conn) d) in
    (d', c ∷ started)

-- `json.Unmarshal` of a line.
unfoldable pub parse_line : Env → String → Option Request
parse_line env text =
    Opt.◌>>=◌ (env.parse_json text) (decode_envelope (env.raw_member text "payload"))

module _ (env : Env) (c : ℕ) where
  not_parsed : String → Action
  not_parsed text = do
    e ←
        new_envelope env "error" "cognitiveosd"
          (reply (error_payload "E_INVALID_PAYLOAD" (env.json_error "envelope" text)))
    send c e
    skip

  -- One line: an envelope goes to `HandleMessage`, and anything else gets an error.
  unfoldable pub handle_line : String → Option Request → Action
  unfolding not_parsed
  handle_line text none = not_parsed text
  handle_line text (some req) = do identify c req.from; handle_message env req c

  -- `ReadLoop` over the lines that the peer sends before it closes, or sends one that is too long, with
  -- no other goroutine between them; Socket.Table and Life take the lines one by one.
  unfoldable pub read_loop : List String → Action
  unfolding handle_line
  read_loop [] = close c
  read_loop (text ∷ lines) = λ d.
      if (d.conns c).closed
      then close c d
      else (do handle_line text (parse_line env text); read_loop lines) d
