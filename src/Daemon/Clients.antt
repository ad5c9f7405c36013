-- ===== src/Daemon/Clients.antt =====
-- internal/daemon/daemon.go and socket.go: the table of clients.
use cognitiveosd.Prelude.{
  ℕ, String, ◌++◌, true, Option, none, some, [], ◌∷◌, ◌==◌, eqb, if◌then◌else◌,
}
use cognitiveosd.Prelude.Dict.{Dict, lookup, insert, delete}
use cognitiveosd.Protocol.{Body, Envelope}
use cognitiveosd.Daemon.{Daemon, ClientConn, returned, deadlocked, Run, Action, skip, ◌>>◌, send}

-- `AddClient`
unfoldable pub add_client : String → ℕ → Action
add_client id c d = returned tt (record d { clients = insert id c d.clients })

-- `RemoveClient`
unfoldable pub remove_client : String → Action
remove_client id d = returned tt (record d { clients = delete id d.clients })

unfoldable pub send_if : String → Option ℕ → Envelope Body → Run (Option String)
send_if id none e d = returned (some ("E_SERVER_NOT_FOUND: client " ++ id ++ " not connected")) d
send_if id (some c) e d = send c e d

-- `SendToClient`
unfoldable pub send_to_client : String → Envelope Body → Run (Option String)
unfolding send_if send
send_to_client id e d = send_if id (lookup id d.clients) e d

-- `broadcast`; the errors are logged.
unfoldable pub broadcast_to : Dict ℕ → Envelope Body → Action
broadcast_to [] e = skip
broadcast_to ((id, c) ∷ m) e = do send c e; broadcast_to m e

unfoldable pub broadcast : Envelope Body → Action
unfolding broadcast_to
broadcast e d = broadcast_to d.clients e d

-- One connection, changed.
abbrev pub with_conn : ℕ → (ClientConn → ClientConn) → Daemon → Daemon
with_conn c f d = record d { conns = λ k. if eqb k c then f (d.conns k) else d.conns k }

abbrev pub mark_closed : ClientConn → ClientConn
mark_closed k = record k { closed = true }

-- `ClientConn.Close` behind its test of `done`, in a goroutine that holds no lock.
unfoldable pub close_open : ℕ → String → Action
close_open c id d =
    if id == ""
    then returned tt (with_conn c mark_closed d)
    else remove_client id (with_conn c mark_closed d)

-- `ClientConn.Close`
unfoldable pub close : ℕ → Action
unfolding close_open remove_client
close c d = if (d.conns c).closed then returned tt d else close_open c (d.conns c).id d

-- The same call in a goroutine that holds `clientsMu`: `RemoveClient` waits for it for ever. The lock
-- stays taken, which the state does not say: what the other goroutines do then covers what they
-- would do before they come to that lock.
unfoldable pub close_holding : ℕ → Action
close_holding c d =
    if (d.conns c).closed
    then returned tt d
    else if (d.conns c).id == ""
    then returned tt (with_conn c mark_closed d)
    else deadlocked (with_conn c mark_closed d)

abbrev pub named : String → ClientConn → ClientConn
named id k = record k { id = id }

-- `ReadLoop`'s step before the message is handled: the first sender's name is the connection's.
unfoldable pub identify : ℕ → String → Action
unfolding add_client
identify c from d =
    if (d.conns c).id == ""
    then (if from == "" then returned tt d else add_client from c (with_conn c (named from) d))
    else returned tt d
