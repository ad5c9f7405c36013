-- ===== src/Socket/Table/Names.antt =====
-- internal/daemon/socket.go and daemon.go: two connections with one name.
use cognitiveosd.Prelude.{
  ℕ, String, ◌++◌, ◌≡◌, ◌≢◌, refl, false, some, none, eq_of_eqb, arith, ne-beq,
}
use cognitiveosd.Prelude.Dict.{lookup, delete, lookup-delete_self}
use cognitiveosd.Protocol.{Body, Envelope}
use cognitiveosd.Daemon.{Daemon, left, returned, send}
use cognitiveosd.Daemon.Clients.{close, close_open, remove_client, send_if, send_to_client}

-- Behind the closing of an open connection with a name.
close-named :
    (c : ℕ) (name : String) (d : Daemon)
    → (d.conns c).closed ≡ false
    → (d.conns c).id ≡ name
    → name ≢ ""
    → ((left (close c d)).clients ≡ delete name d.clients)
      × ((other : ℕ) → other ≢ c → (left (close c d)).conns other ≡ d.conns other)
unfolding close close_open remove_client
close-named c name d still named full =
    rw (still, named, ne-beq name "" full) (refl, λ other apart. ground (arith, eq_of_eqb other c))

-- When two connections go by one name, and the table has the second, closing the first, if it is
-- open, takes the second out of the table. Before, a message for the name is sent on the second
-- connection; behind it, such a message is refused, though the second connection is as it was.
pub close-evicts :
    (c c' : ℕ) (name : String) (e : Envelope Body) (d : Daemon)
    → (d.conns c).closed ≡ false
    → (d.conns c).id ≡ name
    → name ≢ ""
    → lookup name d.clients ≡ some c'
    → c' ≢ c
    → let d' = left (close c d) in
      (send_to_client name e d ≡ send c' e d)
      × (d'.conns c' ≡ d.conns c')
      × (send_to_client name e d'
          ≡ returned (some ("E_SERVER_NOT_FOUND: client " ++ name ++ " not connected")) d')
unfolding send_to_client send_if
close-evicts c c' name e d still named full found apart =
    let (clients, conns) = close-named c name d still named full in
    let gone : lookup name (left (close c d)).clients ≡ none =
      rw clients (lookup-delete_self name d.clients) in
    (rw found refl, conns c' apart, rw gone refl)
