-- ===== src/Daemon/Delivery.antt =====
-- internal/daemon/socket.go and daemon.go: what `Send`, `SendError`, `SendOK` and `broadcast` write.
pub mod Added
use cognitiveosd.Prelude.{
  ℕ, suc, String, ◌≡◌, refl, Bool, true, false, Option, none, some, List, [], ◌∷◌,
}
use cognitiveosd.Prelude.Dict.{Dict}
use cognitiveosd.Protocol.{Body, Data, Envelope, reply, error_payload, ok_payload}
use cognitiveosd.Protocol.Env.{Env}
use cognitiveosd.Daemon.{
  Daemon, ClientConn, returned, send, send_on, answer_to, send_error, send_ok,
}
use cognitiveosd.Daemon.Clients.{broadcast_to, broadcast}

-- A message is written unless the connection is closed or its peer has gone.
abbrev pub written_on :
    Bool → Option String → ℕ × Envelope Body → List (ℕ × Envelope Body) → List (ℕ × Envelope Body)
written_on false none m old = m ∷ old
written_on true broken m old = old
written_on false (some e) m old = old

abbrev pub written : Daemon → ℕ → Envelope Body → List (ℕ × Envelope Body)
written d c e = written_on (d.conns c).closed (d.conns c).broken (c, e) d.sent

abbrev refusal : Bool → Option String → Option String
refusal true broken = some "connection closed"
refusal false broken = broken

send_on_lem :
    (closed : Bool) (broken : Option String) (c : ℕ) (e : Envelope Body) (d : Daemon)
    → send_on closed broken c e d
      ≡ returned
          (refusal closed broken)
          (record d { sent = written_on closed broken (c, e) d.sent })
unfolding send_on
send_on_lem true broken c e d = refl
send_on_lem false none c e d = refl
send_on_lem false (some g) c e d = refl

-- A send changes nothing but the messages written.
pub send_lem :
    (c : ℕ) (e : Envelope Body) (d : Daemon)
    → send c e d
      ≡ returned (refusal (d.conns c).closed (d.conns c).broken) (record d { sent = written d c e })
unfolding send
send_lem c e d = send_on_lem (d.conns c).closed (d.conns c).broken c e d

-- The daemon after a reply to a request: one reading of the clock, and the message, if it could be
-- written.
abbrev pub replied : {P : Type 0} → Env → Envelope P → ℕ → Body → Daemon → Daemon
replied env req c body d = record d {
  clock = suc d.clock;
  sent = written d c (answer_to req (env.rfc3339 d.clock) body);
}

pub send_error_lem :
    {P : Type 0} (env : Env) (req : Envelope P) (c : ℕ) (code message : String) (d : Daemon)
    → send_error env req c code message d
      ≡ returned tt (replied env req c (reply (error_payload code message)) d)
unfolding send_error
send_error_lem env req c code message d = rw (send_lem c _ (record d { clock = suc d.clock }))

pub send_ok_lem :
    {P : Type 0} (env : Env) (req : Envelope P) (c : ℕ) (content : Data) (d : Daemon)
    → send_ok env req c content d ≡ returned tt (replied env req c (reply (ok_payload content)) d)
unfolding send_ok
send_ok_lem env req c content d = rw (send_lem c _ (record d { clock = suc d.clock }))

-- The messages of a broadcast.
abbrev pub broadcast_written :
    (ℕ → ClientConn) → Dict ℕ → Envelope Body → List (ℕ × Envelope Body) → List (ℕ × Envelope Body)
broadcast_written conns [] e old = old
broadcast_written conns ((id, c) ∷ m) e old =
    broadcast_written conns m e (written_on (conns c).closed (conns c).broken (c, e) old)

broadcast_to_lem :
    (m : Dict ℕ) (e : Envelope Body) (d : Daemon)
    → broadcast_to m e d ≡ returned tt (record d { sent = broadcast_written d.conns m e d.sent })
unfolding broadcast_to
broadcast_to_lem [] e d = refl
broadcast_to_lem ((id, c) ∷ m) e d =
    rw (send_lem c e d) (broadcast_to_lem m e (record d { sent = written d c e }))

pub broadcast_lem :
    (e : Envelope Body) (d : Daemon)
    → broadcast e d ≡ returned tt (record d { sent = broadcast_written d.conns d.clients e d.sent })
unfolding broadcast
broadcast_lem e d = broadcast_to_lem d.clients e d
