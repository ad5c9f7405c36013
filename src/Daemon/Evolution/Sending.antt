-- ===== src/Daemon/Evolution/Sending.antt =====
-- internal/daemon/socket.go and daemon.go: what sending does to the daemon's parts.
use cognitiveosd.Prelude.{
  ℕ, String, ◌≡◌, refl, Bool, true, false, Option, none, some, List, [], ◌∷◌,
}
use cognitiveosd.Prelude.Dict.{Dict}
use cognitiveosd.Protocol.{Body, Data, Envelope, error_payload, ok_payload, reply}
use cognitiveosd.Protocol.Env.{Env}
use cognitiveosd.Daemon.{ClientConn, Daemon, answer_to, send, send_error, send_ok}
use cognitiveosd.Daemon.Clients.{broadcast}
use cognitiveosd.Daemon.Delivery.{
  broadcast_lem, broadcast_written, send_error_lem, send_lem, send_ok_lem, written_on,
}
use cognitiveosd.Daemon.Delivery.Added.{Adds, Adds-trans, IsOwn}
use cognitiveosd.Daemon.Evolution.{Permits, Moves, core, sent-Evolves}

written_on-Adds :
    (closed : Bool) (broken : Option String) (m : ℕ × Envelope Body)
    (old : List (ℕ × Envelope Body))
    → IsOwn m
    → Adds old (written_on closed broken m old)
written_on-Adds false none m old own = (m ∷ [], refl, (own, tt))
written_on-Adds false (some e) m old own = ([], refl, tt)
written_on-Adds true broken m old own = ([], refl, tt)

pub broadcast_written-Adds :
    (conns : ℕ → ClientConn) (m : Dict ℕ) (e : Envelope Body) (old : List (ℕ × Envelope Body))
    → e.from ≡ "cognitiveosd"
    → Adds old (broadcast_written conns m e old)
broadcast_written-Adds conns [] e old own = ([], refl, tt)
broadcast_written-Adds conns ((id, c) ∷ m) e old own =
    Adds-trans old _ _ (written_on-Adds (conns c).closed (conns c).broken (c, e) old own)
      (broadcast_written-Adds conns m e _ own)

module _ (env : Env) (May : Permits) where
  pub send-Moves :
      (c : ℕ) (e : Envelope Body) (d : Daemon)
      → e.from ≡ "cognitiveosd"
      → Moves env May (core d) (send c e d)
  send-Moves c e d own =
      rw (send_lem c e d)
        (record { at = sent-Evolves env May (core d) _ (written_on-Adds _ _ (c, e) d.sent own) })

  pub broadcast-Moves :
      (e : Envelope Body) (d : Daemon)
      → e.from ≡ "cognitiveosd"
      → Moves env May (core d) (broadcast e d)
  broadcast-Moves e d own = rw (broadcast_lem e d) (record {
    at = sent-Evolves env May (core d) _ (broadcast_written-Adds d.conns d.clients e d.sent own);
  })

  module _ {P : Type 0} (req : Envelope P) (c : ℕ) where
    pub error-Moves :
        (code message : String) (d : Daemon)
        → Moves env May (core d) (send_error env req c code message d)
    error-Moves code message d = rw (send_error_lem env req c code message d) (record {
      at = sent-Evolves env May (core d) _ (
          written_on-Adds _ _
            (c, answer_to req (env.rfc3339 d.clock) (reply (error_payload code message))) d.sent
            refl);
    })

    pub ok-Moves :
        (content : Data) (d : Daemon) → Moves env May (core d) (send_ok env req c content d)
    ok-Moves content d = rw (send_ok_lem env req c content d) (record {
      at = sent-Evolves env May (core d) _ (
          written_on-Adds _ _ (c, answer_to req (env.rfc3339 d.clock) (reply (ok_payload content)))
            d.sent refl);
    })
