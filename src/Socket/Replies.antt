-- ===== src/Socket/Replies.antt =====
-- internal/daemon/socket.go: what a connection gets for a line.
use cognitiveosd.Prelude.{
  ℕ, String, ◌≡◌, refl, ◌≢◌, ◌∙◌, ap, false, Option, none, some, ◌∷◌, ◌==◌, Bool-cases, inl, inr,
  arith,
}
use cognitiveosd.Protocol.{Body, Envelope, error_payload, reply}
use cognitiveosd.Protocol.Env.{Env}
use cognitiveosd.Daemon.{
  ClientConn, Daemon, Outcome, returned, panicked, deadlocked, answer_to, continue,
}
use cognitiveosd.Daemon.Clients.{add_client, identify}
use cognitiveosd.Daemon.Delivery.{send_lem}
use cognitiveosd.Handlers.{Request}
use cognitiveosd.Handlers.Dispatch.{handle_message}
use cognitiveosd.Handlers.Dispatch.OneReply.{handle_message-OneReply}
use cognitiveosd.Handlers.Replying.{IsAnswerTo, OneReply, answer_to-IsAnswerTo}
use cognitiveosd.Socket.{handle_line, not_parsed}

-- A line that is to be answered: no envelope, or a message that is neither a system code nor the
-- result of a tool.
abbrev pub WantsReply : Option Request → Type 0
WantsReply none = Unit
WantsReply (some req) = (req.type ≢ "system_code") × (req.type ≢ "mcp_result")

-- The answer to a line: an error that says what is wrong with the text, where it is no envelope, and
-- else an answer to its message.
abbrev pub IsAnswer : Env → String → Option Request → Envelope Body → Type 0
IsAnswer env text none e =
    (e.type ≡ "error")
    × (e.from ≡ "cognitiveosd")
    × (e.payload ≡ reply (error_payload "E_INVALID_PAYLOAD" (env.json_error "envelope" text)))
IsAnswer env text (some req) e = IsAnswerTo req e

-- Messages are written to the connection.
pub record IsOpen (c : ℕ) (d : Daemon) : Type 0 where
  pub closed : (d.conns c).closed ≡ false
  pub broken : (d.conns c).broken ≡ none

-- The action has returned; one message has been written, to the connection, an answer to the line; and
-- the connection is still open.
abbrev pub AnsweredLine : Env → ℕ → String → Option Request → Daemon → Outcome (Unit {0}) → Type 0
AnsweredLine env c text o d (returned u d') =
    (e : Envelope Body) × IsAnswer env text o e × (d'.sent ≡ (c, e) ∷ d.sent) × IsOpen c d'
AnsweredLine env c text o d (panicked p d') = ⊥
AnsweredLine env c text o d (deadlocked d') = ⊥

-- The connection has been left as it was, but for its name, and nothing has been sent.
abbrev Prepared : ℕ → Daemon → Outcome (Unit {0}) → Type 0
Prepared c d (returned u d') = (d'.sent ≡ d.sent) × IsOpen c d'
Prepared c d (panicked p d') = ⊥
Prepared c d (deadlocked d') = ⊥

module _ (env : Env) (c : ℕ) where
  identify-Prepared : (from : String) (d : Daemon) → IsOpen c d → Prepared c d (identify c from d)
  unfolding identify add_client
  identify-Prepared from d up = elim (Bool-cases ((d.conns c).id == "")) [
    | inl unnamed ↦ elim (Bool-cases (from == "")) [
      | inl nobody ↦ rw (unnamed, nobody) (refl, up)
      | inr somebody ↦
          rw (unnamed, somebody)
            (
              refl,
              record { closed = ground (arith, up.closed); broken = ground (arith, up.broken) },
            )
    ]
    | inr has_name ↦ rw has_name (refl, up)
  ]

  replied-AnsweredLine :
      (text : String) (req : Request) (d : Daemon) (o : Outcome (Unit {0}))
      → IsOpen c d
      → OneReply req c d o
      → AnsweredLine env c text (some req) d o
  replied-AnsweredLine text req d (returned u d') up
        (time, body, sent, (clients, conns, commands, listener, auditor, state)) =
      let e = answer_to req time body in
      (
        e,
        answer_to-IsAnswerTo req time body,
        sent ∙ rw (up.closed, up.broken) refl,
        record {
          closed = ap (λ (k : ℕ → ClientConn). (k c).closed) conns ∙ up.closed;
          broken = ap (λ (k : ℕ → ClientConn). (k c).broken) conns ∙ up.broken;
        },
      )
  replied-AnsweredLine text req d (panicked p d') up h = absurd h
  replied-AnsweredLine text req d (deadlocked d') up h = absurd h

  -- The name of a connection does not matter to what is written to it.
  Prepared-AnsweredLine :
      (text : String) (req : Request) (d : Daemon) (o : Outcome (Unit {0}))
      → WantsReply (some req)
      → Prepared c d o
      → AnsweredLine env c text (some req) d (continue o (λ u. handle_message env req c))
  Prepared-AnsweredLine text req d (returned u d') (no_code, no_result) (same, up) =
      sent_alike (handle_message env req c d') (
        replied-AnsweredLine text req d' _ up
          (handle_message-OneReply env req c d' no_code no_result))
    where
      sent_alike :
          (o : Outcome (Unit {0}))
          → AnsweredLine env c text (some req) d' o
          → AnsweredLine env c text (some req) d o
      sent_alike (returned v d'') (e, h, sent, up') = (e, h, sent ∙ ap (λ l. (c, e) ∷ l) same, up')
      sent_alike (panicked p d'') h = h
      sent_alike (deadlocked d'') h = h
  Prepared-AnsweredLine text req d (panicked p d') wants h = absurd h
  Prepared-AnsweredLine text req d (deadlocked d') wants h = absurd h

  -- A line that comes on a connection that is open and whose peer is there, and that is no system code
  -- and no result of a tool: its handling, as a step in which no other goroutine comes between or holds
  -- a lock that it takes, returns, writes exactly one message, to this connection, and leaves it open.
  -- A line that is no envelope is answered with an error that says what is wrong with it, any other by
  -- a message of the type that belongs to the request's type, under the identifier of the request.
  pub handle_line-AnsweredLine :
      (text : String) (o : Option Request) (d : Daemon)
      → IsOpen c d
      → WantsReply o
      → AnsweredLine env c text o d (handle_line env c text o d)
  unfolding handle_line not_parsed
  handle_line-AnsweredLine text none d up wants = rw (send_lem c _ _) (
      rw (up.closed, up.broken)
        (_, (refl, refl, refl), refl, record { closed = up.closed; broken = up.broken }))
  handle_line-AnsweredLine text (some req) d up wants =
      Prepared-AnsweredLine text req d _ wants (identify-Prepared req.from d up)
