-- ===== src/Handlers/Dispatch/OneReply.antt =====
-- internal/daemon/daemon.go: `HandleMessage` answers every request once.
use Prim.Native.String.{len}
use cognitiveosd.Prelude.{ℕ, String, ◌≡◌, ◌≢◌, true, ◌==◌, eq_iff, ltb, arith}
use cognitiveosd.Protocol.Env.{Env}
use cognitiveosd.Daemon.{
  Daemon, Outcome, returned, panicked, deadlocked, answer_to, State, idle, idle_requested,
  listening, processing, security, shutdown,
}
use cognitiveosd.Handlers.{Request}
use cognitiveosd.Handlers.Dispatch.{dispatch, handle_in, handle_message, max_payload, sized}
use cognitiveosd.Daemon.Delivery.{written}
use cognitiveosd.Protocol.{Body, Envelope}
use cognitiveosd.Handlers.Replying.{
  IsAnswerTo, Untouched, answer_to-IsAnswerTo, OneReply, audit_request-OneReply, cpm_tune-OneReply,
  error-OneReply, if-OneReply, input_forward-OneReply, mcp_register-OneReply,
  mcp_unregister-OneReply, status_request-OneReply, wide_model_load-OneReply,
  wide_model_unload-OneReply,
}

is_not : (s t : String) → s ≢ t → (s == t) ≢ true
is_not s t n = ground (arith, eq_iff s t)

module _ (env : Env) (req : Request) (c : ℕ) (no_code : req.type ≢ "system_code")
    (no_result : req.type ≢ "mcp_result") where
  dispatch-OneReply : (d : Daemon) → OneReply req c d (dispatch env req c d)
  unfolding dispatch
  dispatch-OneReply d =
      if-OneReply req c (req.type == "input_forward") _ _ d d
        (λ y. input_forward-OneReply env req c d)
        (λ n.
          if-OneReply req c (req.type == "system_code") _ _ d d
            (λ y. absurd (is_not req.type "system_code" no_code y))
            (λ n.
              if-OneReply req c (req.type == "mcp_register") _ _ d d
                (λ y. mcp_register-OneReply env req c d)
                (λ n.
                  if-OneReply req c (req.type == "mcp_unregister") _ _ d d
                    (λ y. mcp_unregister-OneReply env req c d)
                    (λ n.
                      if-OneReply req c (req.type == "mcp_result") _ _ d d
                        (λ y. absurd (is_not req.type "mcp_result" no_result y))
                        (λ n.
                          if-OneReply req c (req.type == "audit_request") _ _ d d
                            (λ y. audit_request-OneReply env req c d)
                            (λ n.
                              if-OneReply req c (req.type == "status_request") _ _ d d
                                (λ y. status_request-OneReply env req c d)
                                (λ n.
                                  if-OneReply req c (req.type == "wide_model_load") _ _ d d
                                    (λ y. wide_model_load-OneReply env req c d)
                                    (λ n.
                                      if-OneReply req c (req.type == "wide_model_unload") _ _ d d
                                        (λ y. wide_model_unload-OneReply env req c d)
                                        (λ n.
                                          if-OneReply req c (req.type == "cpm_tune") _ _ d d
                                            (λ y. cpm_tune-OneReply env req c d)
                                            (λ n. error-OneReply env req c _ _ d))))))))))

  sized-OneReply : (d : Daemon) → OneReply req c d (sized env req c d)
  sized-OneReply d =
      if-OneReply req c (ltb max_payload (len req.payload)) _ _ d d
        (λ y. error-OneReply env req c _ _ d) (λ n. dispatch-OneReply d)

  handle_in-OneReply : (s : State) (d : Daemon) → OneReply req c d (handle_in s env req c d)
  unfolding handle_in
  handle_in-OneReply shutdown d = error-OneReply env req c _ _ d
  handle_in-OneReply idle d = sized-OneReply d
  handle_in-OneReply idle_requested d = sized-OneReply d
  handle_in-OneReply listening d = sized-OneReply d
  handle_in-OneReply processing d = sized-OneReply d
  handle_in-OneReply security d = sized-OneReply d

pub handle_message-OneReply :
    (env : Env) (req : Request) (c : ℕ) (d : Daemon)
    → req.type ≢ "system_code"
    → req.type ≢ "mcp_result"
    → OneReply req c d (handle_message env req c d)
unfolding handle_message
handle_message-OneReply env req c d no_code no_result =
    handle_in-OneReply env req c no_code no_result d.state d

-- The action has returned, and has sent one message, an answer to the request, to the connection; it
-- is written unless the connection is closed or its peer has gone.
abbrev pub Answered : Request → ℕ → Daemon → Outcome (Unit {0}) → Type 0
Answered req c d (returned u d') =
    (e : Envelope Body) × IsAnswerTo req e × (d'.sent ≡ written d c e) × Untouched d d'
Answered req c d (panicked p d') = ⊥
Answered req c d (deadlocked d') = ⊥

OneReply-Answered :
    (req : Request) (c : ℕ) (d : Daemon) (o : Outcome (Unit {0}))
    → OneReply req c d o
    → Answered req c d o
OneReply-Answered req c d (returned u d') (time, body, sent, rest) =
    (answer_to req time body, answer_to-IsAnswerTo req time body, sent, rest)
OneReply-Answered req c d (panicked p d') h = h
OneReply-Answered req c d (deadlocked d') h = h

-- Every message that is neither a system code nor an MCP result, whatever its type, its payload and
-- the daemon's state, as a step during which no other goroutine holds a lock that the handler takes:
-- the handler returns without a panic, and it has sent exactly one message, to the connection of the
-- request, with the type that belongs to the request's type and the identifier of the request. That
-- is written unless the connection is closed or its peer has gone. The connections and their table,
-- the commands, the listener and the auditor are as they were, and the state is as it was, or that of
-- a prompt under way.
pub handle_message-Answered :
    (env : Env) (req : Request) (c : ℕ) (d : Daemon)
    → req.type ≢ "system_code"
    → req.type ≢ "mcp_result"
    → Answered req c d (handle_message env req c d)
handle_message-Answered env req c d no_code no_result =
    OneReply-Answered req c d _ (handle_message-OneReply env req c d no_code no_result)
