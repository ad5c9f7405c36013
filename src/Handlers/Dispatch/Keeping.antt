-- ===== src/Handlers/Dispatch/Keeping.antt =====
-- internal/daemon/daemon.go: what `HandleMessage` leaves alone.
use Prim.Native.String.{len}
use cognitiveosd.Prelude.{
  ℕ, String, ◌≡◌, ◌≢◌, refl, Option-cases, ◌==◌, ltb, Bool-cases, inl, inr, arith, eq_iff,
}
use cognitiveosd.Protocol.Decoding.{decode_result}
use cognitiveosd.Protocol.Env.{Env}
use cognitiveosd.Daemon.{
  Daemon, State, idle, idle_requested, listening, processing, security, shutdown, send_error,
  Outcome, returned, panicked, deadlocked,
}
use cognitiveosd.Handlers.{Request, handle_mcp_result, on_payload, unmarshal}
use cognitiveosd.Handlers.Dispatch.{dispatch, handle_in, handle_message, max_payload, sized}
use cognitiveosd.Handlers.Dispatch.OneReply.{handle_message-OneReply}
use cognitiveosd.Handlers.Replying.{OneReply, Untouched, Untouched-refl, error-OneReply}

-- The action has returned, and has left alone what `Untouched` names.
abbrev pub Keeps : Daemon → Outcome (Unit {0}) → Type 0
Keeps d (returned u d') = Untouched d d'
Keeps d (panicked p d') = ⊥
Keeps d (deadlocked d') = ⊥

OneReply-Keeps :
    (req : Request) (c : ℕ) (d : Daemon) (o : Outcome (Unit {0})) → OneReply req c d o → Keeps d o
OneReply-Keeps req c d (returned u d') (time, body, sent, same) = same
OneReply-Keeps req c d (panicked p d') h = h
OneReply-Keeps req c d (deadlocked d') h = h

module _ (env : Env) (c : ℕ) (req : Request) (d : Daemon) where
  error-Keeps : (code message : String) → Keeps d (send_error env req c code message d)
  error-Keeps code message = OneReply-Keeps req c d _ (error-OneReply env req c code message d)

  result-Keeps : Keeps d (handle_mcp_result env req c d)
  unfolding handle_mcp_result on_payload
  result-Keeps = elim (Option-cases (unmarshal env decode_result req.payload)) [
    | inl bad ↦ rw bad (error-Keeps _ _)
    | inr (p, good) ↦ rw good (Untouched-refl d)
  ]

  dispatch-mcp_result :
      req.type ≡ "mcp_result" → dispatch env req c d ≡ handle_mcp_result env req c d
  unfolding dispatch
  dispatch-mcp_result h = simp h refl

  sized-Keeps : req.type ≡ "mcp_result" → Keeps d (sized env req c d)
  sized-Keeps h = elim (Bool-cases (ltb max_payload (len req.payload))) [
    | inl large ↦ rw large (error-Keeps _ _)
    | inr fits ↦ rw (fits, dispatch-mcp_result h) result-Keeps
  ]

  result_in-Keeps : (s : State) → req.type ≡ "mcp_result" → Keeps d (handle_in s env req c d)
  unfolding handle_in
  result_in-Keeps shutdown h = error-Keeps _ _
  result_in-Keeps idle h = sized-Keeps h
  result_in-Keeps idle_requested h = sized-Keeps h
  result_in-Keeps listening h = sized-Keeps h
  result_in-Keeps processing h = sized-Keeps h
  result_in-Keeps security h = sized-Keeps h

  -- The handler of a message that is no system code, where no other goroutine holds a lock that it
  -- takes, returns without a panic, and it leaves the connections and their table alone, the listener, the auditor and the commands; the state is as it was, or that
  -- of a prompt under way.
  pub handle_message-Keeps : req.type ≢ "system_code" → Keeps d (handle_message env req c d)
  unfolding handle_message
  handle_message-Keeps h = elim (Bool-cases (req.type == "mcp_result")) [
    | inl result ↦ result_in-Keeps d.state ((eq_iff req.type "mcp_result").0 result)
    | inr other ↦ OneReply-Keeps req c d _ (
        unfold handle_message in
        handle_message-OneReply env req c d h (λ e. ground (arith, eq_iff req.type "mcp_result")))
  ]
