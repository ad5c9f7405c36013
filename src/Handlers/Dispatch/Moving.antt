-- ===== src/Handlers/Dispatch/Moving.antt =====
-- internal/daemon/daemon.go: what `HandleMessage` does to the daemon's parts, whatever the message.
use Prim.Native.String.{len}
use cognitiveosd.Prelude.{◌≡◌, false, ℕ, ◌==◌, ltb}
use cognitiveosd.Protocol.Env.{Env}
use cognitiveosd.Raw.{is_ready}
use cognitiveosd.Daemon.{
  Daemon, State, idle, idle_requested, listening, processing, security, shutdown,
}
use cognitiveosd.Daemon.Evolution.{Permits, Moves, core, if-Moves}
use cognitiveosd.Daemon.Evolution.Sending.{error-Moves}
use cognitiveosd.Handlers.{Request}
use cognitiveosd.Handlers.Codes.Moving.{Verdicts, handle_system_code-Moves}
use cognitiveosd.Handlers.Dispatch.{dispatch, handle_in, handle_message, max_payload, sized}
use cognitiveosd.Handlers.Moving.{
  audit_request-Moves, cpm_tune-Moves, input_forward-Moves, mcp_register-Moves, mcp_result-Moves,
  mcp_unregister-Moves, status_request-Moves, wide_model_load-Moves, wide_model_unload-Moves,
}

module _ (env : Env) (May : Permits) (valid : Verdicts env → May.shutdown) (req : Request)
    (c : ℕ) where
  dispatch-Moves :
      (d : Daemon)
      → (is_ready d.raw ≡ false → May.shutdown)
      → Moves env May (core d) (dispatch env req c d)
  unfolding dispatch
  dispatch-Moves d gone =
      if-Moves env May (core d) (req.type == "input_forward") _ _ d
        (input_forward-Moves env May req c d)
        (if-Moves env May (core d) (req.type == "system_code") _ _ d
          (handle_system_code-Moves env May req c valid d gone)
          (if-Moves env May (core d) (req.type == "mcp_register") _ _ d
            (mcp_register-Moves env May req c d)
            (if-Moves env May (core d) (req.type == "mcp_unregister") _ _ d
              (mcp_unregister-Moves env May req c d)
              (if-Moves env May (core d) (req.type == "mcp_result") _ _ d
                (mcp_result-Moves env May req c d)
                (if-Moves env May (core d) (req.type == "audit_request") _ _ d
                  (audit_request-Moves env May req c d)
                  (if-Moves env May (core d) (req.type == "status_request") _ _ d
                    (status_request-Moves env May req c d)
                    (if-Moves env May (core d) (req.type == "wide_model_load") _ _ d
                      (wide_model_load-Moves env May req c d)
                      (if-Moves env May (core d) (req.type == "wide_model_unload") _ _ d
                        (wide_model_unload-Moves env May req c d)
                        (if-Moves env May (core d) (req.type == "cpm_tune") _ _ d
                          (cpm_tune-Moves env May req c d)
                          (error-Moves env May req c _ _ d))))))))))

  sized-Moves :
      (d : Daemon)
      → (is_ready d.raw ≡ false → May.shutdown)
      → Moves env May (core d) (sized env req c d)
  sized-Moves d gone =
      if-Moves env May (core d) (ltb max_payload (len req.payload)) _ _ d
        (error-Moves env May req c _ _ d) (dispatch-Moves d gone)

  handle_in-Moves :
      (s : State) (d : Daemon)
      → (is_ready d.raw ≡ false → May.shutdown)
      → Moves env May (core d) (handle_in s env req c d)
  unfolding handle_in
  handle_in-Moves shutdown d gone = error-Moves env May req c _ _ d
  handle_in-Moves idle d gone = sized-Moves d gone
  handle_in-Moves idle_requested d gone = sized-Moves d gone
  handle_in-Moves listening d gone = sized-Moves d gone
  handle_in-Moves processing d gone = sized-Moves d gone
  handle_in-Moves security d gone = sized-Moves d gone

  pub handle_message-Moves :
      (d : Daemon)
      → (is_ready d.raw ≡ false → May.shutdown)
      → Moves env May (core d) (handle_message env req c d)
  unfolding handle_message
  handle_message-Moves d gone = handle_in-Moves d.state d gone
