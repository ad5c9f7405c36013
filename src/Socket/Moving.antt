-- ===== src/Socket/Moving.antt =====
-- internal/daemon/socket.go: what a connection does to the daemon's parts, by its lines and by its
-- end.
use mathlib.Core.Path.{subst}
use cognitiveosd.Prelude.{
  sym, ap, ◌∙◌, ℕ, suc, String, ◌≡◌, refl, Bool, true, false, Option, none, some, ◌==◌,
  if◌then◌else◌,
}
use cognitiveosd.Prelude.Dict.{delete}
use cognitiveosd.Protocol.{Body, Envelope, error_payload, reply}
use cognitiveosd.Protocol.Env.{Env}
use cognitiveosd.Protocol.Uuid.{uuid}
use cognitiveosd.Daemon.{Daemon, Outcome, continue, deadlocked, panicked, send, returned}
use cognitiveosd.Daemon.Clients.{
  add_client, remove_client, close, close_open, identify, mark_closed, with_conn,
}
use cognitiveosd.Daemon.Evolution.{
  Permits, Core, Moves, continue-Moves, core, either-Moves, returned-Moves,
}
use cognitiveosd.Daemon.Evolution.Sending.{send-Moves}
use cognitiveosd.Handlers.{Request}
use cognitiveosd.Handlers.Codes.Moving.{Verdicts}
use cognitiveosd.Raw.{is_ready}
use cognitiveosd.Handlers.Dispatch.{handle_message}
use cognitiveosd.Handlers.Dispatch.Moving.{handle_message-Moves}
use cognitiveosd.Socket.{handle_line, not_parsed}

-- Only the table and the connections have changed.
abbrev Named : Daemon → Outcome (Unit {0}) → Type 0
Named d (returned u d') = core d' ≡ core d
Named d (panicked p d') = ⊥
Named d (deadlocked d') = ⊥

if-Named :
    (b : Bool) (d : Daemon) (x y : Outcome (Unit {0}))
    → Named d x
    → Named d y
    → Named d (if b then x else y)
if-Named true d x y h h' = h
if-Named false d x y h h' = h'

identify-Named : (c : ℕ) (from : String) (d : Daemon) → Named d (identify c from d)
unfolding identify add_client
identify-Named c from d =
    if-Named ((d.conns c).id == "") d _ _ (if-Named (from == "") d _ _ refl refl) refl

module _ (env : Env) (May : Permits) where
  pub close-Moves : (c : ℕ) (d : Daemon) → Moves env May (core d) (close c d)
  unfolding close close_open remove_client
  close-Moves c d =
      either-Moves env May (core d) (d.conns c).closed _ _ (returned-Moves env May tt d) (
        either-Moves env May (core d) ((d.conns c).id == "") _ _
          (returned-Moves env May tt (with_conn c mark_closed d))
          (returned-Moves env May tt
            (record (with_conn c mark_closed d) { clients = delete (d.conns c).id d.clients })))

  not_parsed-Moves :
      (c : ℕ) (text : String) (d : Daemon) → Moves env May (core d) (not_parsed env c text d)
  unfolding not_parsed
  not_parsed-Moves c text d =
      let e : Envelope Body = record {
        type = "error";
        id = uuid env d.drawn;
        timestamp = env.rfc3339 d.clock;
        from = "cognitiveosd";
        payload = reply (error_payload "E_INVALID_PAYLOAD" (env.json_error "envelope" text));
      } in
      let d' : Daemon = record d { clock = suc d.clock; drawn = suc d.drawn } in
      continue-Moves env May (core d) (send c e d') _ (send-Moves env May c e d' refl)
        (λ u d''. returned-Moves env May tt d'')

  -- The connection's name, and no part of the daemon, is what changes before a message is handled.
  identified-Moves :
      (valid : Verdicts env → May.shutdown) (c : ℕ) (req : Request) (d : Daemon)
      (o : Outcome (Unit {0}))
      → Named d o
      → (is_ready d.raw ≡ false → May.shutdown)
      → Moves env May (core d) (continue o (λ u. handle_message env req c))
  identified-Moves valid c req d (returned u d') same gone =
      subst (λ (k : Core). Moves env May k (handle_message env req c d')) same
        (handle_message-Moves env May valid req c d'
          (λ e. gone (ap (λ (k : Core). is_ready k.raw) (sym same) ∙ e)))
  identified-Moves valid c req d (panicked p d') h gone = absurd h
  identified-Moves valid c req d (deadlocked d') h gone = absurd h

  pub handle_line-Moves :
      (valid : Verdicts env → May.shutdown) (c : ℕ) (text : String) (o : Option Request)
      (d : Daemon)
      → (is_ready d.raw ≡ false → May.shutdown)
      → Moves env May (core d) (handle_line env c text o d)
  unfolding handle_line
  handle_line-Moves valid c text none d gone = not_parsed-Moves c text d
  handle_line-Moves valid c text (some req) d gone =
      identified-Moves valid c req d (identify c req.from d) (identify-Named c req.from d) gone
