-- ===== src/Life/Guard.antt =====
-- internal/daemon/raw_client.go and handlers.go: a daemon whose connection to the raw model is lost.
-- Only `Run` calls `Connect`, before its loop.
use Prim.Native.String.{len}
use cognitiveosd.Prelude.{
  ltb, ◌∙◌, ℕ, String, ◌++◌, ◌≡◌, ◌≢◌, refl, false, Option, none, some, List, arith,
}
use cognitiveosd.Prelude.Dict.{Dict}
use cognitiveosd.Prelude.Result.{err}
use cognitiveosd.Prelude.Text.{to_lower}
use cognitiveosd.Json.{Json}
use cognitiveosd.Protocol.{SystemCodePayload, code_accepted, ok_payload, reply}
use cognitiveosd.Protocol.Decoding.{decode_system_code}
use cognitiveosd.Protocol.Env.{Env}
use cognitiveosd.Raw.{Raw, call, is_ready}
use cognitiveosd.Raw.Asked.{Asked-lost, Asked-still}
use cognitiveosd.Raw.Connection.{call-not_connected}
use cognitiveosd.Raw.Requests.{finish, validate_prompt}
use cognitiveosd.Daemon.{State, Daemon, returned}
use cognitiveosd.Daemon.Delivery.{replied}
use cognitiveosd.Handlers.Dispatch.{dispatch, handle_in, handle_message, max_payload}
use cognitiveosd.Handlers.{Request, unmarshal}
use cognitiveosd.Handlers.Codes.{handle_system_code}
use cognitiveosd.Handlers.Codes.Gate.{unlock-without_raw_model}
use cognitiveosd.Life.{Turns, Turns-Evolves}

module _ (env : Env) where
  lost-not_ready : (r : Raw) → r.conn ≡ none → is_ready r ≡ false
  unfolding is_ready
  lost-not_ready r h = ground arith

  lost-prompt :
      (prompt : String) (hints : Dict (List String)) (r : Raw)
      → r.conn ≡ none
      → validate_prompt env prompt hints r ≡ (r, err "E_NOT_CONNECTED: raw model not connected")
  unfolding validate_prompt finish
  lost-prompt prompt hints r h = rw (call-not_connected env _ _ r h) refl

  -- A system code is handled as one where the daemon is not shut down.
  handle_in-code :
      (req : Request) (c : ℕ) (s : State) (d : Daemon)
      → s ≢ State.shutdown
      → req.type ≡ "system_code"
      → ltb max_payload (len req.payload) ≡ false
      → handle_in s env req c d ≡ handle_system_code env req c d
  unfolding handle_in dispatch
  handle_in-code req c State.shutdown d up kind fits = absurd (up refl)
  handle_in-code req c State.idle d up kind fits = rw fits (simp kind refl)
  handle_in-code req c State.idle_requested d up kind fits = rw fits (simp kind refl)
  handle_in-code req c State.listening d up kind fits = rw fits (simp kind refl)
  handle_in-code req c State.processing d up kind fits = rw fits (simp kind refl)
  handle_in-code req c State.security d up kind fits = rw fits (simp kind refl)

  module _ (d d' : Daemon) (lost : d.raw.conn ≡ none) (turns : Turns env (Unit {0}) d d') where
    still_lost : d'.raw.conn ≡ none
    still_lost = Asked-lost env (Unit {0}) (Turns-Evolves env turns).raw lost

    -- Once a daemon has no connection to the raw model, and whatever comes then, the model is never
    -- asked again: a request is refused with E_NOT_CONNECTED and changes nothing, the number of the
    -- last request is what it was, and no prompt is allowed.
    pub Turns-refused :
        (method prompt : String) (params : Option Json) (hints : Dict (List String))
        → (call env method params d'.raw ≡ (d'.raw, err "E_NOT_CONNECTED: raw model not connected"))
          × (d'.raw.rpc_id ≡ d.raw.rpc_id)
          × (validate_prompt env prompt hints d'.raw
              ≡ (d'.raw, err "E_NOT_CONNECTED: raw model not connected"))
    Turns-refused method prompt params hints = (
      call-not_connected env method params d'.raw still_lost,
      Asked-still env (Unit {0}) (Turns-Evolves env turns).raw lost,
      lost-prompt prompt hints d'.raw still_lost,
    )

    -- Once a daemon has no connection to the raw model, and whatever comes then, every message with an
    -- unlock code that is not empty is answered that the code is accepted, from any origin and with
    -- nothing that checks it, as long as the daemon is not shut down and the payload is not too large.
    pub Turns-unlocked :
        (req : Request) (c : ℕ) (p : SystemCodePayload)
        → d'.state ≢ State.shutdown
        → req.type ≡ "system_code"
        → ltb max_payload (len req.payload) ≡ false
        → unmarshal env decode_system_code req.payload ≡ some p
        → to_lower p.code ≡ "unlock"
        → p.unlock_code ≢ ""
        → handle_message env req c d'
          ≡ returned tt (
              replied env req c
                (reply (
                  ok_payload (code_accepted "ok" ("unlock code " ++ p.unlock_code ++ " accepted"))))
                d')
    unfolding handle_message
    Turns-unlocked req c p up kind fits parsed code given =
        handle_in-code req c d'.state d' up kind fits
        ∙ unlock-without_raw_model env req c p d' parsed (lost-not_ready d'.raw still_lost) code
            given
