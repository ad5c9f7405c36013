-- ===== src/Handlers/Prompt/Ends.antt =====
-- internal/daemon/handlers.go: how `processPrompt` ends.
use cognitiveosd.Prelude.{ℕ, suc, String, ◌≡◌, refl, Option, none, some}
use cognitiveosd.Prelude.Dict.{lookup}
use cognitiveosd.Prelude.Result.{Result, ok, err}
use cognitiveosd.Protocol.{Body, Envelope}
use cognitiveosd.Protocol.Env.{Env}
use cognitiveosd.Raw.Requests.{Verdict, validate_prompt}
use cognitiveosd.Registry.{routing_hints}
use cognitiveosd.Daemon.{
  Daemon, listening, Outcome, returned, panicked, deadlocked, continue, set_state, skip,
}
use cognitiveosd.Daemon.Idle.{touch_idle_timer}
use cognitiveosd.Daemon.Clients.{send_if, send_to_client}
use cognitiveosd.Daemon.Delivery.{send_lem}
use cognitiveosd.Handlers.Prompt.{ask_prompt, deliver, finish, judged, process_prompt}

-- What sending to a client may change of the daemon: the messages, the clock and the identifiers.
abbrev pub IsDelivery : Daemon → Daemon → Type 0
IsDelivery d d' = d' ≡ record d { sent = d'.sent; clock = d'.clock; drawn = d'.drawn }

-- The goroutine has returned with the daemon listening, and has delivered messages, nothing else.
abbrev pub IsListening : Daemon → Outcome (Unit {0}) → Type 0
IsListening d (returned u d') =
    d' ≡ record d { state = listening; sent = d'.sent; clock = d'.clock; drawn = d'.drawn }
IsListening d (panicked p d') = ⊥
IsListening d (deadlocked d') = ⊥

finish-if :
    (o : Option ℕ) (from : String) (e : Envelope Body) (d d' : Daemon)
    → d' ≡ record d { sent = d'.sent; clock = d'.clock; drawn = d'.drawn }
    → IsListening d
        (continue (continue (send_if from o e d') (λ r. skip)) (λ u. set_state listening))
unfolding send_if
finish-if none from e d d' same = rw same refl
finish-if (some c) from e d d' same = rw (send_lem c e d') (rw same refl)

finish-IsListening :
    (env : Env) (session from content : String) (d : Daemon)
    → IsListening d (finish env session from content d)
unfolding finish deliver send_to_client
finish-IsListening env session from content d = finish-if (lookup from d.clients) from _ d _ refl

-- The prompt is not to be answered: the raw model denies it, or could not be asked.
abbrev pub IsBlocked : Result Verdict → Type 0
IsBlocked (ok v) = v.action ≡ "deny"
IsBlocked (err e) = Unit

judged-IsListening :
    (env : Env) (session from prompt : String) (r : Result Verdict) (d : Daemon)
    → IsBlocked r
    → IsListening d (judged env session from prompt r d)
unfolding judged
judged-IsListening env session from prompt (err e) d blocked =
    finish-IsListening env session from _ d
judged-IsListening env session from prompt (ok v) d blocked =
    rw blocked (finish-IsListening env session from _ d)

-- A prompt that the raw model denies, or about which it cannot be asked, ends with the daemon
-- listening again: the inference engine is not asked, no tool is invoked and no model is swapped;
-- beyond the state, the connection to the raw model and the time of the last prompt, only messages
-- are sent.
pub process_prompt-IsListening :
    (env : Env) (session from prompt : String) (d : Daemon)
    → IsBlocked (validate_prompt env prompt (routing_hints d.registry) d.raw).1
    → IsListening
        (record d {
          raw = (validate_prompt env prompt (routing_hints d.registry) d.raw).0;
          last_request = env.unix_nano d.clock;
        })
        (process_prompt env session from prompt d)
unfolding process_prompt ask_prompt touch_idle_timer
process_prompt-IsListening env session from prompt d blocked =
    judged-IsListening env session from prompt _
      (record d {
        raw = (validate_prompt env prompt (routing_hints d.registry) d.raw).0;
        last_request = env.unix_nano d.clock;
        clock = suc d.clock;
      })
      blocked
