-- ===== src/Handlers/Codes/Gate.antt =====
-- internal/daemon/handlers.go: the raw model's say in a system code.
use cognitiveosd.Prelude.{
  ℕ, String, ◌++◌, ◌≡◌, refl, ◌≢◌, ◌⊎◌, inl, inr, ◌∙◌, Bool, true, false, ◌&&◌, some, ne-beq, ap,
  Bool-cases,
}
use cognitiveosd.Prelude.Result.{Result, ok, err}
use cognitiveosd.Prelude.Text.{to_lower}
use cognitiveosd.Protocol.{
  Body, SystemCodePayload, code_accepted, error_payload, response_type, reply, ok_payload,
}
use cognitiveosd.Protocol.Decoding.{decode_system_code}
use cognitiveosd.Protocol.Env.{Env}
use cognitiveosd.Raw.{Raw, is_ready}
use cognitiveosd.Raw.Requests.{validate_system_code}
use cognitiveosd.Daemon.{Daemon, Outcome, returned, panicked, deadlocked, send_error, send_ok}
use cognitiveosd.Daemon.Delivery.{replied, written, send_error_lem, send_ok_lem}
use cognitiveosd.Handlers.{Request, unmarshal, on_payload}
use cognitiveosd.Handlers.Codes.{
  handle_system_code, is_software, needs_trigger, run_code, system_code, validated,
}

-- Nothing that a system code acts on has changed.
pub record IsUnaffected (d d' : Daemon) : Type 0 where
  pub state : d'.state ≡ d.state
  pub mcp : d'.mcp ≡ d.mcp
  pub wide : d'.wide ≡ d.wide
  pub clients : d'.clients ≡ d.clients
  pub conns : d'.conns ≡ d.conns
  pub signals : d'.signals ≡ d.signals
  pub commands : d'.commands ≡ d.commands
  pub tasks : d'.tasks ≡ d.tasks
  pub listener : d'.listener_closed ≡ d.listener_closed

replied-IsUnaffected :
    (env : Env) (req : Request) (c : ℕ) (body : Body) (d : Daemon) (r : Raw)
    → IsUnaffected d (replied env req c body (record d { raw = r }))
replied-IsUnaffected env req c body d r = record {
  state = refl;
  mcp = refl;
  wide = refl;
  clients = refl;
  conns = refl;
  signals = refl;
  commands = refl;
  tasks = refl;
  listener = refl;
}

-- The codes of the errors with which a system code is refused.
abbrev pub IsRefusal : String → Type 0
IsRefusal code =
    (code ≡ "E_UNAUTHORIZED") ⊎ ((code ≡ "E_RAW_MODEL_ERROR") ⊎ (code ≡ "E_INVALID_CODE"))

-- The handler returned, and has only sent one message, which is an error under the identifier of the
-- request. It is written unless the connection is closed or its peer has gone.
abbrev pub OnlyRefused : Request → ℕ → Daemon → Outcome (Unit {0}) → Type 0
OnlyRefused req c d (returned a d') =
    IsUnaffected d d'
    × ((time : String) × (code : String) × (message : String) × IsRefusal code
        × (d'.sent
            ≡ written d c (record {
              type = "code_accepted";
              id = req.id;
              timestamp = time;
              from = "cognitiveosd";
              payload = reply (error_payload code message);
            })))
OnlyRefused req c d (panicked p d') = ⊥
OnlyRefused req c d (deadlocked d') = ⊥

send_error-OnlyRefused :
    (env : Env) (req : Request) (c : ℕ) (code message : String) (d : Daemon) (r : Raw)
    → req.type ≡ "system_code"
    → IsRefusal code
    → OnlyRefused req c d (send_error env req c code message (record d { raw = r }))
unfolding response_type
send_error-OnlyRefused env req c code message d r kind refusal =
    rw (send_error_lem env req c code message (record d { raw = r })) (
      replied-IsUnaffected env req c (reply (error_payload code message)) d r,
      (env.rfc3339 d.clock, code, message, refusal, rw kind refl),
    )

-- The raw model did not call the code valid.
abbrev pub IsRejected : Result (String × String) → Type 0
IsRejected (ok (status, action)) = status ≢ "valid"
IsRejected (err e) = Unit

module _ (env : Env) (req : Request) (c : ℕ) (kind : req.type ≡ "system_code") where
  validated-OnlyRefused :
      (code unlock_code : String) (x : Result (String × String)) (d : Daemon) (r : Raw)
      → IsRejected x
      → OnlyRefused req c d (validated env req c code unlock_code x (record d { raw = r }))
  unfolding validated
  validated-OnlyRefused code unlock_code (err e) d r rej =
      send_error-OnlyRefused env req c "E_RAW_MODEL_ERROR" e d r kind (inr (inl refl))
  validated-OnlyRefused code unlock_code (ok (status, action)) d r rej =
      rw (ne-beq status "valid" rej) (
        send_error-OnlyRefused env req c "E_INVALID_CODE" "system code rejected by raw model" d r
          kind (inr (inr refl)))

  system_code-OnlyRefused :
      (p : SystemCodePayload) (d : Daemon)
      → is_ready d.raw ≡ true
      → IsRejected (validate_system_code env (to_lower p.code) (to_lower p.origin) d.raw).1
      → OnlyRefused req c d (system_code env req c p d)
  unfolding system_code
  system_code-OnlyRefused p d ready rej =
      elim (Bool-cases (needs_trigger (to_lower p.code) && is_software (to_lower p.origin))) [
        | inl refused ↦
            rw refused (send_error-OnlyRefused env req c "E_UNAUTHORIZED" _ d d.raw kind (inl refl))
        | inr asked ↦
            rw (asked, ready) (validated-OnlyRefused (to_lower p.code) p.unlock_code _ d _ rej)
      ]

  -- While the raw model is ready, a system code that it does not call valid (or about which it cannot
  -- be asked) is answered with one error, E_UNAUTHORIZED, E_RAW_MODEL_ERROR or E_INVALID_CODE, and has
  -- no other effect: the state, the models, the servers, the clients and the goroutines stay as they
  -- are, and no command is run.
  pub system_code-needs_valid :
      (p : SystemCodePayload) (d : Daemon)
      → unmarshal env decode_system_code req.payload ≡ some p
      → is_ready d.raw ≡ true
      → IsRejected (validate_system_code env (to_lower p.code) (to_lower p.origin) d.raw).1
      → OnlyRefused req c d (handle_system_code env req c d)
  unfolding handle_system_code on_payload
  system_code-needs_valid p d parsed ready rej = rw parsed (system_code-OnlyRefused p d ready rej)

trigger-unlock : (code : String) (b : Bool) → code ≡ "unlock" → (needs_trigger code && b) ≡ false
unfolding needs_trigger
trigger-unlock code b h = rw h

unlock-unchecked :
    (env : Env) (req : Request) (c : ℕ) (unlock_code : String) (d : Daemon)
    → is_ready d.raw ≡ false
    → unlock_code ≢ ""
    → run_code env req c "unlock" unlock_code d
      ≡ send_ok env req c (code_accepted "ok" ("unlock code " ++ unlock_code ++ " accepted")) d
unfolding run_code
unlock-unchecked env req c unlock_code d down given = rw (ne-beq unlock_code "" given) (rw down)

system_code-skips_raw :
    (env : Env) (req : Request) (c : ℕ) (p : SystemCodePayload) (d : Daemon)
    → is_ready d.raw ≡ false
    → (needs_trigger (to_lower p.code) && is_software (to_lower p.origin)) ≡ false
    → system_code env req c p d ≡ run_code env req c (to_lower p.code) p.unlock_code d
unfolding system_code
system_code-skips_raw env req c p d down free = rw (free, down)

-- While the raw model is not ready (it was not there at the start, or its connection was lost), every
-- unlock code that is not empty is accepted, from any origin, and is not checked by anything.
pub unlock-without_raw_model :
    (env : Env) (req : Request) (c : ℕ) (p : SystemCodePayload) (d : Daemon)
    → unmarshal env decode_system_code req.payload ≡ some p
    → is_ready d.raw ≡ false
    → to_lower p.code ≡ "unlock"
    → p.unlock_code ≢ ""
    → handle_system_code env req c d
      ≡ returned tt (
          replied env req c
            (reply
              (ok_payload (code_accepted "ok" ("unlock code " ++ p.unlock_code ++ " accepted"))))
            d)
unfolding handle_system_code on_payload
unlock-without_raw_model env req c p d parsed down code given = rw parsed (
    system_code-skips_raw env req c p d down (trigger-unlock (to_lower p.code) _ code)
    ∙ ap (λ k. run_code env req c k p.unlock_code d) code
    ∙ unlock-unchecked env req c p.unlock_code d down given
    ∙ send_ok_lem env req c _ d)
