-- ===== src/Handlers/Codes/Origin.antt =====
-- internal/daemon/handlers.go: who may send the codes security and reset.
use cognitiveosd.Prelude.{ℕ, String, ◌++◌, ◌≡◌, ◌⊎◌, true, some, ◌∙◌, arith, eq_iff}
use cognitiveosd.Prelude.Text.{to_lower}
use cognitiveosd.Protocol.{SystemCodePayload, reply, error_payload}
use cognitiveosd.Protocol.Decoding.{decode_system_code}
use cognitiveosd.Protocol.Env.{Env}
use cognitiveosd.Daemon.{Daemon, returned, send_error}
use cognitiveosd.Daemon.Delivery.{replied, send_error_lem}
use cognitiveosd.Handlers.{Request, unmarshal, on_payload}
use cognitiveosd.Handlers.Codes.{handle_system_code, system_code, is_software, needs_trigger}

needs_trigger-eq_true :
    (code : String) → (code ≡ "security") ⊎ (code ≡ "reset") → needs_trigger code ≡ true
unfolding needs_trigger
needs_trigger-eq_true code h = ground (arith, eq_iff code "security", eq_iff code "reset")

is_software-eq_true :
    (origin : String)
    → (origin ≡ "keyboard") ⊎ (origin ≡ "voice") ⊎ (origin ≡ "cli")
    → is_software origin ≡ true
unfolding is_software
is_software-eq_true o h = ground (arith, eq_iff o "keyboard", eq_iff o "voice", eq_iff o "cli")

system_code-refused :
    (env : Env) (req : Request) (c : ℕ) (p : SystemCodePayload) (d : Daemon)
    → needs_trigger (to_lower p.code) ≡ true
    → is_software (to_lower p.origin) ≡ true
    → system_code env req c p d
      ≡ send_error env req c "E_UNAUTHORIZED"
          (to_lower p.code ++ " code requires physical trigger")
          d
unfolding system_code
system_code-refused env req c p d h k = rw (h, k)

-- A code security or reset that names the keyboard, the voice or the command line as its origin, in
-- any letter case, is answered with E_UNAUTHORIZED and does nothing else: no state changes, no model
-- is unloaded, no server is stopped and the raw model is not asked.
pub system_code-unauthorized :
    (env : Env) (req : Request) (c : ℕ) (p : SystemCodePayload) (d : Daemon)
    → unmarshal env decode_system_code req.payload ≡ some p
    → (to_lower p.code ≡ "security") ⊎ (to_lower p.code ≡ "reset")
    → (to_lower p.origin ≡ "keyboard") ⊎ (to_lower p.origin ≡ "voice") ⊎ (to_lower p.origin ≡ "cli")
    → handle_system_code env req c d
      ≡ returned tt (
          replied env req c
            (reply (
              error_payload "E_UNAUTHORIZED"
                (to_lower p.code ++ " code requires physical trigger")))
            d)
unfolding handle_system_code on_payload
system_code-unauthorized env req c p d parsed code origin = rw parsed (
    system_code-refused env req c p d (needs_trigger-eq_true _ code) (is_software-eq_true _ origin)
    ∙ send_error_lem env req c "E_UNAUTHORIZED" _ d)
