-- ===== src/Handlers/Codes/Moving.antt =====
-- internal/daemon/handlers.go: what a system code does to the daemon's parts.
use cognitiveosd.Prelude.{
  if◌then◌else◌, ◌≡◌, refl, ◌∙◌, ap, eq_iff, ℕ, String, Bool, true, false, ◌&&◌, ◌==◌,
}
use cognitiveosd.Prelude.Result.{Result, ok, err}
use cognitiveosd.Prelude.Text.{to_lower}
use cognitiveosd.Mcp.Process.Managed.{Managed}
use cognitiveosd.Mcp.Process.Steps.{Step}
use cognitiveosd.Protocol.{SystemCodePayload}
use cognitiveosd.Protocol.Env.{Env}
use cognitiveosd.Raw.{Raw, is_ready}
use cognitiveosd.Raw.Asked.{check_unlock_code-Asked, validate_system_code-Asked}
use cognitiveosd.Raw.Requests.{check_unlock_code, validate_system_code}
use cognitiveosd.Daemon.{Daemon, listening, idle, idle_requested, security, Action, ◌>>=◌}
use cognitiveosd.Daemon.Evolution.{
  Permits, Core, Moves, continue-Moves, core, first-Moves, if-Moves, mcp-Evolves, raw-Evolves,
}
use cognitiveosd.Daemon.Evolution.Closing.{shutdown-Moves, unload_wide-Moves}
use cognitiveosd.Daemon.Evolution.Sending.{error-Moves, ok-Moves}
use cognitiveosd.Daemon.Shutdown.{shutdown, shutdown_servers, unload_wide}
use cognitiveosd.Handlers.{Request}
use cognitiveosd.Handlers.Moving.{payload-Moves}
use cognitiveosd.Handlers.Codes.{
  accept, ask_raw, check_unlock, go_idle, handle_system_code, is_software, needs_trigger, reset,
  run_code, secure, system_code, unlock, unlock_checked, validated, wake,
}

-- The raw model calls some code valid.
abbrev pub Verdicts : Env → Type 0
Verdicts env =
    (code : String) × (origin : String) × (r : Raw) × (action : String) × ((validate_system_code env
        code origin r).1
      ≡ ok ("valid", action))

module _ (env : Env) (May : Permits) (req : Request) (c : ℕ) where
  servers-Moves : (d : Daemon) → Moves env May (core d) (shutdown_servers d)
  unfolding shutdown_servers
  servers-Moves d = record {
    at = mcp-Evolves env May (core d) _ (Managed.runs Managed.nothing Step.stops);
  }

  accept-Moves : (effect : String) (d : Daemon) → Moves env May (core d) (accept env req c effect d)
  unfolding accept
  accept-Moves effect d = ok-Moves env May req c _ d

  wake-Moves : (d : Daemon) → Moves env May (core d) (wake env req c d)
  unfolding wake
  wake-Moves d = accept-Moves _ (record d { state = listening })

  -- The engine's model is unloaded and the servers are stopped, and then comes the rest.
  stopped-Moves :
      (reason : String) (rest : Action) (d : Daemon)
      → ((d' : Daemon) → Moves env May (core d') (rest d'))
      → Moves env May (core d) ((unload_wide env reason >>= λ e. shutdown_servers >>= λ u. rest) d)
  stopped-Moves reason rest d h =
      continue-Moves env May (core d) (unload_wide env reason d) _
        (unload_wide-Moves env May reason d)
        (λ e d'.
          continue-Moves env May (core d') (shutdown_servers d') _ (servers-Moves d') (λ u. h))

  go_idle-Moves : (d : Daemon) → Moves env May (core d) (go_idle env req c d)
  unfolding go_idle
  go_idle-Moves d =
      stopped-Moves "idle" _ (record d { state = idle_requested })
        (λ d'. accept-Moves _ (record d' { state = idle }))

  closed-Moves :
      May.shutdown
      → (reason effect : String) (d : Daemon)
      → Moves env May (core d) ((shutdown env reason >>= λ u. accept env req c effect) d)
  closed-Moves may reason effect d =
      continue-Moves env May (core d) (shutdown env reason d) _
        (shutdown-Moves env May may reason d) (λ u d'. accept-Moves effect d')

  secure-Moves : May.shutdown → (d : Daemon) → Moves env May (core d) (secure env req c d)
  unfolding secure
  secure-Moves may d =
      stopped-Moves "security" _ (record d { state = security })
        (closed-Moves may "security_code" _)

  reset-Moves : May.shutdown → (d : Daemon) → Moves env May (core d) (reset env req c d)
  unfolding reset
  reset-Moves may d = stopped-Moves "reset" _ d (closed-Moves may "reset_code" _)

  unlock_checked-Moves :
      (r : Result (String × String)) (d : Daemon)
      → Moves env May (core d) (unlock_checked env req c r d)
  unfolding unlock_checked
  unlock_checked-Moves (err e) d = error-Moves env May req c _ _ d
  unlock_checked-Moves (ok (status, message)) d =
      if-Moves env May (core d) (status == "accepted") _ _ d (accept-Moves message d)
        (error-Moves env May req c _ _ d)

  check_unlock-Moves :
      (code : String) (d : Daemon) → Moves env May (core d) (check_unlock env req c code d)
  unfolding check_unlock
  check_unlock-Moves code d =
      let (r, a) = check_unlock_code env code "wide-model" d.raw in
      first-Moves env May
        (raw-Evolves env May (core d) r
          (check_unlock_code-Asked env May.shutdown code "wide-model" d.raw))
        (unlock_checked-Moves a (record d { raw = r }))

  unlock-Moves : (code : String) (d : Daemon) → Moves env May (core d) (unlock env req c code d)
  unfolding unlock
  unlock-Moves code d =
      if-Moves env May (core d) (code == "") _ _ d (error-Moves env May req c _ _ d) (
        if-Moves env May (core d) (is_ready d.raw) _ _ d (check_unlock-Moves code d)
          (accept-Moves _ d))

  run_code-Moves :
      May.shutdown
      → (code unlock_code : String) (d : Daemon)
      → Moves env May (core d) (run_code env req c code unlock_code d)
  unfolding run_code
  run_code-Moves may code unlock_code d =
      if-Moves env May (core d) (code == "wake") _ _ d (wake-Moves d) (
        if-Moves env May (core d) (code == "idle") _ _ d (go_idle-Moves d) (
          if-Moves env May (core d) (code == "security") _ _ d (secure-Moves may d) (
            if-Moves env May (core d) (code == "reset") _ _ d (reset-Moves may d) (
              if-Moves env May (core d) (code == "unlock") _ _ d (unlock-Moves unlock_code d)
                (error-Moves env May req c _ _ d)))))

  -- A branch behind a test that says that a shutdown may be.
  allowed-Moves :
      (k : Core) (b : Bool) (x y : Action) (d : Daemon)
      → (b ≡ true → May.shutdown)
      → (May.shutdown → Moves env May k (x d))
      → Moves env May k (y d)
      → Moves env May k ((if b then x else y) d)
  allowed-Moves k true x y d allows h h' = h (allows refl)
  allowed-Moves k false x y d allows h h' = h'

  -- A shutdown may be where the raw model calls a code valid.
  module _ (valid : Verdicts env → May.shutdown) where
    validated-Moves :
        (code origin unlock_code : String) (r : Raw) (d : Daemon)
        → (x : Result (String × String)) → (validate_system_code env code origin r).1 ≡ x
        → Moves env May (core d) (validated env req c code unlock_code x d)
    unfolding validated
    validated-Moves code origin unlock_code r d (err e) same = error-Moves env May req c _ _ d
    validated-Moves code origin unlock_code r d (ok (status, action)) same =
        allowed-Moves (core d) (status == "valid") _ _ d
          (λ e. valid (
            code,
            origin,
            r,
            action,
            same
                ∙ ap (λ (s : String). let x : Result (String × String) = ok (s, action) in x)
                    ((eq_iff status "valid").0 e),
          ))
          (λ may. run_code-Moves may code unlock_code d) (error-Moves env May req c _ _ d)

    ask_raw-Moves :
        (code origin unlock_code : String) (d : Daemon)
        → Moves env May (core d) (ask_raw env req c code origin unlock_code d)
    unfolding ask_raw
    ask_raw-Moves code origin unlock_code d =
        let (r, a) = validate_system_code env code origin d.raw in
        first-Moves env May
          (raw-Evolves env May (core d) r
            (validate_system_code-Asked env May.shutdown code origin d.raw))
          (validated-Moves code origin unlock_code d.raw (record d { raw = r }) a refl)

    -- Or where the raw model is not ready.
    system_code-Moves :
        (p : SystemCodePayload) (d : Daemon)
        → (is_ready d.raw ≡ false → May.shutdown)
        → Moves env May (core d) (system_code env req c p d)
    unfolding system_code
    system_code-Moves p d gone =
        if-Moves env May (core d)
          (needs_trigger (to_lower p.code) && is_software (to_lower p.origin)) _ _ d
          (error-Moves env May req c _ _ d) (asked_first (is_ready d.raw) gone)
      where
        asked_first :
            (b : Bool)
            → (b ≡ false → May.shutdown)
            → Moves env May (core d) (
                (if b
                    then ask_raw env req c (to_lower p.code) (to_lower p.origin) p.unlock_code
                    else run_code env req c (to_lower p.code) p.unlock_code)
                  d)
        asked_first true gone = ask_raw-Moves (to_lower p.code) (to_lower p.origin) p.unlock_code d
        asked_first false gone = run_code-Moves (gone refl) (to_lower p.code) p.unlock_code d

    pub handle_system_code-Moves :
        (d : Daemon)
        → (is_ready d.raw ≡ false → May.shutdown)
        → Moves env May (core d) (handle_system_code env req c d)
    unfolding handle_system_code
    handle_system_code-Moves d gone =
        payload-Moves env May req c (system_code env req c) _ d (λ p. system_code-Moves p d gone)
