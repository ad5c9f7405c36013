-- ===== src/Life/Unasked.antt =====
-- internal/daemon/handlers.go and wide_client.go: what the inference engine is not asked for, where the
-- raw model lets no prompt through.
use mathlib.Core.Path.{subst}
use cognitiveosd.Prelude.{String, ◌≡◌, List, arith, eq_iff}
use cognitiveosd.Prelude.Dict.{Dict}
use cognitiveosd.Prelude.Result.{Result}
use cognitiveosd.Config.{Config}
use cognitiveosd.Protocol.Env.{Env}
use cognitiveosd.Raw.{Raw}
use cognitiveosd.Raw.Requests.{Verdict, validate_prompt}
use cognitiveosd.Wide
use cognitiveosd.Wide.{Wide}
use cognitiveosd.Wide.Driven.{Driven}
use cognitiveosd.Daemon.{Daemon}
use cognitiveosd.Daemon.Evolution.{Evolves, Evolves-refl, Evolves-trans, Permits, core}
use cognitiveosd.Handlers.Prompt.Ends.{IsBlocked}
use cognitiveosd.Handlers.Prompt.Moving.{Allowances}
use cognitiveosd.Life.{Life, Turn-Evolves, Turns, born, start, later}
use cognitiveosd.Startup.{new_daemon}
use cognitiveosd.Startup.Moving.{start_up-Evolves}

-- Shutdowns, but no texts of the engine.
abbrev textless : Permits
textless = record { shutdown = Unit {0}; generate = ⊥ }

-- What a new client comes to by loading, unloading, adapters and system prompts alone, and no request
-- for a text.
abbrev pub IsUnasked : Env → Config → Wide → Type 0
IsUnasked env cfg w = Driven env ⊥ cfg.inference_url Wide.new w

module _ (env : Env)
    (blocks : (prompt : String) (hints : Dict (List String)) (r : Raw)
      → IsBlocked (validate_prompt env prompt hints r).1) where
  none_allowed : Allowances env → ⊥
  none_allowed (prompt, hints, r, v, same, e) =
      let denied : v.action ≡ "deny" =
        subst (λ (x : Result Verdict). IsBlocked x) same (blocks prompt hints r) in
      ground (arith, eq_iff v.action "deny", denied, e)

  turns-Evolves :
      {d d' : Daemon} → Turns env (Unit {0}) d d' → Evolves env textless (core d) (core d')
  turns-Evolves {d} start = Evolves-refl env textless (core d)
  turns-Evolves (later l t) =
      Evolves-trans env textless (turns-Evolves l)
        (Turn-Evolves env textless (λ s. tt) (λ v. tt) (λ g. tt) none_allowed t)

  -- Where the raw model denies every prompt, or cannot be asked about it, and throughout the life of a
  -- daemon, whatever is sent to it: the inference engine has not been asked for a single text. The
  -- client of the Wide Model is what it comes to by loading and unloading models and adapters, and by
  -- setting the system prompt, alone.
  pub Life-IsUnasked :
      (cfg : Config) (d : Daemon) → Life env (Unit {0}) cfg d → IsUnasked env cfg d.wide
  unfolding new_daemon Wide.new
  Life-IsUnasked cfg d (born e turns) =
      (Evolves-trans env textless (start_up-Evolves env textless cfg _ e)
        (turns-Evolves turns)).wide
