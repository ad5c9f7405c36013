-- ===== src/Life/Denied.antt =====
-- internal/daemon/handlers.go, raw_client.go and daemon.go: what no message can bring about, where the
-- raw model is there and refuses every system code.
use cognitiveosd.Prelude.{◌≡◌, refl, ◌∙◌, true, inl, inr, arith}
use cognitiveosd.Config.{Config}
use cognitiveosd.Protocol.Env.{Env}
use cognitiveosd.Raw.{Raw, is_ready}
use cognitiveosd.Raw.Asked.{Asked-IsConnected, IsAnswering, IsConnected}
use cognitiveosd.Raw.Connection.{IsSound}
use cognitiveosd.Daemon.{Daemon}
use cognitiveosd.Daemon.Evolution.{Permits, Evolves, core}
use cognitiveosd.Handlers.Codes.Moving.{Verdicts}
use cognitiveosd.Life.{Life, Turn, Turn-Evolves, Turns, start, later}
use cognitiveosd.Life.Invariants.{Life-IsSound}

-- Nothing that only a shutdown does has been done, and the raw model is there.
pub record IsUnharmed (d d' : Daemon) : Type 0 where
  pub raw : IsConnected d'.raw
  pub commands : d'.commands ≡ d.commands
  pub listener : d'.listener_closed ≡ d.listener_closed

IsConnected-ready : (r : Raw) → IsConnected r → is_ready r ≡ true
unfolding is_ready
IsConnected-ready r h = ground (arith, h.conn, h.ready)

ready-IsConnected : (r : Raw) → IsSound r → is_ready r ≡ true → IsConnected r
unfolding is_ready
ready-IsConnected r h ready = record {
  conn = ground (arith, h.open_conn, ready);
  ready = ground (arith, ready);
}

-- No shutdown, but texts of the engine.
abbrev guarded : Permits
guarded = record { shutdown = ⊥; generate = Unit {0} }

module _ (env : Env) (answers : IsAnswering env) (rejects : Verdicts env → ⊥) where
  Turn-IsUnharmed : {d d' d'' : Daemon} → Turn env ⊥ d' d'' → IsUnharmed d d' → IsUnharmed d d''
  Turn-IsUnharmed {d} {d'} {d''} t h =
      let e : Evolves env guarded (core d') (core d'') =
        Turn-Evolves env guarded (λ s. s) rejects
          (λ gone. ground (arith, gone, IsConnected-ready d'.raw h.raw)) (λ a. tt) t in
      record {
        raw = Asked-IsConnected env answers (λ never. never) e.raw h.raw;
        commands = elim e.powered [
          | inl same ↦ same ∙ h.commands
          | inr (never, was_open, down) ↦ absurd never
        ];
        listener = elim e.still [ inl never ↦ absurd never | inr same ↦ same ∙ h.listener ];
      }

  IsConnected-IsUnharmed : {d d' : Daemon} → IsConnected d.raw → Turns env ⊥ d d' → IsUnharmed d d'
  IsConnected-IsUnharmed up start = record { raw = up; commands = refl; listener = refl }
  IsConnected-IsUnharmed up (later l t) = Turn-IsUnharmed t (IsConnected-IsUnharmed up l)

  -- From any point of the life of a daemon at which the raw model is ready, and where that answers
  -- whatever it is asked and calls no system code valid: whatever connections come and whatever they
  -- send, in any number and order, with prompts, timers, audits and MCP servers between them and no
  -- signal from outside, no command is run, the listener stays as it was, and the raw model stays
  -- ready.
  pub Turns-IsUnharmed :
      (cfg : Config) (d d' : Daemon)
      → Life env (Unit {0}) cfg d
      → is_ready d.raw ≡ true
      → Turns env ⊥ d d'
      → IsUnharmed d d' × (is_ready d'.raw ≡ true)
  Turns-IsUnharmed cfg d d' l ready turns =
      let h =
        IsConnected-IsUnharmed (ready-IsConnected d.raw (Life-IsSound env cfg d l) ready) turns in
      (h, IsConnected-ready d'.raw h.raw)
