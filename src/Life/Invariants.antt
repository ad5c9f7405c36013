-- ===== src/Life/Invariants.antt =====
-- internal/daemon: what is so throughout the life of a daemon.
use cognitiveosd.Prelude.{ℕ, ◌≡◌, ◌≢◌, refl, sym, ◌∙◌, ◌⊎◌, inl, inr, some, is_some, List, [], All}
use mathlib.Core.List
use mathlib.Core.List.{◌++◌ as append}
use mathlib.Core.Path.{subst}
use cognitiveosd.Config.{Config}
use cognitiveosd.Mcp
use cognitiveosd.Mcp.Process.Waited.{AllWaited, Managed-AllWaited}
use cognitiveosd.Protocol.{Body, Envelope}
use cognitiveosd.Protocol.Env.{Env}
use cognitiveosd.Raw
use cognitiveosd.Raw.{connect, is_ready, shut}
use cognitiveosd.Raw.Asked.{Asked-IsSound}
use cognitiveosd.Raw.Connection.{IsSound, connect-IsSound, is_ready-IsSound}
use cognitiveosd.Wide
use cognitiveosd.Wide.{loaded_model_id, loaded_model_name}
use cognitiveosd.Wide.Driven.{Driven-IsTidy}
use cognitiveosd.Wide.Loaded.{IsTidy, new-IsTidy, reported-IsTidy}
use cognitiveosd.Daemon.{Daemon}
use cognitiveosd.Daemon.Delivery.Added.{Adds, IsOwn}
use cognitiveosd.Daemon.Evolution.{IsDown, core}
use cognitiveosd.Startup.{new_daemon}
use cognitiveosd.Life.{Life, Life-Evolves}

-- A daemon as its clients and its peers may take it to be.
pub record IsWell (cfg : Config) (d : Daemon) : Type 0 where
  pub ready : is_ready d.raw ≡ is_some d.raw.conn
  pub open_conn : d.raw.conn ≢ some shut
  pub model_name : loaded_model_name d.wide ≡ d.wide.model_name
  pub model_id : loaded_model_id d.wide ≡ d.wide.model_id
  pub senders : All IsOwn d.sent
  pub config : d.config ≡ cfg

-- A daemon whose commands have run has been wound down before.
abbrev pub IsPowered : Daemon → Type 0
IsPowered d = (d.commands ≡ []) ⊎ IsDown (core d)

Adds-IsOwn : (sent : List (ℕ × Envelope Body)) → Adds [] sent → All IsOwn sent
Adds-IsOwn sent (new, e, own) =
    subst (λ (l : List (ℕ × Envelope Body)). All IsOwn l) (sym (e ∙ List.append-nil new)) own

module _ (env : Env) (cfg : Config) (d : Daemon) where
  pub Life-IsSound : Life env (Unit {0}) cfg d → IsSound d.raw
  unfolding Raw.new
  Life-IsSound l =
      Asked-IsSound env (Unit {0}) (Life-Evolves env l).raw (connect-IsSound env Raw.new refl refl)

  Life-IsTidy : Life env (Unit {0}) cfg d → IsTidy d.wide
  unfolding new_daemon Wide.new
  Life-IsTidy l =
      Driven-IsTidy env (Unit {0}) cfg.inference_url (Life-Evolves env l).wide new-IsTidy

  -- Throughout the life of a daemon, from a start that has come to its loop and through anything that
  -- comes then, panics and shutdowns too: the raw model counts as ready exactly when there is a
  -- connection to it, which has not been closed; the names reported of the Wide Model are the ones
  -- stored; every message that has been sent names cognitiveosd as its sender; and the configuration
  -- is the one that the daemon was made with.
  pub Life-IsWell : Life env (Unit {0}) cfg d → IsWell cfg d
  unfolding new_daemon
  Life-IsWell l =
      let e = Life-Evolves env l in
      let (ready, open_conn) = is_ready-IsSound d.raw (Life-IsSound l) in
      let (name, id) = reported-IsTidy d.wide (Life-IsTidy l) in
      record {
        ready = ready;
        open_conn = open_conn;
        model_name = name;
        model_id = id;
        senders = Adds-IsOwn d.sent e.sent;
        config = e.config;
      }

  -- Throughout the life of a daemon, with clients that register servers and take them away, with
  -- invocations, processes that start and end in any order, and shutdowns: a server in the table has a
  -- process that is still waited for under the server's name, or it has no process at all.
  pub Life-AllWaited : Life env (Unit {0}) cfg d → AllWaited (Unit {0}) d.mcp
  unfolding new_daemon Mcp.new
  Life-AllWaited l = Managed-AllWaited (Unit {0}) env cfg tt (Life-Evolves env l).mcp tt

  -- Throughout the life of a daemon, no command of a power-off, a wiping or an unmounting has been run,
  -- or the listener has been closed, the auditor stopped and the raw model let go.
  pub Life-IsPowered : Life env (Unit {0}) cfg d → IsPowered d
  unfolding new_daemon
  Life-IsPowered l = elim (Life-Evolves env l).powered [
    | inl none_run ↦ inl none_run
    | inr (may, was_open, down) ↦ inr down
  ]
