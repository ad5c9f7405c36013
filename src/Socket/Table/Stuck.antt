-- ===== src/Socket/Table/Stuck.antt =====
-- internal/daemon/daemon.go and socket.go: a shutdown in any state that the connections come to.
use cognitiveosd.Prelude.{ℕ, String, ◌≡◌, ◌≢◌, refl, sym, ◌∙◌, false, [], ◌∷◌, inl}
use cognitiveosd.Prelude.Dict.{Dict}
use cognitiveosd.Protocol.Env.{Env}
use cognitiveosd.Daemon.{ClientConn, Daemon}
use cognitiveosd.Daemon.Closing.Stuck.{HasOpen, IsStuck, shutdown-IsStuck}
use cognitiveosd.Daemon.Shutdown.{shutdown}
use cognitiveosd.Socket.Listed.{IsListed}
use cognitiveosd.Socket.Table.{Reach, Reach-IsListed}

IsListed-HasOpen :
    (conns : ℕ → ClientConn) (m : Dict ℕ) → m ≢ [] → IsListed conns m → HasOpen conns m
IsListed-HasOpen conns [] n h = absurd (n refl)
IsListed-HasOpen conns ((id, c) ∷ m) n ((still, name, full), h) =
    inl (still, λ e. full (sym name ∙ e))

-- In every state that the connections come to, a shutdown that finds a client in the table, with the
-- listener and the auditor not stopped before, waits for ever, and no command has run, neither for
-- its reason nor the unmounting. It does not matter which
-- clients there are, in what order they came, or which have left.
pub Reach-IsStuck :
    (env : Env) (reason : String) (d : Daemon)
    → Reach env d
    → d.listener_closed ≡ false
    → d.auditor_stopped ≡ false
    → d.clients ≢ []
    → IsStuck d.commands (shutdown env reason d)
Reach-IsStuck env reason d r open_listener running n =
    shutdown-IsStuck env reason d open_listener running
      (IsListed-HasOpen d.conns d.clients n (Reach-IsListed env r))
