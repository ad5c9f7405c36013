-- ===== src/Daemon/Closing/Stuck.antt =====
-- internal/daemon/daemon.go and socket.go: a shutdown with clients that are connected.
use mathlib.Core.Bool.{false≢true}
use cognitiveosd.Prelude.{
  ℕ, String, sym, ◌≡◌, refl, ◌≢◌, ◌⊎◌, inl, inr, ◌∙◌, true, false, List, [], ◌∷◌, eq_iff, ◌==◌, eqb,
  eq_of_eqb, ne-beq, ap, Bool-cases, if◌then◌else◌,
}
use cognitiveosd.Prelude.Dict.{Dict, delete}
use cognitiveosd.Protocol.Env.{Env}
use cognitiveosd.Daemon.{
  Daemon, ClientConn, Command, Outcome, returned, panicked, deadlocked, Action, ◌>>◌, continue,
}
use cognitiveosd.Daemon.Clients.{close_holding, with_conn, mark_closed}
use cognitiveosd.Daemon.Shutdown.{close_clients, shutdown}
use cognitiveosd.Daemon.Closing.{shutdown-wound, wound}

abbrev pub IsOpen : ClientConn → Type 0
IsOpen k = (k.closed ≡ false) × (k.id ≢ "")

-- Some client in the table has an open connection that goes by a name.
abbrev pub HasOpen : (ℕ → ClientConn) → Dict ℕ → Type 0
HasOpen conns [] = ⊥
HasOpen conns ((id, c) ∷ m) = IsOpen (conns c) ⊎ HasOpen conns m

-- The goroutine waits for ever, and has run no command.
abbrev pub IsStuck : List Command → Outcome (Unit {0}) → Type 0
IsStuck commands (deadlocked d') = d'.commands ≡ commands
IsStuck commands (returned a d') = ⊥
IsStuck commands (panicked p d') = ⊥

abbrev closed_in : ℕ → (ℕ → ClientConn) → ℕ → ClientConn
closed_in c conns k = if eqb k c then mark_closed (conns k) else conns k

HasOpen-closed_in :
    (c : ℕ) (m : Dict ℕ) (conns : ℕ → ClientConn)
    → (conns c).id ≡ ""
    → HasOpen conns m
    → HasOpen (closed_in c conns) m
HasOpen-closed_in c [] conns unnamed h = h
HasOpen-closed_in c ((id, k) ∷ m) conns unnamed (inl (o, n)) = inl (kept (Bool-cases (eqb k c)))
  where
    kept : (eqb k c ≡ true) ⊎ (eqb k c ≡ false) → IsOpen (closed_in c conns k)
    kept (inl same) = absurd (n (ap (λ i. (conns i).id) (eq_of_eqb k c same) ∙ unnamed))
    kept (inr other) = rw other (o, n)
HasOpen-closed_in c ((id, k) ∷ m) conns unnamed (inr h) =
    inr (HasOpen-closed_in c m conns unnamed h)

-- What closing one client under the lock comes to.
close_holding-closed :
    (c : ℕ) (d : Daemon) → (d.conns c).closed ≡ true → close_holding c d ≡ returned tt d
unfolding close_holding
close_holding-closed c d h = rw h

close_holding-unnamed :
    (c : ℕ) (d : Daemon)
    → (d.conns c).closed ≡ false
    → (d.conns c).id ≡ ""
    → close_holding c d ≡ returned tt (with_conn c mark_closed d)
unfolding close_holding
close_holding-unnamed c d h n = rw (h, n)

close_holding-open :
    (c : ℕ) (d : Daemon)
    → IsOpen (d.conns c)
    → close_holding c d ≡ deadlocked (with_conn c mark_closed d)
unfolding close_holding
close_holding-open c d (h, n) = rw (h, ne-beq (d.conns c).id "" n)

abbrev without_client : String → Daemon → Daemon
without_client id d = record d { clients = delete id d.clients }

close_clients-returned :
    (id : String) (c : ℕ) (m : Dict ℕ) (d d' : Daemon)
    → close_holding c d ≡ returned tt d'
    → close_clients ((id, c) ∷ m) d ≡ close_clients m (without_client id d')
unfolding close_clients
close_clients-returned id c m d d' h = rw (h, ◌>>◌)

close_clients-deadlocked :
    (id : String) (c : ℕ) (m : Dict ℕ) (d d' : Daemon)
    → close_holding c d ≡ deadlocked d'
    → close_clients ((id, c) ∷ m) d ≡ deadlocked d'
unfolding close_clients
close_clients-deadlocked id c m d d' h = rw (h, ◌>>◌)

close_clients-IsStuck :
    (m : Dict ℕ) (d : Daemon) → HasOpen d.conns m → IsStuck d.commands (close_clients m d)
close_clients-IsStuck [] d h = absurd h
close_clients-IsStuck ((id, c) ∷ m) d (inl o) =
    rw (close_clients-deadlocked id c m d _ (close_holding-open c d o)) refl
close_clients-IsStuck ((id, c) ∷ m) d (inr h) = elim (Bool-cases (d.conns c).closed) [
  | inl shut ↦
      rw (close_clients-returned id c m d d (close_holding-closed c d shut))
        (close_clients-IsStuck m (without_client id d) h)
  | inr still ↦ elim (Bool-cases ((d.conns c).id == "")) [
    | inl unnamed ↦
        let no_name : (d.conns c).id ≡ "" = (eq_iff (d.conns c).id "").0 unnamed in
        rw (close_clients-returned id c m d _ (close_holding-unnamed c d still no_name)) (
          close_clients-IsStuck m (without_client id (with_conn c mark_closed d))
            (HasOpen-closed_in c m d.conns no_name h))
    | inr has_name ↦
        rw
          (close_clients-deadlocked id c m d _ (
            close_holding-open c d
              (still, λ e. false≢true (sym has_name ∙ (eq_iff (d.conns c).id "").1 e))))
          refl
  ]
]

continue-IsStuck :
    (cs : List Command) (o : Outcome (Unit {0})) (k : Unit {0} → Action)
    → IsStuck cs o
    → IsStuck cs (continue o k)
continue-IsStuck cs (deadlocked d) k h = h
continue-IsStuck cs (returned a d) k h = elim h [ ]
continue-IsStuck cs (panicked p d) k h = elim h [ ]

-- If some client in the table still has an open connection, `shutdown` never ends: it closes that
-- connection while it holds the clients' lock, and closing waits for that lock. Then none of the
-- commands that follow has run, neither for the reason nor the unmounting.
pub shutdown-IsStuck :
    (env : Env) (reason : String) (d : Daemon)
    → d.listener_closed ≡ false
    → d.auditor_stopped ≡ false
    → HasOpen d.conns d.clients
    → IsStuck d.commands (shutdown env reason d)
shutdown-IsStuck env reason d open_listener running h =
    rw (shutdown-wound env reason d open_listener running) (
      continue-IsStuck d.commands (close_clients d.clients (wound env reason d)) _
        (close_clients-IsStuck d.clients (wound env reason d) h))
