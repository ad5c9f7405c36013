-- ===== src/Daemon/Evolution/Powering.antt =====
-- internal/daemon/daemon.go: what of `shutdown` comes behind the winding down.
use cognitiveosd.Prelude.{
  ℕ, String, ◌≡◌, refl, ◌∙◌, ap, Bool, true, false, List, [], ◌∷◌, ◌==◌, inr, inl, Bool-cases,
  if◌then◌else◌,
}
use cognitiveosd.Prelude.Dict.{Dict, delete}
use cognitiveosd.Daemon.{
  Action, Command, Daemon, Outcome, returned, panicked, deadlocked, Run, continue, left, ◌>>◌,
}
use cognitiveosd.Daemon.Clients.{close_holding, remove_client}
use cognitiveosd.Daemon.Evolution.{Core, core}
use cognitiveosd.Daemon.Shutdown.{
  close_all_clients, close_clients, power_down, run_command, unmount,
}

-- An action that changes nothing of a core but the commands.
pub record Powers {ℓ} {A : Type ℓ} (k : Core) (o : Outcome A) : Type 0 where
  pub run : List Command
  pub at : core (left o) ≡ record k { commands = run }

continue-Powers {ℓ κ} :
    {A : Type ℓ} {B : Type κ} (k : Core) (o : Outcome A) (f : A → Run B)
    → Powers k o
    → ((a : A) (d : Daemon) → Powers (core d) (f a d))
    → Powers k (continue o f)
continue-Powers k (returned a d) f h rest =
    let next = rest a d in
    record {
      run = next.run;
      at = next.at ∙ ap (λ (l : Core). record l { commands = next.run }) h.at;
    }
continue-Powers k (panicked p d) f h rest = record { run = h.run; at = h.at }
continue-Powers k (deadlocked d) f h rest = record { run = h.run; at = h.at }

if-Powers :
    (k : Core) (b : Bool) (x y : Action) (d : Daemon)
    → Powers k (x d)
    → Powers k (y d)
    → Powers k ((if b then x else y) d)
if-Powers k true x y d h h' = h
if-Powers k false x y d h h' = h'

close_holding-Powers : (c : ℕ) (d : Daemon) → Powers (core d) (close_holding c d)
unfolding close_holding
close_holding-Powers c d = elim (Bool-cases (d.conns c).closed) [
  | inl shut ↦ rw shut (record { run = d.commands; at = refl })
  | inr still ↦ elim (Bool-cases ((d.conns c).id == "")) [
    | inl unnamed ↦ rw (still, unnamed) (record { run = d.commands; at = refl })
    | inr has_name ↦ rw (still, has_name) (record { run = d.commands; at = refl })
  ]
]

close_clients-Powers : (m : Dict ℕ) (d : Daemon) → Powers (core d) (close_clients m d)
unfolding close_clients remove_client
close_clients-Powers [] d = record { run = d.commands; at = refl }
close_clients-Powers ((id, c) ∷ m) d =
    continue-Powers (core d) (close_holding c d) _ (close_holding-Powers c d)
      (λ u d'. close_clients-Powers m (record d' { clients = delete id d'.clients }))

power_down-Powers : (reason : String) (d : Daemon) → Powers (core d) (power_down reason d)
unfolding power_down run_command
power_down-Powers reason d =
    if-Powers (core d) (reason == "security_code") _ _ d (record { run = _; at = refl })
      (if-Powers (core d) (reason == "idle_code") _ _ d (record { run = _; at = refl })
        (if-Powers (core d) (reason == "reset_code") _ _ d (record { run = _; at = refl })
          (record { run = d.commands; at = refl })))

unmount-Powers : (d : Daemon) → Powers (core d) (unmount d)
unfolding unmount run_command
unmount-Powers d = record { run = _; at = refl }

-- What follows the winding down.
pub taken_down-Powers :
    (reason : String) (d : Daemon)
    → Powers (core d) (continue (close_all_clients d) (λ u. power_down reason >> unmount))
unfolding close_all_clients
taken_down-Powers reason d =
    continue-Powers (core d) (close_clients d.clients d) _ (close_clients-Powers d.clients d)
      (λ u d'.
        continue-Powers (core d') (power_down reason d') _ (power_down-Powers reason d')
          (λ u' d''. unmount-Powers d''))
