-- ===== src/Socket/Table.antt =====
-- internal/daemon/socket.go and daemon.go: the connections and the table of clients, over the life of
-- the daemon.
pub mod Names
pub mod Stuck
use cognitiveosd.Prelude.{
  ℕ, String, ◌≡◌, ◌≢◌, refl, sym, ◌∙◌, true, false, Option, none, some, List, [], ◌∷◌, ◌==◌, eqb,
  eq_of_eqb, All, ap, arith, eq_iff, Bool-cases, inl, inr, if◌then◌else◌,
}
use cognitiveosd.Prelude.Dict.{Dict, delete, insert}
use cognitiveosd.Protocol.Env.{Env}
use cognitiveosd.Daemon.{
  Task, ClientConn, Daemon, Outcome, returned, panicked, deadlocked, continue, left,
}
use cognitiveosd.Daemon.Clients.{
  add_client, close, close_open, identify, mark_closed, named, remove_client, with_conn,
}
use cognitiveosd.Daemon.Delivery.{send_lem}
use cognitiveosd.Handlers.{Request}
use cognitiveosd.Handlers.Loop.Live.{Frame, frame, IsLive}
use cognitiveosd.Handlers.Prompt.{run_task}
use cognitiveosd.Handlers.Prompt.Tasks.{run_task-IsLive}
use cognitiveosd.Handlers.Dispatch.{handle_message}
use cognitiveosd.Handlers.Dispatch.Keeping.{Keeps, handle_message-Keeps}
use cognitiveosd.Socket.{handle_line, new_client_conn, not_parsed, parse_line}
use cognitiveosd.Socket.Lines.{IsOrdinary}
use cognitiveosd.Socket.Listed.{
  IsListed, IsNew, changed, changed-IsListed, delete-IsListed, delete-IsNew, insert-IsListed,
  unnamed-IsNew,
}

-- What the goroutines do to the connections: one is accepted, an open one's line is handled, one is
-- closed, a prompt or a tuning runs, or something else happens that leaves connections and table
-- alone.
pub data Move (env : Env) (d : Daemon) : Daemon → Type 0 where
  accepts : (c : ℕ) → IsNew c d.clients → Move env d (with_conn c (λ k. new_client_conn) d)
  reads :
      (c : ℕ) (text : String)
      → (d.conns c).closed ≡ false
      → IsOrdinary (parse_line env text)
      → Move env d (left (handle_line env c text (parse_line env text) d))
  closes : (c : ℕ) → Move env d (left (close c d))
  works : (t : Task) → Move env d (left (run_task env t d))
  other : (d' : Daemon) → d'.clients ≡ d.clients → d'.conns ≡ d.conns → Move env d d'

pub data Reach (env : Env) : Daemon → Type 0 where
  start : (d : Daemon) → d.clients ≡ [] → Reach env d
  later : {d d' : Daemon} → Reach env d → Move env d d' → Reach env d'

abbrev IsSound : Daemon → Type 0
IsSound d = IsListed d.conns d.clients

same-IsSound :
    (d d' : Daemon) → d'.clients ≡ d.clients → d'.conns ≡ d.conns → IsSound d → IsSound d'
same-IsSound d d' clients conns h = rw (clients, conns) h

kept-IsSound : (d : Daemon) (o : Outcome (Unit {0})) → Keeps d o → IsSound d → IsSound (left o)
kept-IsSound d (returned u d') same h = same-IsSound d d' same.0 same.1 h
kept-IsSound d (panicked p d') k h = elim k [ ]
kept-IsSound d (deadlocked d') k h = elim k [ ]

identify-IsSound :
    (c : ℕ) (from : String) (d : Daemon)
    → (d.conns c).closed ≡ false
    → IsSound d
    → IsSound (left (identify c from d))
unfolding identify add_client
identify-IsSound c from d still h = elim (Bool-cases ((d.conns c).id == "")) [
  | inr has_name ↦ rw has_name h
  | inl unnamed ↦ elim (Bool-cases (from == "")) [
    | inl nobody ↦ rw (unnamed, nobody) h
    | inr somebody ↦
        rw (unnamed, somebody)
          (insert-IsListed from c (changed c (named from) d.conns) d.clients (ground arith)
            (ground arith) (λ e. ground (arith, eq_iff from ""))
            (changed-IsListed c (named from) d.conns d.clients
              (unnamed-IsNew c d.conns d.clients ((eq_iff (d.conns c).id "").0 unnamed) h) h))
  ]
]

close-IsSound : (c : ℕ) (d : Daemon) → IsSound d → IsSound (left (close c d))
unfolding close close_open remove_client
close-IsSound c d h = elim (Bool-cases (d.conns c).closed) [
  | inl shut ↦ rw shut h
  | inr still ↦ elim (Bool-cases ((d.conns c).id == "")) [
    | inl unnamed ↦
        rw (still, unnamed)
          (changed-IsListed c mark_closed d.conns d.clients
            (unnamed-IsNew c d.conns d.clients ((eq_iff (d.conns c).id "").0 unnamed) h) h)
    | inr has_name ↦
        rw (still, has_name)
          (changed-IsListed c mark_closed d.conns (delete (d.conns c).id d.clients)
            (delete-IsNew c d.conns d.clients h)
            (delete-IsListed (d.conns c).id d.conns d.clients h))
  ]
]

continue-IsSound :
    (o : Outcome (Unit {0})) (k : Daemon → Outcome (Unit {0}))
    → IsSound (left o)
    → ((d : Daemon) → IsSound d → IsSound (left (k d)))
    → IsSound (left (continue o (λ _. k)))
continue-IsSound (returned u d) k h f = f d h
continue-IsSound (panicked p d) k h f = h
continue-IsSound (deadlocked d) k h f = h

worked-IsSound :
    (env : Env) (d : Daemon) (o : Outcome (Unit {0}))
    → IsLive env (frame d) o
    → IsSound d
    → IsSound (left o)
worked-IsSound env d (returned u d') same h =
    same-IsSound d d' (ap (λ (f : Frame). f.0) same) (ap (λ (f : Frame). f.1) same) h
worked-IsSound env d (panicked p d') same h =
    same-IsSound d d' (ap (λ (f : Frame). f.0) same) (ap (λ (f : Frame). f.1) same) h
worked-IsSound env d (deadlocked d') (same, quiet) h =
    same-IsSound d d' (ap (λ (f : Frame). f.0) same) (ap (λ (f : Frame). f.1) same) h

module _ (env : Env) where
  handle_line-IsSound :
      (c : ℕ) (text : String) (o : Option Request) (d : Daemon)
      → (d.conns c).closed ≡ false
      → IsOrdinary o
      → IsSound d
      → IsSound (left (handle_line env c text o d))
  unfolding handle_line not_parsed
  handle_line-IsSound c text none d still plain h = rw (send_lem c _ _) h
  handle_line-IsSound c text (some req) d still plain h =
      continue-IsSound (identify c req.from d) (handle_message env req c)
        (identify-IsSound c req.from d still h)
        (λ d' h'. kept-IsSound d' _ (handle_message-Keeps env c req d' plain) h')

  Move-IsSound : {d d' : Daemon} → Move env d d' → IsSound d → IsSound d'
  Move-IsSound {d} (accepts c n) h = changed-IsListed c (λ k. new_client_conn) d.conns d.clients n h
  Move-IsSound {d} (reads c text still plain) h = handle_line-IsSound c text _ d still plain h
  Move-IsSound {d} (closes c) h = close-IsSound c d h
  Move-IsSound {d} (works t) h = worked-IsSound env d _ (run_task-IsLive env t d) h
  Move-IsSound {d} (other d' clients conns) h = same-IsSound d d' clients conns h

  -- However connections come, each under a number that the table does not have, send lines and close,
  -- and prompts and tunings run, in any order, as long as no line is a system code: every entry of the
  -- table of clients is for a connection that is open and has the entry's name, which is not empty.
  pub Reach-IsListed : {d : Daemon} → Reach env d → IsListed d.conns d.clients
  Reach-IsListed (start d none_yet) = rw none_yet tt
  Reach-IsListed (later r m) = Move-IsSound m (Reach-IsListed r)
