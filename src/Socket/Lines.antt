-- ===== src/Socket/Lines.antt =====
-- internal/daemon/socket.go: a connection's lines, to the end.
use cognitiveosd.Prelude.{
  ℕ, String, ◌≡◌, ◌≢◌, true, Option, none, some, List, [], ◌∷◌, All, ◌==◌, Bool-cases, inl, inr,
  arith,
}
use cognitiveosd.Protocol.Env.{Env}
use cognitiveosd.Daemon.{Action, Daemon, Outcome, returned, panicked, deadlocked, continue}
use cognitiveosd.Daemon.Clients.{close, close_open, identify, add_client, remove_client}
use cognitiveosd.Daemon.Delivery.{send_lem}
use cognitiveosd.Handlers.{Request}
use cognitiveosd.Handlers.Dispatch.{handle_message}
use cognitiveosd.Handlers.Dispatch.Keeping.{Keeps, handle_message-Keeps}
use cognitiveosd.Socket.{handle_line, not_parsed, parse_line, read_loop}

-- The action has returned.
abbrev Returns : Outcome (Unit {0}) → Type 0
Returns (returned u d) = Unit
Returns (panicked p d) = ⊥
Returns (deadlocked d) = ⊥

-- The loop has returned, with its connection closed.
abbrev Ends : ℕ → Outcome (Unit {0}) → Type 0
Ends c (returned u d) = (d.conns c).closed ≡ true
Ends c (panicked p d) = ⊥
Ends c (deadlocked d) = ⊥

-- A line that is no system code.
abbrev pub IsOrdinary : Option Request → Type 0
IsOrdinary none = Unit
IsOrdinary (some req) = req.type ≢ "system_code"

continue-Returns :
    (o : Outcome (Unit {0})) (k : Action)
    → Returns o
    → ((d : Daemon) → Returns (k d))
    → Returns (continue o (λ _. k))
continue-Returns (returned u d) k h f = f d
continue-Returns (panicked p d) k h f = elim h [ ]
continue-Returns (deadlocked d) k h f = elim h [ ]

continue-Ends :
    (c : ℕ) (o : Outcome (Unit {0})) (k : Action)
    → Returns o
    → ((d : Daemon) → Ends c (k d))
    → Ends c (continue o (λ _. k))
continue-Ends c (returned u d) k h f = f d
continue-Ends c (panicked p d) k h f = elim h [ ]
continue-Ends c (deadlocked d) k h f = elim h [ ]

Keeps-Returns : (d : Daemon) (o : Outcome (Unit {0})) → Keeps d o → Returns o
Keeps-Returns d (returned u d') h = tt
Keeps-Returns d (panicked p d') h = h
Keeps-Returns d (deadlocked d') h = h

close-Ends : (c : ℕ) (d : Daemon) → Ends c (close c d)
unfolding close close_open remove_client
close-Ends c d = elim (Bool-cases (d.conns c).closed) [
  | inl shut ↦ rw shut shut
  | inr still ↦ elim (Bool-cases ((d.conns c).id == "")) [
    | inl unnamed ↦ rw (still, unnamed) (ground arith)
    | inr has_name ↦ rw (still, has_name) (ground arith)
  ]
]

module _ (env : Env) (c : ℕ) where
  identify-Returns : (from : String) (d : Daemon) → Returns (identify c from d)
  unfolding identify add_client
  identify-Returns from d = elim (Bool-cases ((d.conns c).id == "")) [
    | inl unnamed ↦ elim (Bool-cases (from == "")) [
      | inl nobody ↦ rw (unnamed, nobody) tt
      | inr somebody ↦ rw (unnamed, somebody) tt
    ]
    | inr has_name ↦ rw has_name tt
  ]

  handle_line-Returns :
      (text : String) (o : Option Request) (d : Daemon)
      → IsOrdinary o
      → Returns (handle_line env c text o d)
  unfolding handle_line not_parsed
  handle_line-Returns text none d h = rw (send_lem c _ _) tt
  handle_line-Returns text (some req) d h =
      continue-Returns (identify c req.from d) (handle_message env req c)
        (identify-Returns req.from d)
        (λ d'. Keeps-Returns d' _ (handle_message-Keeps env c req d' h))

  -- Whatever lines the peer sends, in any number, as long as none of them is a system code, and where
  -- no other goroutine comes between or holds a lock: the loop returns, and then the connection is
  -- closed.
  read_loop-Ends :
      (lines : List String) (d : Daemon)
      → All (λ text. IsOrdinary (parse_line env text)) lines
      → Ends c (read_loop env c lines d)
  unfolding read_loop
  read_loop-Ends [] d h = close-Ends c d
  read_loop-Ends (text ∷ lines) d (ordinary, h) = elim (Bool-cases (d.conns c).closed) [
    | inl shut ↦ rw shut (close-Ends c d)
    | inr still ↦ rw still (
        continue-Ends c (handle_line env c text (parse_line env text) d) (read_loop env c lines)
          (handle_line-Returns text _ d ordinary) (λ d'. read_loop-Ends lines d' h))
  ]
