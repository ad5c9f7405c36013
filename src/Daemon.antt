-- ===== src/Daemon.antt =====
-- internal/daemon/daemon.go and socket.go: the daemon's state, its clients and what it sends them.
-- Log lines are left out; a lock that a goroutine takes and gives back is left out too, and that it
-- waits for ever, for a lock or for an MCP process, is an outcome. The locks that a goroutine then keeps
-- are no part of the state, in which more may happen than the code comes to. A goroutine that the code starts is put on `tasks`.
pub mod Clients
pub mod Shutdown
pub mod Delivery
pub mod Closing
pub mod Idle
pub mod Evolution
pub mod Reports
use mathlib.Core.List.{◌++◌ as append}
use cognitiveosd.Prelude.{
  ℕ, suc, String, ◌++◌, Bool, true, false, Option, none, some, List, [], ◌∷◌, ◌==◌, eqb,
  if◌then◌else◌,
}
use cognitiveosd.Prelude.Dict.{Dict, lookup, insert, delete}
use cognitiveosd.Prelude.Int.{ℤ}
use cognitiveosd.Config.{Config}
use cognitiveosd.Mcp
use cognitiveosd.Mcp.{Manager, Panic, Signal}
use cognitiveosd.Protocol.{
  Body, reply, Data, Envelope, ModelRegistryEntry, error_payload, ok_payload, response_type,
}
use cognitiveosd.Protocol.Uuid.{uuid}
use cognitiveosd.Protocol.Env.{Env}
use cognitiveosd.Raw
use cognitiveosd.Raw.{Raw}
use cognitiveosd.Wide
use cognitiveosd.Wide.{Wide}

-- `State`
pub data State : Type 0 where
  idle idle_requested listening processing security shutdown : State

abbrev pub state_text : State → String
state_text idle = "idle"
state_text idle_requested = "idle_requested"
state_text listening = "listening"
state_text processing = "processing"
state_text security = "security"
state_text shutdown = "shutdown"

-- `ClientConn`: `id` is the name under which it was added, "" before that; `closed` is its channel
-- `done`, and `broken` the error of a write when the peer has gone.
pub record ClientConn : Type 0 where
  pub id : String
  pub closed : Bool
  pub broken : Option String

-- The goroutines that the handlers start.
pub data Task : Type 0 where
  process : (content session_id from : String) → Task
  tune :
      (pkg tool : String) (epochs : ℤ) (finalize : Bool) (quantize : String) (background : Bool)
      → Task

-- A command that the daemon runs.
pub data Command : Type 0 where
  command : (name : String) → List String → Command

pub record Daemon : Type 0 where
  pub config : Config
  pub state : State
  pub mcp : Manager
  pub wide : Wide
  pub raw : Raw
  pub registry : Dict ModelRegistryEntry
  pub clients : Dict ℕ
  pub conns : ℕ → ClientConn
  pub sent : List (ℕ × Envelope Body)  -- the messages written, the last one first
  pub tasks : List Task  -- the goroutines started, the last one first
  pub signals : List Signal  -- the signals to MCP processes, the last ones first
  pub commands : List Command  -- the commands run, the last one first
  pub saved : List (String × String)  -- the files written with a report, the last one first
  pub pid_file : Bool  -- whether the file with the process's number stands
  pub last_request : ℕ  -- the reading of the clock at the last prompt
  pub idle_timer : Bool  -- whether the idle timer is still to fire
  pub listener_closed : Bool
  pub auditor_stopped : Bool
  pub clock : ℕ  -- the readings of the clock so far
  pub drawn : ℕ  -- the identifiers drawn so far

-- What running a part of the daemon comes to, and the state that it leaves.
pub data Outcome {ℓ} (A : Type ℓ) : Type ℓ where
  returned : A → Daemon → Outcome A
  panicked : Panic → Daemon → Outcome A
  deadlocked : Daemon → Outcome A

abbrev pub Run {ℓ} : Type ℓ → Type ℓ
Run A = Daemon → Outcome A

abbrev pub Action : Type 0
Action = Run (Unit {0})

abbrev pub continue {ℓ κ} : {A : Type ℓ} {B : Type κ} → Outcome A → (A → Run B) → Outcome B
continue (returned a d) f = f a d
continue (panicked p d) f = panicked p d
continue (deadlocked d) f = deadlocked d

infixl 5 ◌>>=◌ ◌>>◌
abbrev pub ◌>>=◌ {ℓ κ} : {A : Type ℓ} {B : Type κ} → Run A → (A → Run B) → Run B
◌>>=◌ m f d = continue (m d) f

abbrev pub ◌>>◌ {ℓ κ} : {A : Type ℓ} {B : Type κ} → Run A → Run B → Run B
m >> k = m >>= λ _. k

abbrev pub pure {ℓ} : {A : Type ℓ} → A → Run A
pure a d = returned a d

abbrev pub skip : Action
skip d = returned tt d

-- The state that an outcome leaves.
abbrev pub left {ℓ} : {A : Type ℓ} → Outcome A → Daemon
left (returned a d) = d
left (panicked p d) = d
left (deadlocked d) = d

abbrev pub modify : (Daemon → Daemon) → Action
modify f d = returned tt (f d)

-- `SetState`
abbrev pub set_state : State → Action
set_state s d = returned tt (record d { state = s })

-- A call on one of the parts that the daemon holds.
abbrev pub on_wide {ℓ} : {A : Type ℓ} → (Wide → Wide × A) → Run A
on_wide f d = let (w, a) = f d.wide in returned a (record d { wide = w })

abbrev pub on_raw {ℓ} : {A : Type ℓ} → (Raw → Raw × A) → Run A
on_raw f d = let (r, a) = f d.raw in returned a (record d { raw = r })

-- `time.Now().UTC().Format(time.RFC3339)`
abbrev pub now : Env → Run String
now env d = returned (env.rfc3339 d.clock) (record d { clock = suc d.clock })

abbrev pub unix_nano : Env → Run ℕ
unix_nano env d = returned (env.unix_nano d.clock) (record d { clock = suc d.clock })

send_on : Bool → Option String → ℕ → Envelope Body → Run (Option String)
send_on true broken c e d = returned (some "connection closed") d
send_on false (some gone) c e d = returned (some gone) d
send_on false none c e d = returned none (record d { sent = (c, e) ∷ d.sent })

-- `ClientConn.Send`
unfoldable pub send : ℕ → Envelope Body → Run (Option String)
unfolding send_on
send c e d = send_on (d.conns c).closed (d.conns c).broken c e d

abbrev pub answer_to : {P : Type 0} → Envelope P → String → Body → Envelope Body
answer_to req time body = record {
  type = response_type req.type;
  id = req.id;
  timestamp = time;
  from = "cognitiveosd";
  payload = body;
}

-- `SendError`; a failure to send is logged.
unfoldable pub send_error : {P : Type 0} → Env → Envelope P → ℕ → String → String → Action
unfolding send
send_error env req c code message = do
  t ← now env
  send c (answer_to req t (reply (error_payload code message)))
  skip

-- `SendOK`
unfoldable pub send_ok : {P : Type 0} → Env → Envelope P → ℕ → Data → Action
unfolding send
send_ok env req c d = do t ← now env; send c (answer_to req t (reply (ok_payload d))); skip

-- `NewEnvelope`
abbrev pub new_envelope : Env → String → String → Body → Run (Envelope Body)
new_envelope env type from body d =
    returned
      (record {
        type = type;
        id = uuid env d.drawn;
        timestamp = env.rfc3339 d.clock;
        from = from;
        payload = body;
      })
      (record d { drawn = suc d.drawn; clock = suc d.clock })
