-- ===== src/Handlers/Prompt/Tasks.antt =====
-- internal/daemon/handlers.go: what the goroutines that the handlers start leave alone.
use cognitiveosd.Prelude.{String, refl, Bool, true, false}
use cognitiveosd.Prelude.Result.{ok, err}
use cognitiveosd.Mcp.{Invoked}
use cognitiveosd.Mcp.Silent.{Hears, invoke-Hears}
use cognitiveosd.Protocol.Env.{Env}
use cognitiveosd.Daemon.{Daemon, Outcome, Task, process, tune, returned, panicked, deadlocked}
use cognitiveosd.Handlers.Loop.{on_mcp}
use cognitiveosd.Handlers.Loop.Live.{Frame, frame, IsLive}
use cognitiveosd.Handlers.Prompt.{invoke_tune, load_tuned, run_task, run_tune, tune_args, tuned}
use cognitiveosd.Handlers.Prompt.Answers.{Settles, process_prompt-Settles}

Settles-IsLive : (env : Env) (f : Frame) (o : Outcome (Unit {0})) → Settles env f o → IsLive env f o
Settles-IsLive env f (returned u d) (state, same) = same
Settles-IsLive env f (panicked p d) same = same
Settles-IsLive env f (deadlocked d) h = h

module _ (env : Env) where
  load_tuned-IsLive :
      (pkg : String) (finalize : Bool) (d : Daemon)
      → IsLive env (frame d) (load_tuned env pkg finalize d)
  unfolding load_tuned
  load_tuned-IsLive pkg false d = refl
  load_tuned-IsLive pkg true d = refl

  tuned-IsLive :
      (pkg : String) (finalize : Bool) (i : Invoked) (d : Daemon)
      → Hears env i
      → IsLive env (frame d) (tuned env pkg finalize i d)
  unfolding tuned
  tuned-IsLive pkg finalize (Invoked.panicked p) d h = refl
  tuned-IsLive pkg finalize Invoked.waiting d h = (refl, h)
  tuned-IsLive pkg finalize (Invoked.returned (err e)) d h = refl
  tuned-IsLive pkg finalize (Invoked.returned (ok r)) d h = load_tuned-IsLive pkg finalize d

  -- A goroutine that a handler started, for a prompt or a tuning: the connections and their table, the
  -- signals, the commands, the files, the listener and the auditor are as they were, also where it
  -- panics, and where it waits for ever, as it does only behind a silent MCP process.
  pub run_task-IsLive : (t : Task) (d : Daemon) → IsLive env (frame d) (run_task env t d)
  unfolding run_task run_tune invoke_tune on_mcp
  run_task-IsLive (process content session from) d =
      Settles-IsLive env (frame d) _ (process_prompt-Settles env session from content d)
  run_task-IsLive (tune pkg tool epochs finalize quantize background) d =
      tuned-IsLive pkg finalize _ _ (
        invoke-Hears env (env.unix_nano d.clock) tool
          (tune_args pkg epochs finalize quantize background) d.mcp)
