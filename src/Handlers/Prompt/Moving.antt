-- ===== src/Handlers/Prompt/Moving.antt =====
-- internal/daemon/handlers.go: what the goroutines that the handlers start do to the daemon's parts.
use cognitiveosd.Prelude.{
  ℕ, suc, String, ◌≡◌, refl, if◌then◌else◌, Bool, true, false, Option, none, some, List, [], ◌∷◌,
  ◌==◌,
}
use cognitiveosd.Prelude.Dict.{Dict, lookup}
use cognitiveosd.Prelude.Int.{ℤ}
use cognitiveosd.Prelude.Result.{Result, ok, err}
use cognitiveosd.Mcp.{Invoked}
use cognitiveosd.Mcp.Process.Managed.{Managed}
use cognitiveosd.Mcp.Process.Steps.{Step}
use cognitiveosd.Mcp.Rpc.{invoke}
use cognitiveosd.Protocol.{Body, Envelope}
use cognitiveosd.Protocol.Env.{Env}
use cognitiveosd.Protocol.Uuid.{uuid}
use cognitiveosd.Raw.{Raw}
use cognitiveosd.Raw.Asked.{validate_prompt-Asked}
use cognitiveosd.Raw.Requests.{Verdict, validate_prompt}
use cognitiveosd.Registry.{routing_hints}
use cognitiveosd.Registry.Models.{hot_swap}
use cognitiveosd.Registry.Models.Moving.{hot_swap-Driven}
use cognitiveosd.Wide.Driven.{Driven}
use cognitiveosd.Daemon.{Action, Daemon, Task, process, tune, listening}
use cognitiveosd.Daemon.Clients.{send_if, send_to_client}
use cognitiveosd.Daemon.Evolution.{
  Permits, Core, Moves, continue-Moves, core, first-Moves, mcp-Evolves, panicked-Moves,
  waiting-Moves, raw-Evolves, returned-Moves, wide-Evolves,
}
use cognitiveosd.Daemon.Evolution.Sending.{send-Moves}
use cognitiveosd.Daemon.Idle.{touch_idle_timer}
use cognitiveosd.Handlers.Loop.{Final, generate_text, on_mcp, tool_loop}
use cognitiveosd.Handlers.Loop.Moving.{generate_text-Moves, tool_loop-Moves}
use cognitiveosd.Handlers.Prompt.{
  answer, ask_prompt, deliver, deliver_all, deliver_tools, finish, generated, invoke_tune, judged,
  load_tuned, output_of, process_prompt, run_task, run_tune, tune_args, tuned,
}

-- The raw model allows some prompt.
abbrev pub Allowances : Env → Type 0
Allowances env =
    (prompt : String) × (hints : Dict (List String)) × (r : Raw) × (v : Verdict) × ((validate_prompt
        env prompt hints r).1
      ≡ ok v)
    × ((v.action == "deny") ≡ false)

module _ (env : Env) (May : Permits) where
  module _ (session from : String) where
    sent_if-Moves :
        (o : Option ℕ) (e : Envelope Body) (d : Daemon)
        → e.from ≡ "cognitiveosd"
        → Moves env May (core d) (send_if from o e d)
    unfolding send_if
    sent_if-Moves none e d own = returned-Moves env May _ d
    sent_if-Moves (some c) e d own = send-Moves env May c e d own

    deliver-Moves :
        (content kind : String) (d : Daemon)
        → Moves env May (core d) (deliver env session from content kind d)
    unfolding deliver send_to_client
    deliver-Moves content kind d =
        let e : Envelope Body = record {
          type = "output_deliver";
          id = uuid env d.drawn;
          timestamp = env.rfc3339 d.clock;
          from = "cognitiveosd";
          payload = output_of env session from content kind;
        } in
        let d' = record d { drawn = suc d.drawn; clock = suc d.clock } in
        continue-Moves env May (core d') (send_if from (lookup from d'.clients) e d') _
          (sent_if-Moves (lookup from d'.clients) e d' refl)
          (λ r d''. returned-Moves env May tt d'')

    finish-Moves :
        (content : String) (d : Daemon) → Moves env May (core d) (finish env session from content d)
    unfolding finish
    finish-Moves content d =
        continue-Moves env May (core d) (deliver env session from content "text" d) _
          (deliver-Moves content "text" d)
          (λ u d'. returned-Moves env May tt (record d' { state = listening }))

    deliver_tools-Moves :
        (ss : List String) (d : Daemon)
        → Moves env May (core d) (deliver_tools env session from ss d)
    unfolding deliver_tools
    deliver_tools-Moves [] d = returned-Moves env May tt d
    deliver_tools-Moves (s ∷ ss) d =
        continue-Moves env May (core d) (deliver env session from s "tool_result" d) _
          (deliver-Moves s "tool_result" d) (λ u d'. deliver_tools-Moves ss d')

    deliver_all-Moves :
        (f : Final) (d : Daemon) → Moves env May (core d) (deliver_all env session from f d)
    unfolding deliver_all
    deliver_all-Moves (response, tools) d =
        continue-Moves env May (core d) (deliver_tools env session from tools d) _
          (deliver_tools-Moves tools d) (λ u d'. finish-Moves response d')

    generated-Moves :
        May.generate
        → (prompt : String) (r : Result String) (d : Daemon)
        → Moves env May (core d) (generated env session from prompt r d)
    unfolding generated
    generated-Moves may prompt (err e) d = finish-Moves _ d
    generated-Moves may prompt (ok response) d =
        continue-Moves env May (core d) (tool_loop env response prompt d) _
          (tool_loop-Moves env May may response prompt d) deliver_all-Moves

    answer-Moves :
        May.generate
        → (prompt model : String) (d : Daemon)
        → Moves env May (core d) (answer env session from prompt model d)
    unfolding answer
    answer-Moves may prompt model d =
        let (w, e) = hot_swap env d.config d.registry model d.wide in
        let d' = record d { wide = w } in
        first-Moves env May
          (wide-Evolves env May (core d) w
            (hot_swap-Driven env May.shutdown May.generate d.config d.registry model d.wide))
          (continue-Moves env May (core d') (generate_text env prompt d') _
            (generate_text-Moves env May may prompt d') (λ r d''. generated-Moves may prompt r d''))

    -- Behind a test that has found a prompt allowed.
    allowed-Moves :
        (k : Core) (b : Bool) (x y : Action) (d : Daemon)
        → (b ≡ false → May.generate)
        → Moves env May k (x d)
        → (May.generate → Moves env May k (y d))
        → Moves env May k ((if b then x else y) d)
    allowed-Moves k true x y d allows h h' = h
    allowed-Moves k false x y d allows h h' = h' (allows refl)

    module _ (allows : Allowances env → May.generate) where
      judged-Moves :
          (prompt : String) (hints : Dict (List String)) (r : Raw) (d : Daemon) (x : Result Verdict)
          → (validate_prompt env prompt hints r).1 ≡ x
          → Moves env May (core d) (judged env session from prompt x d)
      unfolding judged
      judged-Moves prompt hints r d (err e) same = finish-Moves _ d
      judged-Moves prompt hints r d (ok v) same =
          allowed-Moves (core d) (v.action == "deny") _ _ d
            (λ e. allows (prompt, hints, r, v, same, e)) (finish-Moves _ d)
            (λ may. answer-Moves may _ v.model d)

      process_prompt-Moves :
          (prompt : String) (d : Daemon)
          → Moves env May (core d) (process_prompt env session from prompt d)
      unfolding process_prompt ask_prompt touch_idle_timer
      process_prompt-Moves prompt d =
          let hints = routing_hints d.registry in
          let (r, v) = validate_prompt env prompt hints d.raw in
          first-Moves env May
            (raw-Evolves env May (core d) r
              (validate_prompt-Asked env May.shutdown prompt hints d.raw))
            (judged-Moves prompt hints d.raw _ v refl)

  load_tuned-Moves :
      (pkg : String) (finalize : Bool) (d : Daemon)
      → Moves env May (core d) (load_tuned env pkg finalize d)
  unfolding load_tuned
  load_tuned-Moves pkg false d = returned-Moves env May tt d
  load_tuned-Moves pkg true d = record {
    at = wide-Evolves env May (core d) _ (Driven.adapts Driven.nothing _);
  }

  tuned-Moves :
      (pkg : String) (finalize : Bool) (i : Invoked) (d : Daemon)
      → Moves env May (core d) (tuned env pkg finalize i d)
  unfolding tuned
  tuned-Moves pkg finalize (Invoked.panicked p) d = panicked-Moves env May (Unit {0}) p d
  tuned-Moves pkg finalize Invoked.waiting d = waiting-Moves env May (Unit {0}) d
  tuned-Moves pkg finalize (Invoked.returned (err e)) d = returned-Moves env May tt d
  tuned-Moves pkg finalize (Invoked.returned (ok r)) d = load_tuned-Moves pkg finalize d

  run_tune-Moves :
      (pkg tool : String) (epochs : ℤ) (finalize : Bool) (quantize : String) (background : Bool)
      (d : Daemon)
      → Moves env May (core d) (run_tune env pkg tool epochs finalize quantize background d)
  unfolding run_tune invoke_tune on_mcp
  run_tune-Moves pkg tool epochs finalize quantize background d =
      let nano = env.unix_nano d.clock in
      let args = tune_args pkg epochs finalize quantize background in
      let (m, i) = invoke env nano tool args d.mcp in
      first-Moves env May
        (mcp-Evolves env May (core d) m
          (Managed.runs Managed.nothing (Step.invokes nano tool args)))
        (tuned-Moves pkg finalize i (record d { mcp = m; clock = suc d.clock }))

  -- A goroutine that a handler started.
  pub run_task-Moves :
      (Allowances env → May.generate)
      → (t : Task) (d : Daemon) → Moves env May (core d) (run_task env t d)
  unfolding run_task
  run_task-Moves allows (process content session from) d =
      process_prompt-Moves session from allows content d
  run_task-Moves allows (tune pkg tool epochs finalize quantize background) d =
      run_tune-Moves pkg tool epochs finalize quantize background d
