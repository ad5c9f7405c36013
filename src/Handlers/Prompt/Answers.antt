-- ===== src/Handlers/Prompt/Answers.antt =====
-- internal/daemon/handlers.go: how `processPrompt` ends, whatever it is told.
use cognitiveosd.Prelude.{
  ℕ, suc, String, ◌≡◌, refl, ◌∙◌, Option, none, some, List, [], ◌∷◌, ◌==◌, Bool-cases, inl, inr,
}
use cognitiveosd.Prelude.Dict.{lookup}
use cognitiveosd.Prelude.Result.{Result, ok, err}
use cognitiveosd.Protocol.{Body, Envelope}
use cognitiveosd.Mcp.Silent.{IsSilent}
use cognitiveosd.Protocol.Uuid.{uuid}
use cognitiveosd.Protocol.Env.{Env}
use cognitiveosd.Raw.Requests.{Verdict}
use cognitiveosd.Daemon.{
  Daemon, listening, Outcome, returned, panicked, deadlocked, Action, continue, set_state, skip,
}
use cognitiveosd.Daemon.Idle.{touch_idle_timer}
use cognitiveosd.Daemon.Clients.{send_if, send_to_client}
use cognitiveosd.Daemon.Delivery.{send_lem}
use cognitiveosd.Handlers.Loop.{Final, generate_text, tool_loop}
use cognitiveosd.Handlers.Loop.Live.{Frame, frame, IsLive, continue-IsLive, tool_loop-IsLive}
use cognitiveosd.Handlers.Prompt.{
  answer, ask_prompt, deliver, deliver_all, deliver_tools, finish, output_of, generated, judged,
  process_prompt,
}

-- What is in the frame is left alone. If the goroutine returns, the daemon is listening; it may panic;
-- and it may wait for ever where there is a silent MCP process.
abbrev pub Settles : Env → Frame → Outcome (Unit {0}) → Type 0
Settles env f (returned u d) = (d.state ≡ listening) × (frame d ≡ f)
Settles env f (panicked p d) = frame d ≡ f
Settles env f (deadlocked d) = (frame d ≡ f) × IsSilent env

same-Settles :
    (env : Env) (f g : Frame) (o : Outcome (Unit {0})) → g ≡ f → Settles env g o → Settles env f o
same-Settles env f g (returned u d) e (h, same) = (h, same ∙ e)
same-Settles env f g (panicked p d) e h = h ∙ e
same-Settles env f g (deadlocked d) e (h, quiet) = (h ∙ e, quiet)

continue-Settles {ℓ} :
    {A : Type ℓ} (env : Env) (f : Frame) (o : Outcome A) (k : A → Action)
    → IsLive env f o
    → ((a : A) (d : Daemon) → Settles env (frame d) (k a d))
    → Settles env f (continue o k)
continue-Settles env f (returned a d) k live rest =
    same-Settles env f (frame d) (k a d) live (rest a d)
continue-Settles env f (panicked p d) k live rest = live
continue-Settles env f (deadlocked d) k live rest = live

module _ (env : Env) (session from : String) where
  send_if-IsLive :
      (o : Option ℕ) (e : Envelope Body) (d : Daemon)
      → IsLive env (frame d) (continue (send_if from o e d) (λ r. skip))
  unfolding send_if
  send_if-IsLive none e d = refl
  send_if-IsLive (some c) e d = rw (send_lem c e d) refl

  deliver-IsLive :
      (content kind : String) (d : Daemon)
      → IsLive env (frame d) (deliver env session from content kind d)
  unfolding deliver send_to_client
  deliver-IsLive content kind d =
      send_if-IsLive (lookup from d.clients)
        (record {
          type = "output_deliver";
          id = uuid env d.drawn;
          timestamp = env.rfc3339 d.clock;
          from = "cognitiveosd";
          payload = output_of env session from content kind;
        })
        (record d { drawn = suc d.drawn; clock = suc d.clock })

  finish-Settles :
      (content : String) (d : Daemon) → Settles env (frame d) (finish env session from content d)
  unfolding finish
  finish-Settles content d =
      continue-Settles env (frame d) (deliver env session from content "text" d)
        (λ u. set_state listening) (deliver-IsLive content "text" d) (λ u d'. (refl, refl))

  deliver_tools-IsLive :
      (ss : List String) (d : Daemon) → IsLive env (frame d) (deliver_tools env session from ss d)
  unfolding deliver_tools
  deliver_tools-IsLive [] d = refl
  deliver_tools-IsLive (s ∷ ss) d =
      continue-IsLive env (frame d) (deliver env session from s "tool_result" d)
        (λ u. deliver_tools env session from ss) (deliver-IsLive s "tool_result" d)
        (λ u d'. deliver_tools-IsLive ss d')

  deliver_all-Settles :
      (f : Final) (d : Daemon) → Settles env (frame d) (deliver_all env session from f d)
  unfolding deliver_all
  deliver_all-Settles (response, tools) d =
      continue-Settles env (frame d) (deliver_tools env session from tools d)
        (λ u. finish env session from response) (deliver_tools-IsLive tools d)
        (λ u d'. finish-Settles response d')

  generated-Settles :
      (prompt : String) (r : Result String) (d : Daemon)
      → Settles env (frame d) (generated env session from prompt r d)
  unfolding generated
  generated-Settles prompt (err e) d = finish-Settles _ d
  generated-Settles prompt (ok response) d =
      continue-Settles env (frame d) (tool_loop env response prompt d)
        (deliver_all env session from) (tool_loop-IsLive env response prompt d) deliver_all-Settles

  judged-Settles :
      (prompt : String) (r : Result Verdict) (d : Daemon)
      → Settles env (frame d) (judged env session from prompt r d)
  unfolding judged answer generate_text
  judged-Settles prompt (err e) d = finish-Settles _ d
  judged-Settles prompt (ok v) d = elim (Bool-cases (v.action == "deny")) [
    | inl y ↦ rw y (finish-Settles _ d)
    | inr n ↦ rw n (generated-Settles _ _ _)
  ]

  pub process_prompt-Settles :
      (prompt : String) (d : Daemon)
      → Settles env (frame d) (process_prompt env session from prompt d)
  unfolding process_prompt ask_prompt touch_idle_timer
  process_prompt-Settles prompt d = judged-Settles prompt _ _
