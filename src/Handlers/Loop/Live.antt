-- ===== src/Handlers/Loop/Live.antt =====
-- internal/daemon/handlers.go: when `toolLoop` waits for ever, and what it leaves alone.
use cognitiveosd.Prelude.{
  ℕ, ◌≡◌, refl, ◌∙◌, Bool, zero, suc, String, Option, none, some, List, [], ◌∷◌, ◌==◌, Bool-cases,
  inl, inr,
}
use cognitiveosd.Prelude.Dict.{Dict}
use cognitiveosd.Prelude.Result.{Result, ok, err}
use cognitiveosd.Mcp.{Invoked, Signal}
use cognitiveosd.Mcp.Silent.{Hears, IsSilent, invoke-Hears}
use cognitiveosd.Mcp.Names.{is_tool_validated}
use cognitiveosd.Protocol.Env.{Env}
use cognitiveosd.Raw.Requests.{PackageResult}
use cognitiveosd.Tools.{ToolCall, parse_tool_calls}
use cognitiveosd.Daemon.{
  ClientConn, Command, Daemon, Outcome, returned, panicked, deadlocked, Run, continue,
}
use cognitiveosd.Handlers.Loop.{
  Final, approved, ask_package, continued, generate_text, invoke_tool, invoked, loop, max_loops,
  on_mcp, round, run_tools, tool_loop, tool_step,
}

-- What a prompt leaves alone: the connections and their table, the servers' signals, the commands,
-- the files, the listener and the auditor.
abbrev pub Frame : Type 0
Frame =
    Dict ℕ × (ℕ → ClientConn) × List Signal × List Command × List (String × String) × Bool × Bool

abbrev pub frame : Daemon → Frame
frame d = (d.clients, d.conns, d.signals, d.commands, d.saved, d.listener_closed, d.auditor_stopped)

-- What is in the frame is left alone, and a wait for ever is one for a silent MCP process.
abbrev pub IsLive {ℓ} : {A : Type ℓ} → Env → Frame → Outcome A → Type 0
IsLive env f (returned a d) = frame d ≡ f
IsLive env f (panicked p d) = frame d ≡ f
IsLive env f (deadlocked d) = (frame d ≡ f) × IsSilent env

same-IsLive {ℓ} :
    {A : Type ℓ} (env : Env) (f g : Frame) (o : Outcome A) → g ≡ f → IsLive env g o → IsLive env f o
same-IsLive env f g (returned a d) e h = h ∙ e
same-IsLive env f g (panicked p d) e h = h ∙ e
same-IsLive env f g (deadlocked d) e (h, quiet) = (h ∙ e, quiet)

pub continue-IsLive {ℓ κ} :
    {A : Type ℓ} {B : Type κ} (env : Env) (f : Frame) (o : Outcome A) (k : A → Run B)
    → IsLive env f o
    → ((a : A) (d : Daemon) → IsLive env (frame d) (k a d))
    → IsLive env f (continue o k)
continue-IsLive env f (returned a d) k live rest =
    same-IsLive env f (frame d) (k a d) live (rest a d)
continue-IsLive env f (panicked p d) k live rest = live
continue-IsLive env f (deadlocked d) k live rest = live

invoked-IsLive :
    (env : Env) (tc : ToolCall) (i : Invoked) (d : Daemon)
    → Hears env i
    → IsLive env (frame d) (invoked tc i d)
unfolding invoked
invoked-IsLive env tc (Invoked.panicked p) d h = refl
invoked-IsLive env tc Invoked.waiting d h = (refl, h)
invoked-IsLive env tc (Invoked.returned (err e)) d h = refl
invoked-IsLive env tc (Invoked.returned (ok r)) d h = refl

invoke_tool-IsLive :
    (env : Env) (tc : ToolCall) (d : Daemon) → IsLive env (frame d) (invoke_tool env tc d)
unfolding invoke_tool on_mcp
invoke_tool-IsLive env tc d =
    invoked-IsLive env tc _ _ (invoke-Hears env (env.unix_nano d.clock) tc.tool tc.arguments d.mcp)

approved-IsLive :
    (env : Env) (tc : ToolCall) (r : Result PackageResult) (d : Daemon)
    → IsLive env (frame d) (approved env tc r d)
unfolding approved
approved-IsLive env tc (err e) d = refl
approved-IsLive env tc (ok r) d = elim (Bool-cases (r.status == "approved")) [
  | inl y ↦ rw y (invoke_tool-IsLive env tc d)
  | inr n ↦ rw n refl
]

tool_step-IsLive :
    (env : Env) (tc : ToolCall) (d : Daemon) → IsLive env (frame d) (tool_step env tc d)
unfolding tool_step ask_package
tool_step-IsLive env tc d = elim (Bool-cases (is_tool_validated tc.tool)) [
  | inl y ↦ rw y (approved-IsLive env tc _ _)
  | inr n ↦ rw n (invoke_tool-IsLive env tc d)
]

run_tools-IsLive :
    (env : Env) (tcs : List ToolCall) (d : Daemon) → IsLive env (frame d) (run_tools env tcs d)
unfolding run_tools
run_tools-IsLive env [] d = refl
run_tools-IsLive env (tc ∷ tcs) d =
    continue-IsLive env (frame d) (tool_step env tc d) _ (tool_step-IsLive env tc d) (λ r d'.
      continue-IsLive env (frame d') (run_tools env tcs d') _ (run_tools-IsLive env tcs d')
        (λ r' d''. refl))

continued-IsLive :
    (env : Env) (response : String) (shown : List String) (next : String → Run Final)
    (r : Result String) (d : Daemon)
    → ((text : String) (d' : Daemon) → IsLive env (frame d') (next text d'))
    → IsLive env (frame d) (continued response shown next r d)
continued-IsLive env response shown next (err e) d rest = refl
continued-IsLive env response shown next (ok text) d rest = rest text d

round-IsLive :
    (env : Env) (prompt response : String) (shown : List String)
    (next : String → List String → Run Final) (calls : Option (List ToolCall)) (d : Daemon)
    → ((text : String) (shown' : List String) (d' : Daemon)
        → IsLive env (frame d') (next text shown' d'))
    → IsLive env (frame d) (round env prompt response shown next calls d)
unfolding generate_text
round-IsLive env prompt response shown next none d rest = refl
round-IsLive env prompt response shown next (some []) d rest = refl
round-IsLive env prompt response shown next (some (tc ∷ tcs)) d rest =
    continue-IsLive env (frame d) (run_tools env (tc ∷ tcs) d) _ (run_tools-IsLive env (tc ∷ tcs) d)
      (λ r d'. continued-IsLive env response _ _ _ _ (λ text. rest text _))

loop-IsLive :
    (n : ℕ) (env : Env) (prompt response : String) (shown : List String) (d : Daemon)
    → IsLive env (frame d) (loop n env prompt response shown d)
unfolding loop
loop-IsLive zero env prompt response shown d = refl
loop-IsLive (suc n) env prompt response shown d =
    round-IsLive env prompt response shown (loop n env prompt) (parse_tool_calls response) d
      (λ text shown'. loop-IsLive n env prompt text shown')

pub tool_loop-IsLive :
    (env : Env) (response prompt : String) (d : Daemon)
    → IsLive env (frame d) (tool_loop env response prompt d)
unfolding tool_loop
tool_loop-IsLive env response prompt d = loop-IsLive max_loops env prompt response [] d
