-- ===== src/Handlers/Loop/Bound.antt =====
-- internal/daemon/handlers.go and wide_client.go: how often `toolLoop` asks the inference engine.
use cognitiveosd.Prelude.{
  ℕ, zero, suc, String, ◌≡◌, refl, Option, none, some, List, [], ◌∷◌, arith, Bool-cases, ◌≤◌, inl,
  inr, ◌==◌, ◌+◌,
}
use cognitiveosd.Prelude.Result.{Result, ok, err}
use cognitiveosd.Mcp.{Invoked}
use cognitiveosd.Mcp.Names.{is_tool_validated}
use cognitiveosd.Protocol.Env.{Env}
use cognitiveosd.Raw.Requests.{PackageResult}
use cognitiveosd.Tools.{ToolCall, parse_tool_calls}
use cognitiveosd.Wide.Count.{generate-exchanges}
use cognitiveosd.Daemon.{Daemon, Outcome, returned, panicked, deadlocked, Run, left, continue}
use cognitiveosd.Handlers.Loop.{
  Final, approved, ask_package, generate_text, invoke_tool, invoked, loop, next_prompt, max_loops,
  on_mcp, run_tools, tool_loop, tool_step, round, continued,
}

-- The requests to the engine so far.
abbrev asked {ℓ} : {A : Type ℓ} → Outcome A → ℕ
asked o = (left o).wide.exchanges

invoked-asked :
    (tc : ToolCall) (i : Invoked) (d : Daemon) → asked (invoked tc i d) ≡ d.wide.exchanges
unfolding invoked
invoked-asked tc (Invoked.panicked p) d = refl
invoked-asked tc Invoked.waiting d = refl
invoked-asked tc (Invoked.returned (err e)) d = refl
invoked-asked tc (Invoked.returned (ok r)) d = refl

invoke_tool-asked :
    (env : Env) (tc : ToolCall) (d : Daemon) → asked (invoke_tool env tc d) ≡ d.wide.exchanges
unfolding invoke_tool on_mcp
invoke_tool-asked env tc d = invoked-asked tc _ _

approved-asked :
    (env : Env) (tc : ToolCall) (r : Result PackageResult) (d : Daemon)
    → asked (approved env tc r d) ≡ d.wide.exchanges
unfolding approved
approved-asked env tc (err e) d = refl
approved-asked env tc (ok r) d = elim (Bool-cases (r.status == "approved")) [
  | inl y ↦ rw y (invoke_tool-asked env tc d)
  | inr n ↦ rw n refl
]

tool_step-asked :
    (env : Env) (tc : ToolCall) (d : Daemon) → asked (tool_step env tc d) ≡ d.wide.exchanges
unfolding tool_step ask_package
tool_step-asked env tc d = elim (Bool-cases (is_tool_validated tc.tool)) [
  | inl y ↦ rw y (approved-asked env tc _ _)
  | inr n ↦ rw n (invoke_tool-asked env tc d)
]

-- A computation behind another one adds what it asks.
continue-asked {ℓ κ} :
    {A : Type ℓ} {B : Type κ} (o : Outcome A) (f : A → Run B) (n k : ℕ)
    → asked o + n ≤ k
    → ((a : A) (d : Daemon) → asked (f a d) ≤ d.wide.exchanges + n)
    → asked (continue o f) ≤ k
continue-asked (returned a d) f n k first rest = let r = rest a d in omega arith
continue-asked (panicked p d) f n k first rest = omega arith
continue-asked (deadlocked d) f n k first rest = omega arith

run_tools-asked :
    (env : Env) (tcs : List ToolCall) (d : Daemon)
    → asked (run_tools env tcs d) ≤ d.wide.exchanges + 0
unfolding run_tools
run_tools-asked env [] d = omega arith
run_tools-asked env (tc ∷ tcs) d =
    continue-asked (tool_step env tc d) _ 0 (d.wide.exchanges + 0)
      (let e = tool_step-asked env tc d in omega arith)
      (λ r d'.
        continue-asked (run_tools env tcs d') _ 0 (d'.wide.exchanges + 0)
          (let e = run_tools-asked env tcs d' in omega arith) (λ r' d''. omega arith))

generate_text-asked :
    (env : Env) (prompt : String) (d : Daemon)
    → asked (generate_text env prompt d) ≡ suc d.wide.exchanges
unfolding generate_text
generate_text-asked env prompt d = generate-exchanges env _ prompt d.wide

-- A way to go on that asks `n` times at most, behind the request that it may stand behind.
continued-asked :
    (response : String) (shown : List String) (next : String → Run Final) (r : Result String)
    (n : ℕ) (d : Daemon)
    → ((text : String) (d' : Daemon) → asked (next text d') ≤ d'.wide.exchanges + n)
    → asked (continued response shown next r d) ≤ d.wide.exchanges + n
continued-asked response shown next (err e) n d rest = omega arith
continued-asked response shown next (ok text) n d rest = rest text d

round-asked :
    (env : Env) (prompt response : String) (shown : List String)
    (next : String → List String → Run Final) (calls : Option (List ToolCall)) (n : ℕ) (d : Daemon)
    → ((text : String) (shown' : List String) (d' : Daemon)
        → asked (next text shown' d') ≤ d'.wide.exchanges + n)
    → asked (round env prompt response shown next calls d) ≤ d.wide.exchanges + suc n
round-asked env prompt response shown next none n d rest = omega arith
round-asked env prompt response shown next (some []) n d rest = omega arith
round-asked env prompt response shown next (some (tc ∷ tcs)) n d rest =
    continue-asked (run_tools env (tc ∷ tcs) d) _ (suc n) (d.wide.exchanges + suc n)
      (let e = run_tools-asked env (tc ∷ tcs) d in omega arith)
      (λ r d'.
        continue-asked (generate_text env (next_prompt prompt r.0) d') _ n
          (d'.wide.exchanges + suc n)
          (let e = generate_text-asked env (next_prompt prompt r.0) d' in omega arith)
          (λ text d''. continued-asked response _ _ text n d'' (λ t. rest t _)))

loop-asked :
    (n : ℕ) (env : Env) (prompt response : String) (shown : List String) (d : Daemon)
    → asked (loop n env prompt response shown d) ≤ d.wide.exchanges + n
unfolding loop
loop-asked zero env prompt response shown d = omega arith
loop-asked (suc n) env prompt response shown d =
    round-asked env prompt response shown (loop n env prompt) (parse_tool_calls response) n d
      (λ text shown'. loop-asked n env prompt text shown')

-- Whatever the model keeps answering, the loop asks the inference engine ten times at most.
pub tool_loop-asked :
    (env : Env) (response prompt : String) (d : Daemon)
    → (left (tool_loop env response prompt d)).wide.exchanges ≤ d.wide.exchanges + 10
unfolding tool_loop
tool_loop-asked env response prompt d = loop-asked max_loops env prompt response [] d
