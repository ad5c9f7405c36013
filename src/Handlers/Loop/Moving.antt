-- ===== src/Handlers/Loop/Moving.antt =====
-- internal/daemon/handlers.go: what `toolLoop` does to the daemon's parts.
use cognitiveosd.Prelude.{ℕ, zero, suc, String, Option, none, some, List, [], ◌∷◌, ◌==◌}
use cognitiveosd.Prelude.Result.{Result, ok, err}
use cognitiveosd.Mcp.{Invoked}
use cognitiveosd.Mcp.Names.{is_tool_validated}
use cognitiveosd.Mcp.Process.Managed.{Managed}
use cognitiveosd.Mcp.Process.Steps.{Step}
use cognitiveosd.Mcp.Rpc.{invoke}
use cognitiveosd.Protocol.Env.{Env}
use cognitiveosd.Raw.Asked.{validate_package-Asked}
use cognitiveosd.Raw.Requests.{PackageResult, validate_package}
use cognitiveosd.Tools.{ToolCall, parse_tool_calls}
use cognitiveosd.Wide.Driven.{Driven}
use cognitiveosd.Daemon.{Daemon, Run}
use cognitiveosd.Daemon.Evolution.{
  Permits, Moves, continue-Moves, core, first-Moves, if-Moves, mcp-Evolves, raw-Evolves,
  returned-Moves, panicked-Moves, waiting-Moves, wide-Evolves,
}
use cognitiveosd.Handlers.Loop.{
  Final, Results, approved, ask_package, continued, generate_text, invoke_tool, invoked, loop,
  max_loops, on_mcp, package_params, round, run_tools, tool_loop, tool_step,
}

module _ (env : Env) (May : Permits) where
  invoked-Moves :
      (tc : ToolCall) (i : Invoked) (d : Daemon) → Moves env May (core d) (invoked tc i d)
  unfolding invoked
  invoked-Moves tc (Invoked.panicked p) d = panicked-Moves env May Results p d
  invoked-Moves tc Invoked.waiting d = waiting-Moves env May Results d
  invoked-Moves tc (Invoked.returned (err e)) d = returned-Moves env May _ d
  invoked-Moves tc (Invoked.returned (ok r)) d = returned-Moves env May _ d

  invoke_tool-Moves : (tc : ToolCall) (d : Daemon) → Moves env May (core d) (invoke_tool env tc d)
  unfolding invoke_tool on_mcp
  invoke_tool-Moves tc d =
      let nano = env.unix_nano d.clock in
      let (m, i) = invoke env nano tc.tool tc.arguments d.mcp in
      first-Moves env May
        (mcp-Evolves env May (core d) m
          (Managed.runs Managed.nothing (Step.invokes nano tc.tool tc.arguments)))
        (invoked-Moves tc i (record d { mcp = m; clock = suc d.clock }))

  approved-Moves :
      (tc : ToolCall) (r : Result PackageResult) (d : Daemon)
      → Moves env May (core d) (approved env tc r d)
  unfolding approved
  approved-Moves tc (err e) d = returned-Moves env May _ d
  approved-Moves tc (ok r) d =
      if-Moves env May (core d) (r.status == "approved") _ _ d (invoke_tool-Moves tc d)
        (returned-Moves env May _ d)

  ask_package-Moves : (tc : ToolCall) (d : Daemon) → Moves env May (core d) (ask_package env tc d)
  unfolding ask_package
  ask_package-Moves tc d =
      let p = package_params env d.config.registry_url tc in
      let (r, a) = validate_package env p d.raw in
      first-Moves env May
        (raw-Evolves env May (core d) r (validate_package-Asked env May.shutdown p d.raw))
        (approved-Moves tc a (record d { raw = r }))

  tool_step-Moves : (tc : ToolCall) (d : Daemon) → Moves env May (core d) (tool_step env tc d)
  unfolding tool_step
  tool_step-Moves tc d =
      if-Moves env May (core d) (is_tool_validated tc.tool) _ _ d (ask_package-Moves tc d)
        (invoke_tool-Moves tc d)

  run_tools-Moves :
      (tcs : List ToolCall) (d : Daemon) → Moves env May (core d) (run_tools env tcs d)
  unfolding run_tools
  run_tools-Moves [] d = returned-Moves env May _ d
  run_tools-Moves (tc ∷ tcs) d =
      continue-Moves env May (core d) (tool_step env tc d) _ (tool_step-Moves tc d) (λ r d'.
        continue-Moves env May (core d') (run_tools env tcs d') _ (run_tools-Moves tcs d')
          (λ r' d''. returned-Moves env May _ d''))

  pub generate_text-Moves :
      May.generate
      → (prompt : String) (d : Daemon) → Moves env May (core d) (generate_text env prompt d)
  unfolding generate_text
  generate_text-Moves may prompt d = record {
    at = wide-Evolves env May (core d) _ (Driven.generates may Driven.nothing prompt);
  }

  continued-Moves :
      (response : String) (shown : List String) (next : String → Run Final) (r : Result String)
      (d : Daemon)
      → ((text : String) (d' : Daemon) → Moves env May (core d') (next text d'))
      → Moves env May (core d) (continued response shown next r d)
  continued-Moves response shown next (err e) d rest = returned-Moves env May _ d
  continued-Moves response shown next (ok text) d rest = rest text d

  round-Moves :
      May.generate
      → (prompt response : String) (shown : List String) (next : String → List String → Run Final)
        (calls : Option (List ToolCall)) (d : Daemon)
      → ((text : String) (shown' : List String) (d' : Daemon)
          → Moves env May (core d') (next text shown' d'))
      → Moves env May (core d) (round env prompt response shown next calls d)
  round-Moves may prompt response shown next none d rest = panicked-Moves env May Final _ d
  round-Moves may prompt response shown next (some []) d rest = returned-Moves env May _ d
  round-Moves may prompt response shown next (some (tc ∷ tcs)) d rest =
      continue-Moves env May (core d) (run_tools env (tc ∷ tcs) d) _ (run_tools-Moves (tc ∷ tcs) d)
        (λ r d'.
          continue-Moves env May (core d') (generate_text env _ d') _ (generate_text-Moves may _ d')
            (λ text d''. continued-Moves response _ _ text d'' (λ t. rest t _)))

  loop-Moves :
      May.generate
      → (n : ℕ) (prompt response : String) (shown : List String) (d : Daemon)
      → Moves env May (core d) (loop n env prompt response shown d)
  unfolding loop
  loop-Moves may zero prompt response shown d = returned-Moves env May _ d
  loop-Moves may (suc n) prompt response shown d =
      round-Moves may prompt response shown (loop n env prompt) (parse_tool_calls response) d
        (λ text shown'. loop-Moves may n prompt text shown')

  pub tool_loop-Moves :
      May.generate
      → (response prompt : String) (d : Daemon)
      → Moves env May (core d) (tool_loop env response prompt d)
  unfolding tool_loop
  tool_loop-Moves may response prompt d = loop-Moves may max_loops prompt response [] d
