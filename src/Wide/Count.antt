-- ===== src/Wide/Count.antt =====
-- internal/daemon/wide_client.go: how many requests a `Generate` makes.
use cognitiveosd.Prelude.{suc, String, ◌≡◌, ◌++◌, arith}
use cognitiveosd.Protocol.Env.{Env, EngineReply, post}
use cognitiveosd.Wide.{Wide, full_prompt, generate, generate_body, generated, sent}

generated-exchanges :
    (env : Env) (w : Wide) (r : EngineReply) → (generated env w r).0.exchanges ≡ w.exchanges
unfolding generated
generated-exchanges env w r = ground arith

pub generate-exchanges :
    (env : Env) (url prompt : String) (w : Wide)
    → (generate env url prompt w).0.exchanges ≡ suc w.exchanges
unfolding generate
generate-exchanges env url prompt w = generated-exchanges env (sent w) (
    env.engine w.exchanges
      (post (url ++ "/api/generate") (generate_body (full_prompt w.system_prompt prompt))))
