-- ===== src/Tests/Servers.antt =====
-- The theorems on the MCP servers at work.
use cognitiveosd.Prelude.{ℕ, String, ◌≡◌, refl, none, some, [], ◌∷◌}
use cognitiveosd.Prelude.Dict.{lookup}
use cognitiveosd.Json.{Json, Fields, obj, end, field, get}
use cognitiveosd.Mcp.{Panic, panicked, has_tool, register, resolve_server}
use cognitiveosd.Mcp.Panics.{invoke-register-panics}
use cognitiveosd.Mcp.Resolve.{resolve_server-register}
use cognitiveosd.Mcp.Rpc.{invoke}
use cognitiveosd.Protocol.Env.{line}
use cognitiveosd.Tests.{no_servers, read_tool, willing, world}

resolve_server-register_example :
    resolve_server "fs.read" (register "fs" (read_tool ∷ []) 3 no_servers) ≡ "fs"
unfolding has_tool
resolve_server-register_example =
    resolve_server-register "fs.read" "fs" (read_tool ∷ []) 3 no_servers tt refl

invoke-register-panics_example :
    (invoke (world willing) 5 "fs.read" [] (register "fs" (read_tool ∷ []) 3 no_servers)).1
    ≡ panicked Panic.nil_encoder
unfolding has_tool lookup
invoke-register-panics_example =
    invoke-register-panics (world willing) 5 "fs.read" "fs" (read_tool ∷ []) 3 [] no_servers
      (λ e. cc) refl tt refl

-- The one answer of the processes has no error.
pub no_error :
    (n : ℕ) (name : String) (req : Json) (text : String) (resp : Fields) (e : Json)
    → (world willing).mcp n name req ≡ line text
    → (world willing).parse_json text ≡ some (obj resp)
    → get "error" resp ≡ some e
    → (fs : Fields) × (e ≡ obj fs)
no_error n name req text resp e written parsed failed =
    let t : text ≡ "result" = cc in
    let whole : some (obj (field "result" (obj end) end)) ≡ some (obj resp) = rw t at parsed in
    let same : resp ≡ field "result" (obj end) end = cc in
    let none_there : none ≡ some e = rw same at failed in cc
