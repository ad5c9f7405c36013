-- ===== src/Mcp/Resolve.antt =====
-- internal/daemon/mcp_lifecycle.go: which server a tool's name leads to. The list of servers is in
-- any order, as Go's `range` visits the map.
use cognitiveosd.Prelude.{
  ℕ, String, ◌≡◌, refl, ◌≢◌, ◌↔◌, true, false, Option, none, some, List, [], ◌∷◌, arith, ◌==◌,
  eq_iff, All, Bool-cases, inl, inr,
}
use cognitiveosd.Prelude.Dict.{
  Dict, lookup, insert, IsMap, lookup-head, lookup-tail, lookup-insert_self,
}
use cognitiveosd.Protocol.{McpTool}
use cognitiveosd.Mcp.{Server, Manager, has_tool, resolve_in, resolve_server, register, registered}

abbrev pub Offers : String → Server → Type 0
Offers tool s = has_tool tool s.tools ≡ true

-- Every server that offers the tool is the one of this name.
abbrev pub IsOnlyProvider : String → String → Dict Server → Type 0
IsOnlyProvider tool name = All (λ e. Offers tool e.1 → e.0 ≡ name)

resolve_in_sound :
    (tool : String) (m : Dict Server)
    → IsMap m
    → resolve_in tool m ≢ ""
    → (s : Server) × (lookup (resolve_in tool m) m ≡ some s) × Offers tool s
unfolding resolve_in
resolve_in_sound tool [] h e = absurd (e refl)
resolve_in_sound tool ((name, s) ∷ m) (fresh, h) e = elim (Bool-cases (has_tool tool s.tools)) [
  | inl offered ↦ rw (offered, resolve_in) (s, lookup-head name s m, offered)
  | inr other ↦
      let (t, found, offers) = resolve_in_sound tool m h (rw (other, resolve_in) at e) in
      rw (other, resolve_in) (t, lookup-tail name (resolve_in tool m) s t m fresh found, offers)
]

-- A name that the lookup returns is the name of a known server that offers the tool.
pub resolve_server_sound :
    (tool : String) (m : Manager)
    → IsMap m.servers
    → resolve_server tool m ≢ ""
    → (s : Server) × (lookup (resolve_server tool m) m.servers ≡ some s) × Offers tool s
unfolding resolve_server
resolve_server_sound tool m h e = resolve_in_sound tool m.servers h e

resolve_in_unique :
    (tool name : String) (s : Server) (m : Dict Server)
    → IsOnlyProvider tool name m
    → lookup name m ≡ some s
    → Offers tool s
    → resolve_in tool m ≡ name
unfolding resolve_in lookup
resolve_in_unique tool name s [] h e o = cc
resolve_in_unique tool name s ((k, t) ∷ m) (first, h) e o =
    ground (arith, eq_iff k name, resolve_in_unique tool name s m h)

insert-IsOnlyProvider :
    (tool name : String) (s : Server) (m : Dict Server)
    → IsOnlyProvider tool name m
    → IsOnlyProvider tool name (insert name s m)
unfolding insert
insert-IsOnlyProvider tool name s [] h = ((λ o. refl), tt)
insert-IsOnlyProvider tool name s ((k, t) ∷ m) (first, h) = elim (Bool-cases (k == name)) [
  | inl same ↦ rw same ((λ o. refl), h)
  | inr other ↦ rw other (first, insert-IsOnlyProvider tool name s m h)
]

registered-Offers :
    (tool name : String) (tools : List McpTool) (conn : ℕ) (old : Option Server)
    → has_tool tool tools ≡ true
    → Offers tool (registered name tools conn old)
registered-Offers tool name tools conn none o = o
registered-Offers tool name tools conn (some s) o = o

-- After a server has registered with a tool that no other server offers, the tool's name leads to
-- that server, whatever the order in which the servers are visited.
pub resolve_server-register :
    (tool name : String) (tools : List McpTool) (conn : ℕ) (m : Manager)
    → IsOnlyProvider tool name m.servers
    → has_tool tool tools ≡ true
    → resolve_server tool (register name tools conn m) ≡ name
unfolding resolve_server register
resolve_server-register tool name tools conn m h o =
    let s = registered name tools conn (lookup name m.servers) in
    resolve_in_unique tool name s (insert name s m.servers)
      (insert-IsOnlyProvider tool name s m.servers h) (lookup-insert_self name s m.servers)
      (registered-Offers tool name tools conn (lookup name m.servers) o)

abbrev pub HasNames : Dict Server → Type 0
HasNames m = All (λ e. e.0 ≢ "") m

resolve_in-eq-empty :
    (tool : String) (m : Dict Server)
    → HasNames m
    → (resolve_in tool m ≡ "") ↔ All (λ e. has_tool tool e.1.tools ≡ false) m
unfolding resolve_in
resolve_in-eq-empty tool [] h = (λ _. tt, λ _. refl)
resolve_in-eq-empty tool ((name, s) ∷ m) (named, h) = elim (Bool-cases (has_tool tool s.tools)) [
  | inl offered ↦ (λ e. absurd (named (rw (offered, resolve_in) at e)), λ (no_offer, _). cc)
  | inr other ↦ (
    λ e. (other, (resolve_in-eq-empty tool m h).0 (rw (other, resolve_in) at e)),
    λ (_, rest). rw (other, resolve_in) ((resolve_in-eq-empty tool m h).1 rest),
  )
]

-- With servers that have names, a tool is resolved to the empty name exactly when no server offers
-- it: a tool that some server offers is always found.
pub resolve_server-eq-empty_iff :
    (tool : String) (m : Manager)
    → HasNames m.servers
    → (resolve_server tool m ≡ "") ↔ All (λ e. has_tool tool e.1.tools ≡ false) m.servers
unfolding resolve_server
resolve_server-eq-empty_iff tool m h = resolve_in-eq-empty tool m.servers h
