-- ===== src/Mcp/Terminated.antt =====
-- internal/daemon/mcp_lifecycle.go: whom `ShutdownAll` terminates.
use mathlib.Core.List.Memᴰ
use mathlib.Core.List.{Memᴰ}
use cognitiveosd.Prelude.{
  ℕ, String, ◌≡◌, refl, ◌&&◌, Option, none, some, is_some, [], ◌∷◌, ◌==◌, Bool-cases, inl, inr,
}
use cognitiveosd.Prelude.Dict.{Dict, lookup}
use cognitiveosd.Mcp.{Manager, Server, terminate, shutdown_all, signals_of, signals_to}

signals_to-terminate :
    (o : Option ℕ) (s : Server) (pid : ℕ) → o ≡ some pid → Memᴰ (terminate pid) (signals_to o s)
unfolding signals_to
signals_to-terminate none s pid h = cc
signals_to-terminate (some p) s pid h =
    let same : terminate pid ≡ terminate p = cc in
    elim (Bool-cases (s.active && is_some s.conn)) [
      | inl y ↦ rw y (Memᴰ.tail (Memᴰ.head same))
      | inr n ↦ rw n (Memᴰ.head same)
    ]

signals_of-terminate :
    (name : String) (s : Server) (pid : ℕ) (m : Dict Server)
    → lookup name m ≡ some s
    → s.process ≡ some pid
    → Memᴰ (terminate pid) (signals_of m)
unfolding signals_of lookup
signals_of-terminate name s pid [] h p = cc
signals_of-terminate name s pid ((k, t) ∷ m) h p = elim (Bool-cases (k == name)) [
  | inl y ↦
      let here : some t ≡ some s = rw y at h in
      let pid_here : t.process ≡ some pid = cc in
      Memᴰ.append_left (signals_of m) (signals_to-terminate t.process t pid pid_here)
  | inr n ↦
      let there : lookup name m ≡ some s = rw n at h in
      Memᴰ.append_right (signals_to t.process t) (signals_of-terminate name s pid m there p)
]

-- Every server that the table holds and that has a process is sent SIGTERM by `ShutdownAll`, active
-- or not, and the table is empty behind it.
pub shutdown_all-terminate :
    (name : String) (s : Server) (pid : ℕ) (m : Manager)
    → lookup name m.servers ≡ some s
    → s.process ≡ some pid
    → Memᴰ (terminate pid) (shutdown_all m).1 × ((shutdown_all m).0.servers ≡ [])
unfolding shutdown_all
shutdown_all-terminate name s pid m h p = (signals_of-terminate name s pid m.servers h p, refl)
