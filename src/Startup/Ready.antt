-- ===== src/Startup/Ready.antt =====
-- internal/daemon/daemon.go: how `Run` comes up.
use mathlib.Core.List.{Memᴰ, ◌++◌ as append}
use mathlib.Core.List.Memᴰ
use mathlib.Core.Path.{subst}
use cognitiveosd.Prelude.{
  String, ◌≡◌, refl, true, false, Option, none, some, List, [], ◌∷◌, All, sym, ap, ◌∙◌, Bool-cases,
  inl, inr,
}
use cognitiveosd.Prelude.Result.{Result, ok, err}
use cognitiveosd.Config.{Config, ensure_dirs}
use cognitiveosd.Mcp
use cognitiveosd.Mcp.{Panic}
use cognitiveosd.Mcp.Process.{core_bridges, spawn_core_bridges}
use cognitiveosd.Protocol.Env.{DirEntry, Env}
use cognitiveosd.Raw
use cognitiveosd.Wide
use cognitiveosd.Daemon.{Daemon, Outcome, idle, continue, panicked, returned, deadlocked, ◌>>◌}
use cognitiveosd.Daemon.Delivery.{broadcast_lem}
use cognitiveosd.Daemon.Idle.{start_idle_timer}
use cognitiveosd.Startup.{
  announce, come_up, is_positive, load_first_model, new_daemon, remove_pid, scan_patches, scanned,
  seconds, start_auditor, start_up, with_dirs, with_listener, write_pid, wrote_pid,
}

-- What must be so when a start has come to its loop.
pub record IsUp (env : Env) (cfg : Config) (d : Daemon) : Type 0 where
  pub state : d.state ≡ idle
  pub timer : d.idle_timer ≡ true
  pub listener : d.listener_closed ≡ false
  pub interval : is_positive (seconds cfg.audit_interval) ≡ true
  pub bridges : All (λ x. Memᴰ x d.mcp.spawning) (core_bridges env cfg cfg.mcp_bridges)

-- How a start of the daemon `d` ends: refused, with no part of the daemon in use and no file of the
-- process's number; in the loop; or with a panic, if the audit's interval is not positive.
abbrev pub Started : Env → Config → Outcome (Option String) → Type 0
Started env cfg (returned (some e) d) =
    (d.raw ≡ Raw.new) × (d.wide ≡ Wide.new) × (d.mcp ≡ Mcp.new) × (d.pid_file ≡ false)
Started env cfg (returned none d) = IsUp env cfg d
Started env cfg (panicked p d) =
    (p ≡ Panic.no_ticker) × (is_positive (seconds cfg.audit_interval) ≡ false)
Started env cfg (deadlocked d) = ⊥

-- The daemon before it scans its patches.
record IsEarly (env : Env) (cfg : Config) (d : Daemon) : Type 0 where
  config : d.config ≡ cfg
  state : d.state ≡ idle
  listener : d.listener_closed ≡ false
  bridges : All (λ x. Memᴰ x d.mcp.spawning) (core_bridges env cfg cfg.mcp_bridges)

module _ {ℓ} {A : Type ℓ} where
  All-more :
      (w w' l : List A)
      → ((x : A) → Memᴰ x w → Memᴰ x w')
      → All (λ x. Memᴰ x w) l
      → All (λ x. Memᴰ x w') l
  All-more w w' [] f h = tt
  All-more w w' (x ∷ l) f (i, h) = (f x i, All-more w w' l f h)

  All-self : (l : List A) → All (λ x. Memᴰ x l) l
  All-self [] = tt
  All-self (x ∷ l) = (Memᴰ.head refl, All-more l (x ∷ l) l (λ y i. Memᴰ.tail i) (All-self l))

module _ (env : Env) (cfg : Config) where
  -- Behind the scan: loading, the timer and the notice.
  finished-Started :
      (d : Daemon)
      → is_positive (seconds cfg.audit_interval) ≡ true
      → IsEarly env cfg d
      → Started env cfg (
          continue
            (continue (load_first_model env d) (λ _. start_idle_timer env >> announce env))
            (λ _ d'. returned none d'))
  unfolding load_first_model start_idle_timer announce
  finished-Started d positive h = rw (broadcast_lem _ _) (record {
    state = h.state;
    timer = refl;
    listener = h.listener;
    interval = positive;
    bridges = h.bridges;
  })

  scanned-Started :
      (r : Result (List DirEntry)) (d : Daemon)
      → is_positive (seconds cfg.audit_interval) ≡ true
      → IsEarly env cfg d
      → Started env cfg (
          continue
            (continue
              (scanned env r d)
              (λ _. load_first_model env >> (start_idle_timer env >> announce env)))
            (λ _ d'. returned none d'))
  unfolding scanned
  scanned-Started (err e) d positive h = finished-Started d positive h
  scanned-Started (ok es) d positive h = finished-Started _ positive (record {
    config = h.config;
    state = h.state;
    listener = h.listener;
    bridges = All-more _ _ _ (λ x i. Memᴰ.append_right _ i) h.bridges;
  })

  bridges_early :
      (d : Daemon)
      → d.config ≡ cfg
      → All
          (λ x. Memᴰ x (append (core_bridges env d.config d.config.mcp_bridges) d.mcp.spawning))
          (core_bridges env cfg cfg.mcp_bridges)
  bridges_early d e =
      let from = core_bridges env d.config d.config.mcp_bridges in
      subst
        (λ (c : Config).
          All (λ x. Memᴰ x (append from d.mcp.spawning)) (core_bridges env c c.mcp_bridges))
        e
        (All-more from (append from d.mcp.spawning) from (λ x i. Memᴰ.append_left d.mcp.spawning i)
          (All-self from))

  come_up-Started :
      (d : Daemon)
      → d.config ≡ cfg
      → d.state ≡ idle
      → d.listener_closed ≡ false
      → Started env cfg (continue (come_up env d) (λ _ d'. returned none d'))
  unfolding come_up start_auditor scan_patches spawn_core_bridges
  come_up-Started d config state listener =
      elim (Bool-cases (is_positive (seconds d.config.audit_interval))) [
        | inr bad ↦
            rw bad
              (refl, ap (λ (c : Config). is_positive (seconds c.audit_interval)) (sym config) ∙ bad)
        | inl positive ↦ rw positive (
            scanned-Started (env.read_dir d.config.patch_dir) _
              (ap (λ (c : Config). is_positive (seconds c.audit_interval)) (sym config) ∙ positive)
              (record {
                config = config;
                state = state;
                listener = listener;
                bridges = bridges_early d config;
              }))
      ]

  listener-Started :
      (e : Option String) (d : Daemon)
      → d.config ≡ cfg
      → d.state ≡ idle
      → d.listener_closed ≡ false
      → d.raw ≡ Raw.new
      → d.wide ≡ Wide.new
      → d.mcp ≡ Mcp.new
      → Started env cfg (with_listener env e d)
  unfolding with_listener remove_pid
  listener-Started (some e) d config state listener raw wide mcp = (raw, wide, mcp, refl)
  listener-Started none d config state listener raw wide mcp =
      come_up-Started d config state listener

  pid-Started :
      (written : Option String) (e : Option String)
      → Started env cfg
          (continue (wrote_pid env written (new_daemon cfg)) (λ _. with_listener env e))
  unfolding wrote_pid new_daemon
  pid-Started (some p) e = listener-Started e (new_daemon cfg) refl refl refl refl refl refl
  pid-Started none e = listener-Started e _ refl refl refl refl refl refl

  dirs-Started : (e : Option String) → Started env cfg (with_dirs env e (new_daemon cfg))
  unfolding with_dirs write_pid new_daemon
  dirs-Started (some e) = (refl, refl, refl, refl)
  dirs-Started none = pid-Started _ _

-- A start of the daemon ends in one of three ways. It is refused, because a directory or the socket
-- is not to be had, and then the raw model, the engine and the MCP servers have not been touched and
-- no file with the process's number is left. It panics, and then the audit's interval, in
-- nanoseconds, is not positive. Or it comes to its loop, whatever the raw model, the engine and the
-- patches do, and then the interval is positive: the daemon is idle, with its listener open, the idle
-- timer set and every core bridge to be spawned.
pub start_up-Started : (env : Env) (cfg : Config) → Started env cfg (start_up env (new_daemon cfg))
unfolding start_up new_daemon
start_up-Started env cfg = dirs-Started env cfg (ensure_dirs env.mkdir_all cfg)
