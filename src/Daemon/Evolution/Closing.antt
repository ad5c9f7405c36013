-- ===== src/Daemon/Evolution/Closing.antt =====
-- internal/daemon/daemon.go: what `shutdown` does to the daemon's parts.
use cognitiveosd.Prelude.{String, ◌≡◌, refl, true, false, List, [], inr, inl, Bool-cases}
use cognitiveosd.Mcp.{Panic}
use cognitiveosd.Mcp.Process.Managed.{Managed}
use cognitiveosd.Mcp.Process.Steps.{Step}
use cognitiveosd.Protocol.Env.{Env}
use cognitiveosd.Raw
use cognitiveosd.Raw.Asked.{Asked}
use cognitiveosd.Wide.Driven.{Driven}
use cognitiveosd.Daemon.{Command, Daemon, Outcome, left}
use cognitiveosd.Daemon.Closing.{unwound, wind_down_lem, wind_down-panics, wind_down-stopped, wound}
use cognitiveosd.Daemon.Evolution.Powering.{Powers, taken_down-Powers}
use cognitiveosd.Daemon.Evolution.{
  Permits, Core, Evolves, Evolves-trans, IsDown, Moves, core, first-Moves, panicked-Moves,
  wide-Evolves,
}
use cognitiveosd.Daemon.Evolution.Sending.{broadcast_written-Adds}
use cognitiveosd.Daemon.Shutdown.{shutdown, unload_wide}

wound-IsDown : (env : Env) (reason : String) (d : Daemon) → IsDown (core (wound env reason d))
unfolding Raw.close
wound-IsDown env reason d = record { listener = refl; auditor = refl; no_raw = refl }

module _ (env : Env) (May : Permits) where
  pub unload_wide-Moves :
      (reason : String) (d : Daemon) → Moves env May (core d) (unload_wide env reason d)
  unfolding unload_wide
  unload_wide-Moves reason d = record {
    at = wide-Evolves env May (core d) _ (Driven.unloads Driven.nothing reason);
  }

  unwound-Evolves :
      May.shutdown
      → (reason : String) (d : Daemon) → Evolves env May (core d) (core (unwound env reason d))
  unwound-Evolves may reason d = record {
    raw = Asked.closes may Asked.nothing;
    wide = Driven.unloads Driven.nothing reason;
    mcp = Managed.runs Managed.nothing Step.stops;
    sent = broadcast_written-Adds d.conns d.clients _ d.sent refl;
    config = refl;
    listener = λ h. h;
    auditor = λ h. h;
    still = inr refl;
    powered = inl refl;
  }

  listener-Evolves :
      May.shutdown → (k : Core) → Evolves env May k (record k { listener_closed = true })
  listener-Evolves may k = record {
    raw = Asked.nothing;
    wide = Driven.nothing;
    mcp = Managed.nothing;
    sent = ([], refl, tt);
    config = refl;
    listener = λ h. refl;
    auditor = λ h. h;
    still = inl may;
    powered = inl refl;
  }

  auditor-Evolves : (k : Core) → Evolves env May k (record k { auditor_stopped = true })
  auditor-Evolves k = record {
    raw = Asked.nothing;
    wide = Driven.nothing;
    mcp = Managed.nothing;
    sent = ([], refl, tt);
    config = refl;
    listener = λ h. h;
    auditor = λ h. refl;
    still = inr refl;
    powered = inl refl;
  }

  -- Commands may run where an open listener has been closed and the daemon is down.
  commands-Evolves :
      (k l : Core) (run : List Command)
      → May.shutdown
      → k.listener_closed ≡ false
      → Evolves env May k l
      → IsDown l
      → Evolves env May k (record l { commands = run })
  commands-Evolves k l run may was_open e down = record {
    raw = e.raw;
    wide = e.wide;
    mcp = e.mcp;
    sent = e.sent;
    config = e.config;
    listener = e.listener;
    auditor = e.auditor;
    still = e.still;
    powered = inr (
      may,
      was_open,
      record { listener = down.listener; auditor = down.auditor; no_raw = down.no_raw },
    );
  }

  Powers-Moves :
      (k l : Core) (o : Outcome (Unit {0}))
      → May.shutdown
      → k.listener_closed ≡ false
      → Evolves env May k l
      → IsDown l
      → Powers l o
      → Moves env May k o
  Powers-Moves k l o may was_open e down h = record {
    at = rw h.at (commands-Evolves k l h.run may was_open e down);
  }

  pub shutdown-Moves :
      May.shutdown → (reason : String) (d : Daemon) → Moves env May (core d) (shutdown env reason d)
  unfolding shutdown
  shutdown-Moves may reason d =
      let start = unwound-Evolves may reason d in
      let u = unwound env reason d in
      let half = Evolves-trans env May start (listener-Evolves may (core u)) in
      let whole =
        Evolves-trans env May half (auditor-Evolves (record (core u) { listener_closed = true })) in
      elim (Bool-cases d.listener_closed) [
        | inl shut ↦
            rw (wind_down-panics env reason d shut) (
              first-Moves env May start (panicked-Moves env May (Unit {0}) Panic.close_of_closed u))
        | inr still ↦ elim (Bool-cases d.auditor_stopped) [
          | inl stopped ↦ rw (wind_down-stopped env reason d still stopped) (
              first-Moves env May half (
                panicked-Moves env May (Unit {0}) Panic.close_of_closed
                  (record u { listener_closed = true })))
          | inr running ↦ rw (wind_down_lem env reason d still running) (
              Powers-Moves (core d) (core (wound env reason d)) _ may still whole
                (wound-IsDown env reason d) (taken_down-Powers reason (wound env reason d)))
        ]
      ]

-- Wherever a shutdown ends that has found the listener open and the auditor running, the daemon is down.
pub shutdown-IsDown :
    (env : Env) (reason : String) (d : Daemon)
    → d.listener_closed ≡ false
    → d.auditor_stopped ≡ false
    → IsDown (core (left (shutdown env reason d)))
unfolding shutdown
shutdown-IsDown env reason d still running = rw (wind_down_lem env reason d still running) (
    let h = taken_down-Powers reason (wound env reason d) in
    let down = wound-IsDown env reason d in
    rw h.at (record { listener = down.listener; auditor = down.auditor; no_raw = down.no_raw }))
