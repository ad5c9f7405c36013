-- ===== src/Daemon/Evolution.antt =====
-- internal/daemon: how the daemon's parts may come from one state to another, by an action and by
-- what it is permitted.
pub mod Sending
pub mod Powering
pub mod Closing
use mathlib.Core.List.{◌++◌ as append}
use mathlib.Core.List
use mathlib.Core.Path.{subst}
use cognitiveosd.Prelude.{
  ℕ, suc, String, ◌≡◌, refl, sym, ◌∙◌, ap, ◌⊎◌, inl, inr, Bool, true, false, Option, none, some,
  List, [], ◌∷◌, All, if◌then◌else◌,
}
use cognitiveosd.Config.{Config}
use cognitiveosd.Mcp.{Manager, Panic}
use cognitiveosd.Mcp.Process.Managed.{Managed, Managed-trans}
use cognitiveosd.Protocol.{Body, Envelope}
use cognitiveosd.Protocol.Env.{Env}
use cognitiveosd.Raw.{Raw}
use cognitiveosd.Raw.Asked.{Asked, Asked-trans, Asked-lost}
use cognitiveosd.Wide.{Wide}
use cognitiveosd.Wide.Driven.{Driven, Driven-trans}
use cognitiveosd.Daemon.Delivery.Added.{Adds, Adds-trans, IsOwn}
use cognitiveosd.Daemon.{
  Command, Daemon, Outcome, returned, panicked, deadlocked, Run, continue, left,
}

-- The fields that the rules below are about.
pub record Core : Type 0 where
  pub raw : Raw
  pub wide : Wide
  pub mcp : Manager
  pub sent : List (ℕ × Envelope Body)
  pub config : Config
  pub listener_closed : Bool
  pub auditor_stopped : Bool
  pub commands : List Command

abbrev pub core : Daemon → Core
core d = record {
  raw = d.raw;
  wide = d.wide;
  mcp = d.mcp;
  sent = d.sent;
  config = d.config;
  listener_closed = d.listener_closed;
  auditor_stopped = d.auditor_stopped;
  commands = d.commands;
}

-- A daemon that has been wound down: no listener, no auditor and no raw model.
pub record IsDown (k : Core) : Type 0 where
  pub listener : k.listener_closed ≡ true
  pub auditor : k.auditor_stopped ≡ true
  pub no_raw : k.raw.conn ≡ none

-- What may have happened: a shutdown, and a request for a text to the inference engine.
pub record Permits : Type 1 where
  pub shutdown : Type 0
  pub generate : Type 0

-- From one core to a later one, by what is permitted.
pub record Evolves (env : Env) (May : Permits) (k l : Core) : Type 0 where
  pub raw : Asked env May.shutdown k.raw l.raw
  pub wide : Driven env May.generate k.config.inference_url k.wide l.wide
  pub mcp : Managed env k.config k.mcp l.mcp
  pub sent : Adds k.sent l.sent
  pub config : l.config ≡ k.config
  pub listener : k.listener_closed ≡ true → l.listener_closed ≡ true
  pub auditor : k.auditor_stopped ≡ true → l.auditor_stopped ≡ true
  pub still : May.shutdown ⊎ (l.listener_closed ≡ k.listener_closed)
  pub powered : (l.commands ≡ k.commands) ⊎ (May.shutdown × (k.listener_closed ≡ false) × IsDown l)

module _ (env : Env) (May : Permits) where
  pub Evolves-refl : (k : Core) → Evolves env May k k
  Evolves-refl k = record {
    raw = Asked.nothing;
    wide = Driven.nothing;
    mcp = Managed.nothing;
    sent = ([], refl, tt);
    config = refl;
    listener = λ h. h;
    auditor = λ h. h;
    still = inr refl;
    powered = inl refl;
  }

  IsDown-later : {k l : Core} → Evolves env May k l → IsDown k → IsDown l
  IsDown-later e h = record {
    listener = e.listener h.listener;
    auditor = e.auditor h.auditor;
    no_raw = Asked-lost env May.shutdown e.raw h.no_raw;
  }

  -- A listener that was open at the end was open at the start.
  open_before : (b c : Bool) → (b ≡ true → c ≡ true) → c ≡ false → b ≡ false
  open_before false c closes h = refl
  open_before true c closes h = sym (closes refl) ∙ h

  powered_then :
      (k : Core) {l m : Core}
      → (k.listener_closed ≡ true → l.listener_closed ≡ true)
      → (l.commands ≡ k.commands) ⊎ (May.shutdown × (k.listener_closed ≡ false) × IsDown l)
      → Evolves env May l m
      → (m.commands ≡ k.commands) ⊎ (May.shutdown × (k.listener_closed ≡ false) × IsDown m)
  powered_then k closes (inr (may, was_open, down)) e = inr (may, was_open, IsDown-later e down)
  powered_then k closes (inl same) e = elim e.powered [
    | inl same' ↦ inl (same' ∙ same)
    | inr (may, was_open, down) ↦ inr (may, open_before k.listener_closed _ closes was_open, down)
  ]

  still_then :
      (k : Core) {l m : Core}
      → May.shutdown ⊎ (l.listener_closed ≡ k.listener_closed)
      → Evolves env May l m
      → May.shutdown ⊎ (m.listener_closed ≡ k.listener_closed)
  still_then k (inl may) e = inl may
  still_then k (inr same) e = elim e.still [ inl may ↦ inl may | inr same' ↦ inr (same' ∙ same) ]

  pub Evolves-trans :
      {k l m : Core} → Evolves env May k l → Evolves env May l m → Evolves env May k m
  Evolves-trans {k} {l} {m} e f = record {
    raw = Asked-trans env May.shutdown e.raw f.raw;
    wide = Driven-trans env May.generate k.config.inference_url e.wide (
        subst (λ (c : Config). Driven env May.generate c.inference_url l.wide m.wide) e.config
          f.wide);
    mcp = Managed-trans e.mcp (subst (λ (c : Config). Managed env c l.mcp m.mcp) e.config f.mcp);
    sent = Adds-trans k.sent l.sent m.sent e.sent f.sent;
    config = f.config ∙ e.config;
    listener = λ h. f.listener (e.listener h);
    auditor = λ h. f.auditor (e.auditor h);
    still = still_then k e.still f;
    powered = powered_then k e.listener e.powered f;
  }

  -- What an action leaves has evolved from what it was given, however it ends.
  pub record Moves {ℓ} {A : Type ℓ} (k : Core) (o : Outcome A) : Type 0 where
    pub at : Evolves env May k (core (left o))

  pub first-Moves {ℓ} :
      {A : Type ℓ} {k l : Core} {o : Outcome A} → Evolves env May k l → Moves l o → Moves k o
  first-Moves e h = record { at = Evolves-trans e h.at }

  -- An action that has returned, and has left alone what the rules are about.
  pub returned-Moves {ℓ} : {A : Type ℓ} (a : A) (d : Daemon) → Moves (core d) (returned a d)
  returned-Moves a d = record { at = Evolves-refl (core d) }

  pub panicked-Moves {ℓ} :
      (A : Type ℓ) (p : Panic) (d : Daemon) → let o : Outcome A = panicked p d in Moves (core d) o
  panicked-Moves A p d = record { at = Evolves-refl (core d) }

  pub waiting-Moves {ℓ} :
      (A : Type ℓ) (d : Daemon) → let o : Outcome A = deadlocked d in Moves (core d) o
  waiting-Moves A d = record { at = Evolves-refl (core d) }

  pub continue-Moves {ℓ κ} :
      {A : Type ℓ} {B : Type κ} (k : Core) (o : Outcome A) (f : A → Run B)
      → Moves k o
      → ((a : A) (d : Daemon) → Moves (core d) (f a d))
      → Moves k (continue o f)
  continue-Moves k (returned a d) f h rest = first-Moves h.at (rest a d)
  continue-Moves k (panicked p d) f h rest = record { at = h.at }
  continue-Moves k (deadlocked d) f h rest = record { at = h.at }

  pub if-Moves {ℓ} :
      {A : Type ℓ} (k : Core) (b : Bool) (x y : Run A) (d : Daemon)
      → Moves k (x d)
      → Moves k (y d)
      → Moves k ((if b then x else y) d)
  if-Moves k true x y d h h' = h
  if-Moves k false x y d h h' = h'

  pub either-Moves {ℓ} :
      {A : Type ℓ} (k : Core) (b : Bool) (x y : Outcome A)
      → Moves k x
      → Moves k y
      → Moves k (if b then x else y)
  either-Moves k true x y h h' = h
  either-Moves k false x y h h' = h'

  module _ (k : Core) where
    -- The parts change by their operations, and messages are added.
    parts-Evolves :
        (r : Raw) (w : Wide) (m : Manager) (s : List (ℕ × Envelope Body))
        → Asked env May.shutdown k.raw r
        → Driven env May.generate k.config.inference_url k.wide w
        → Managed env k.config k.mcp m
        → Adds k.sent s
        → Evolves env May k (record k { raw = r; wide = w; mcp = m; sent = s })
    parts-Evolves r w m s raw wide mcp sent = record {
      raw = raw;
      wide = wide;
      mcp = mcp;
      sent = sent;
      config = refl;
      listener = λ h. h;
      auditor = λ h. h;
      still = inr refl;
      powered = inl refl;
    }

    none_added : Adds k.sent k.sent
    none_added = ([], refl, tt)

    pub raw-Evolves :
        (r : Raw) → Asked env May.shutdown k.raw r → Evolves env May k (record k { raw = r })
    raw-Evolves r a =
        parts-Evolves r k.wide k.mcp k.sent a Driven.nothing Managed.nothing none_added

    pub wide-Evolves :
        (w : Wide)
        → Driven env May.generate k.config.inference_url k.wide w
        → Evolves env May k (record k { wide = w })
    wide-Evolves w a = parts-Evolves k.raw w k.mcp k.sent Asked.nothing a Managed.nothing none_added

    pub mcp-Evolves :
        (m : Manager) → Managed env k.config k.mcp m → Evolves env May k (record k { mcp = m })
    mcp-Evolves m a = parts-Evolves k.raw k.wide m k.sent Asked.nothing Driven.nothing a none_added

    pub sent-Evolves :
        (s : List (ℕ × Envelope Body)) → Adds k.sent s → Evolves env May k (record k { sent = s })
    sent-Evolves s a =
        parts-Evolves k.raw k.wide k.mcp s Asked.nothing Driven.nothing Managed.nothing a

    pub clients-Evolves :
        (r : Raw) (w : Wide)
        → Asked env May.shutdown k.raw r
        → Driven env May.generate k.config.inference_url k.wide w
        → Evolves env May k (record k { raw = r; wide = w })
    clients-Evolves r w a b = parts-Evolves r w k.mcp k.sent a b Managed.nothing none_added
