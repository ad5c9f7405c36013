-- ===== src/Daemon/Idle/Once.antt =====
-- internal/daemon/daemon.go: the idle timer over the life of the daemon. `Run` starts it once.
use cognitiveosd.Prelude.{
  suc, ◌-◌, ◌<◌, ◌≡◌, refl, sym, Bool, true, false, List, [], ◌∷◌, leb, arith, ◌∙◌,
}
use cognitiveosd.Protocol.Env.{Env}
use cognitiveosd.Daemon.{Daemon, left}
use cognitiveosd.Daemon.Idle.{fire_armed, idle_elapsed, idle_fired, idle_timeout, touch_idle_timer}

-- A prompt comes, or the timer's time is up.
pub data Event : Type 0 where
  prompted fired : Event

unfoldable pub step : Env → Event → Daemon → Daemon
unfolding touch_idle_timer idle_fired
step env prompted d = left (touch_idle_timer env d)
step env fired d = left (idle_fired env d)

unfoldable pub steps : Env → List Event → Daemon → Daemon
unfolding step
steps env [] d = d
steps env (e ∷ es) d = steps env es (step env e d)

fire-spent :
    (env : Env) (armed : Bool) (d : Daemon) → armed ≡ false → left (fire_armed env armed d) ≡ d
unfolding fire_armed
fire-spent env false d h = refl
fire-spent env true d h = cc

step-spent : (env : Env) (d : Daemon) → d.idle_timer ≡ false → step env fired d ≡ d
unfolding step idle_fired
step-spent env d spent = fire-spent env d.idle_timer d spent

-- The daemon's model and state are as they were.
abbrev IsSame : Daemon → Daemon → Type 0
IsSame d d' = (d'.wide ≡ d.wide) × (d'.state ≡ d.state)

steps-spent :
    (env : Env) (es : List Event) (d : Daemon) → d.idle_timer ≡ false → IsSame d (steps env es d)
unfolding steps
steps-spent env [] d spent = (refl, refl)
steps-spent env (prompted ∷ es) d spent =
    unfold step touch_idle_timer in
    steps-spent env es (record d { last_request = env.unix_nano d.clock; clock = suc d.clock })
      spent
steps-spent env (fired ∷ es) d spent =
    rw (step-spent env d spent, steps) (steps-spent env es d spent)

fire_recent :
    (env : Env) (armed : Bool) (d : Daemon)
    → armed ≡ d.idle_timer
    → env.unix_nano d.clock - d.last_request < idle_timeout
    → IsSame d (left (fire_armed env armed d))
      × ((left (fire_armed env armed d)).idle_timer ≡ false)
unfolding fire_armed idle_elapsed
fire_recent env false d now recent = ((refl, refl), sym now)
fire_recent env true d now recent =
    let short : leb idle_timeout (env.unix_nano d.clock - d.last_request) ≡ false = ground arith in
    rw short ((refl, refl), refl)

step-recent :
    (env : Env) (d : Daemon)
    → env.unix_nano d.clock - d.last_request < idle_timeout
    → IsSame d (step env fired d) × ((step env fired d).idle_timer ≡ false)
unfolding step idle_fired
step-recent env d recent = fire_recent env d.idle_timer d refl recent

-- If a prompt has come within the five minutes before the timer first fires, the Wide Model is never
-- unloaded for being idle, neither then nor later: through any prompts and any firings that follow,
-- however long they are apart, the engine's client and the state stay as they are.
pub steps-never_idle :
    (env : Env) (es : List Event) (d : Daemon)
    → env.unix_nano d.clock - d.last_request < idle_timeout
    → ((steps env (fired ∷ es) d).wide ≡ d.wide) × ((steps env (fired ∷ es) d).state ≡ d.state)
unfolding steps
steps-never_idle env es d recent =
    let ((wide, state), spent) = step-recent env d recent in
    let (wide', state') = steps-spent env es (step env fired d) spent in
    (wide' ∙ wide, state' ∙ state)
