-- ===== src/Wide/Driven.antt =====
-- internal/daemon/wide_client.go: what the daemon makes of the client by its methods.
use cognitiveosd.Prelude.{String}
use cognitiveosd.Protocol.Env.{Env}
use cognitiveosd.Wide.{Wide, generate, load, load_adapter, load_with_id, set_system_prompt, unload}
use cognitiveosd.Wide.Atomic.{adapter_call, generate_call, load_call, perform, unload_call}
use cognitiveosd.Wide.Loaded.{IsTidy, perform-IsTidy}

-- What a client comes to by any of its methods, against the engine at one address; `May` says whether
-- it may ask for texts.
pub data Driven (env : Env) (May : Type 0) (url : String) (w : Wide) : Wide → Type 0 where
  nothing : Driven env May url w w
  generates :
      {v : Wide}
      → May
      → Driven env May url w v
      → (prompt : String) → Driven env May url w (generate env url prompt v).0
  loads :
      {v : Wide}
      → Driven env May url w v
      → (path id : String) → Driven env May url w (load_with_id env url path id v).0
  unloads :
      {v : Wide}
      → Driven env May url w v
      → (reason : String) → Driven env May url w (unload env url reason v).0
  adapts :
      {v : Wide}
      → Driven env May url w v
      → (path : String) → Driven env May url w (load_adapter env url path v).0
  prompts :
      {v : Wide}
      → Driven env May url w v
      → (prompt : String) → Driven env May url w (set_system_prompt prompt v)

module _ (env : Env) (May : Type 0) (url : String) where
  pub Driven-trans :
      {u v w : Wide} → Driven env May url u v → Driven env May url v w → Driven env May url u w
  Driven-trans a nothing = a
  Driven-trans a (generates may b prompt) = generates may (Driven-trans a b) prompt
  Driven-trans a (loads b path id) = loads (Driven-trans a b) path id
  Driven-trans a (unloads b reason) = unloads (Driven-trans a b) reason
  Driven-trans a (adapts b path) = adapts (Driven-trans a b) path
  Driven-trans a (prompts b prompt) = prompts (Driven-trans a b) prompt

  pub load-Driven : (path : String) (w : Wide) → Driven env May url w (load env url path w).0
  unfolding load
  load-Driven path w = loads nothing path ""

  prompt-IsTidy : (prompt : String) (w : Wide) → IsTidy w → IsTidy (set_system_prompt prompt w)
  unfolding set_system_prompt
  prompt-IsTidy prompt w h = record { no_name = h.no_name; no_id = h.no_id }

  pub Driven-IsTidy : {v w : Wide} → Driven env May url v w → IsTidy v → IsTidy w
  unfolding perform
  Driven-IsTidy nothing h = h
  Driven-IsTidy (generates may a prompt) h =
      perform-IsTidy env url (generate_call prompt) _ (Driven-IsTidy a h)
  Driven-IsTidy (loads a path id) h =
      perform-IsTidy env url (load_call path id) _ (Driven-IsTidy a h)
  Driven-IsTidy (unloads a reason) h =
      perform-IsTidy env url (unload_call reason) _ (Driven-IsTidy a h)
  Driven-IsTidy (adapts a path) h = perform-IsTidy env url (adapter_call path) _ (Driven-IsTidy a h)
  Driven-IsTidy (prompts a prompt) h = prompt-IsTidy prompt _ (Driven-IsTidy a h)
