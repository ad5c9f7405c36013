-- ===== src/Wide/Loaded.antt =====
-- internal/daemon/wide_client.go: the loaded model over any sequence of operations.
use cognitiveosd.Prelude.{String, ◌≡◌, false, List, [], ◌∷◌, arith}
use cognitiveosd.Protocol.Env.{Env}
use cognitiveosd.Wide.{Wide, new, loaded_model_name, loaded_model_id}
use cognitiveosd.Wide.Atomic.{Call, generate_call, load_call, unload_call, adapter_call, perform}

-- With no model loaded, the names are empty.
pub record IsTidy (w : Wide) : Type 0 where
  pub no_name : w.loaded ≡ false → w.model_name ≡ ""
  pub no_id : w.loaded ≡ false → w.model_id ≡ ""

pub new-IsTidy : IsTidy new
unfolding new
new-IsTidy = ground arith

pub perform-IsTidy :
    (env : Env) (url : String) (c : Call) (w : Wide) → IsTidy w → IsTidy (perform env url c w).0
unfolding perform
perform-IsTidy env url (generate_call prompt) w h = ground arith
perform-IsTidy env url (load_call path id) w h = ground arith
perform-IsTidy env url (unload_call reason) w h = ground arith
perform-IsTidy env url (adapter_call path) w h = ground arith

pub perform_all : Env → String → List Call → Wide → Wide
perform_all env url [] w = w
perform_all env url (c ∷ cs) w = perform_all env url cs (perform env url c w).0

perform_all-IsTidy :
    (env : Env) (url : String) (cs : List Call) (w : Wide)
    → IsTidy w
    → IsTidy (perform_all env url cs w)
unfolding perform_all
perform_all-IsTidy env url [] w h = h
perform_all-IsTidy env url (c ∷ cs) w h =
    perform_all-IsTidy env url cs (perform env url c w).0 (perform-IsTidy env url c w h)

pub reported-IsTidy :
    (w : Wide) → IsTidy w → (loaded_model_name w ≡ w.model_name) × (loaded_model_id w ≡ w.model_id)
unfolding loaded_model_name loaded_model_id
reported-IsTidy w h = ground arith

-- After any operations from a new client, whatever the engine answered, the names that the client
-- reports are the ones it stores: a model that is not loaded has left no name and no identifier.
pub reported_names :
    (env : Env) (url : String) (cs : List Call)
    → let w = perform_all env url cs new in
      (loaded_model_name w ≡ w.model_name) × (loaded_model_id w ≡ w.model_id)
reported_names env url cs =
    reported-IsTidy (perform_all env url cs new) (perform_all-IsTidy env url cs new new-IsTidy)
