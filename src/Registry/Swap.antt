-- ===== src/Registry/Swap.antt =====
-- internal/daemon/daemon.go: what a hot swap and the first load leave loaded.
use cognitiveosd.Prelude.{String, ◌++◌, ◌≡◌, ◌≢◌, ◌⊎◌, false, none, some, arith, eq_iff}
use cognitiveosd.Prelude.Dict.{Dict}
use cognitiveosd.Config.{Config}
use cognitiveosd.Protocol.{ModelRegistryEntry}
use cognitiveosd.Protocol.Env.{Env}
use cognitiveosd.Registry.{resolve_gguf}
use cognitiveosd.Registry.Models.{hot_swap}
use cognitiveosd.Wide.{Wide, load_with_id, loaded_model_id, set_system_prompt, unload}

-- A hot swap that succeeds leaves the client reporting the model that was asked for, unless none
-- was asked for, and then nothing changed.
pub hot_swap-loaded_model_id :
    (env : Env) (cfg : Config) (registry : Dict ModelRegistryEntry) (id : String) (w : Wide)
    → (hot_swap env cfg registry id w).1 ≡ none
    → ((id ≡ "") × ((hot_swap env cfg registry id w).0 ≡ w))
      ⊎ (loaded_model_id (hot_swap env cfg registry id w).0 ≡ id)
unfolding hot_swap load_with_id loaded_model_id set_system_prompt
hot_swap-loaded_model_id env cfg registry id w h =
    ground (arith, eq_iff id "", eq_iff (loaded_model_id w) id)

-- A model that is not in the registry is refused, and nothing has been asked of the engine: the
-- current model stays loaded.
pub hot_swap-unknown :
    (env : Env) (cfg : Config) (registry : Dict ModelRegistryEntry) (id : String) (w : Wide)
    → id ≢ ""
    → loaded_model_id w ≢ id
    → resolve_gguf id registry ≡ ""
    → hot_swap env cfg registry id w ≡ (w, some ("model " ++ id ++ " not found in registry"))
unfolding hot_swap
hot_swap-unknown env cfg registry id w n o u =
    ground
      (arith, eq_iff id "", eq_iff (loaded_model_id w) id, eq_iff (resolve_gguf id registry) "")

-- Where the engine took the unloading and refused the loading, a hot swap fails with no model left
-- loaded: the model that was loaded before is gone.
pub hot_swap-leaves_none :
    (env : Env) (cfg : Config) (registry : Dict ModelRegistryEntry) (id e : String) (w : Wide)
    → id ≢ ""
    → loaded_model_id w ≢ id
    → resolve_gguf id registry ≢ ""
    → (unload env cfg.inference_url "swap" w).1 ≡ none
    → (load_with_id env cfg.inference_url
        (resolve_gguf id registry)
        id
        (unload env cfg.inference_url "swap" w).0).1
      ≡ some e
    → ((hot_swap env cfg registry id w).1 ≡ some ("load " ++ id ++ ": " ++ e))
      × ((hot_swap env cfg registry id w).0.loaded ≡ false)
unfolding hot_swap load_with_id unload
hot_swap-leaves_none env cfg registry id e w n o u un l =
    ground
      (arith, eq_iff id "", eq_iff (loaded_model_id w) id, eq_iff (resolve_gguf id registry) "")
