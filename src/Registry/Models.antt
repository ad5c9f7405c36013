-- ===== src/Registry/Models.antt =====
-- internal/daemon/daemon.go: `hotSwapWideModel` and `loadWideModel`.
pub mod Moving
use cognitiveosd.Prelude.{
  String, ◌++◌, Bool, true, false, not, ◌||◌, Option, none, some, List, [], ◌∷◌, ◌==◌,
  if◌then◌else◌,
}
use cognitiveosd.Prelude.Dict.{Dict}
use cognitiveosd.Prelude.FilePath.{path_join}
use cognitiveosd.Prelude.Int.{ℤ}
use cognitiveosd.Prelude.Result.{Result, ok, err}
use cognitiveosd.Prelude.Text.{has_suffix}
use cognitiveosd.Config.{Config}
use cognitiveosd.Protocol.{ModelRegistryEntry}
use cognitiveosd.Protocol.Env.{Env, DirEntry}
use cognitiveosd.Raw.{Raw, is_ready}
use cognitiveosd.Raw.Requests.{Audit, audit_resources}
use cognitiveosd.Registry.{merge_system_prompts, resolve_gguf}
use cognitiveosd.Wide.{Wide, load, load_with_id, loaded_model_id, set_system_prompt, unload}

-- The system prompt is set unless it is empty.
abbrev pub with_system_prompt : String → Wide → Wide
with_system_prompt prompt w = if prompt == "" then w else set_system_prompt prompt w

-- The two clients, and how the loading went.
abbrev pub Loading : Type 0
Loading = Raw × Wide × Option String

abbrev pub no_ram : String
no_ram = "E_INSUFFICIENT_RESOURCES: not enough RAM to load Wide Model"

module _ (env : Env) (cfg : Config) where
  swapped : String → Wide × Option String → Wide × Option String
  swapped id (w, some e) = (w, some ("load " ++ id ++ ": " ++ e))
  swapped id (w, none) = (with_system_prompt (merge_system_prompts env cfg.patch_dir) w, none)

  -- The error of `Unload` is logged and the load goes on.
  swap_to : String → String → Wide → Wide × Option String
  swap_to path id w =
      let (w', failed) = unload env cfg.inference_url "swap" w in
      swapped id (load_with_id env cfg.inference_url path id w')

  -- `hotSwapWideModel`
  unfoldable pub hot_swap : Dict ModelRegistryEntry → String → Wide → Wide × Option String
  unfolding swap_to swapped
  hot_swap registry id w =
      let path = resolve_gguf id registry in
      if id == ""
      then (w, none)
      else if loaded_model_id w == id
      then (w, none)
      else if path == ""
      then (w, some ("model " ++ id ++ " not found in registry"))
      else swap_to path id w

  abbrev denied_load : Result Audit → Bool
  denied_load (err e) = false
  denied_load (ok a) = not a.allowed

  audit_checked : Raw × Result Audit → Raw × Bool
  audit_checked (r', a) = (r', not (denied_load a))

  -- The audit before a load: skipped unless the raw model is ready, and passed if it fails.
  unfoldable pub audited : Raw → Raw × Bool
  unfolding audit_checked
  audited r = if is_ready r then audit_checked (audit_resources env (ℤ.pos 0) r) else (r, true)

  -- One model of the registry, and whether the loop goes on to the next.
  entry_loaded : Raw → Wide × Option String → Loading × Bool
  entry_loaded r (w, some failed) = ((r, w, none), true)
  entry_loaded r (w, none) =
      ((r, with_system_prompt (merge_system_prompts env cfg.patch_dir) w, none), false)

  unfoldable pub load_entry : String → ModelRegistryEntry → Raw × Bool → Wide → Loading × Bool
  unfolding entry_loaded
  load_entry id e (r, false) w = ((r, w, some no_ram), false)
  load_entry id e (r, true) w =
      entry_loaded r (load_with_id env cfg.inference_url e.gguf_file_path id w)

  -- The scan of models/wide/active.
  unfoldable pub is_model : DirEntry → Bool
  is_model e =
      if e.is_dir then false else has_suffix e.name ".gguf" || has_suffix e.name ".safetensors"

  file_loaded : Raw → Wide × Option String → Loading
  file_loaded r (w, e) = (r, w, e)

  unfoldable pub load_file : String → Raw × Bool → Wide → Loading
  unfolding file_loaded
  load_file path (r, false) w = (r, w, some no_ram)
  load_file path (r, true) w = file_loaded r (load env cfg.inference_url path w)

  unfoldable pub load_first : String → List DirEntry → Raw → Wide → Loading
  unfolding is_model load_file
  load_first dir [] r w = (r, w, some ("no model file found in " ++ dir))
  load_first dir (e ∷ es) r w =
      let rest = load_first dir es r w in
      if is_model e then load_file (path_join (dir ∷ e.name ∷ [])) (audited r) w else rest

  unfoldable pub load_from_dir : String → Result (List DirEntry) → Raw → Wide → Loading
  unfolding load_first
  load_from_dir dir (err e) r w = (r, w, some ("read wide model dir " ++ dir ++ ": " ++ e))
  load_from_dir dir (ok es) r w = load_first dir es r w

  abbrev pub model_dir : String
  model_dir = path_join (cfg.model_dir ∷ "wide" ∷ "active" ∷ [])

  -- Behind one model of the registry: the loop goes on if it could not be loaded.
  abbrev continued : Loading × Bool → (Raw → Wide → Loading) → Loading
  continued (l, false) rest = l
  continued ((r, w, e), true) rest = rest r w

  -- The loop over the registry, and the scan of the directory behind it.
  unfoldable pub load_wide_model : Dict ModelRegistryEntry → Raw → Wide → Loading
  unfolding load_entry load_from_dir
  load_wide_model [] r w = load_from_dir model_dir (env.read_dir model_dir) r w
  load_wide_model ((id, e) ∷ m) r w =
      continued (load_entry id e (audited r) w) (λ r' w'. load_wide_model m r' w')
