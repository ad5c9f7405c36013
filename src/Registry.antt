-- ===== src/Registry.antt =====
-- internal/daemon/daemon.go: what the daemon reads from the patch directory, and the models that it
-- loads from there. The disk is fixed while one of these functions runs.
pub mod Manifest
pub mod Models
pub mod Built
pub mod Swap
pub mod Denied
use cognitiveosd.Prelude.{
  ℕ, suc, String, ◌++◌, Bool, true, false, not, Option, none, some, List, [], ◌∷◌, ◌==◌,
  if◌then◌else◌,
}
use mathlib.Core.List.{◌++◌ as append}
use cognitiveosd.Prelude.Dict.{Dict, lookup, insert}
use cognitiveosd.Prelude.FilePath.{path_join}
use cognitiveosd.Prelude.Opt.{◌>>=◌}
use cognitiveosd.Prelude.Result.{Result, ok, err}
use cognitiveosd.Prelude.Text.{join}
use cognitiveosd.Protocol.{ModelRegistryEntry}
use cognitiveosd.Protocol.Env.{Env, DirEntry, Stat, dir, file, missing, denied}
use Manifest.{Routing, WideModel, Brain, decode_brain, decode_system_prompt}

-- `os.Stat` gave no error.
abbrev pub stands : Stat → Bool
stands dir = true
stands file = true
stands missing = false
stands denied = false

-- `entries, err := os.ReadDir(dir)` where an error ends the scan.
abbrev pub entries_or_none : Result (List DirEntry) → List DirEntry
entries_or_none (ok es) = es
entries_or_none (err e) = []

module _ (env : Env) (patch_dir : String) where
  -- The manifest of one entry of the patch directory.
  abbrev pub manifest_text : DirEntry → Option String
  manifest_text e =
      if e.is_dir
      then env.read_file (path_join (patch_dir ∷ e.name ∷ "cognitive.json" ∷ []))
      else none

  registered_routing : String → Option String → Option Routing → Option ModelRegistryEntry
  registered_routing name remote none = none
  registered_routing name none (some r) = none
  registered_routing name (some filename) (some r) =
      let path = path_join (patch_dir ∷ name ∷ "weights" ∷ filename ∷ []) in
      if r.model_id == ""
      then none
      else if path == ""
      then none
      else if stands (env.stat path)
      then some (record { model_id = r.model_id; tags = r.tags; gguf_file_path = path })
      else none

  registered_model : String → Option WideModel → Option ModelRegistryEntry
  registered_model name none = none
  registered_model name (some w) =
      registered_routing name (w.weights >>= λ remote. remote) w.routing

  registered_brain : String → Option Brain → Option ModelRegistryEntry
  registered_brain name none = none
  registered_brain name (some b) = registered_model name b.wide_model

  -- The model that one entry of the patch directory registers, if any.
  unfoldable pub registry_entry : DirEntry → Option ModelRegistryEntry
  unfolding registered_brain registered_model registered_routing
  registry_entry e = do
    text ← manifest_text e
    j ← env.parse_json text
    b ← decode_brain j
    registered_brain e.name b

  add_entry : Option ModelRegistryEntry → Dict ModelRegistryEntry → Dict ModelRegistryEntry
  add_entry none m = m
  add_entry (some e) m = insert e.model_id e m

  build_from : List DirEntry → Dict ModelRegistryEntry → Dict ModelRegistryEntry
  build_from [] m = m
  build_from (e ∷ es) m = build_from es (add_entry (registry_entry e) m)

  -- `buildModelRegistry`: a later patch writes over an earlier one with the same model.
  unfoldable pub build_model_registry : Dict ModelRegistryEntry
  unfolding build_from add_entry
  build_model_registry = build_from (entries_or_none (env.read_dir patch_dir)) []

  count_patches : List DirEntry → ℕ
  count_patches [] = 0
  count_patches (e ∷ es) =
      let rest = count_patches es in
      if e.is_dir
      then (if stands (env.stat (path_join (patch_dir ∷ e.name ∷ "cognitive.json" ∷ [])))
          then suc rest
          else rest)
      else rest

  -- `patchCount`
  unfoldable pub patch_count : ℕ
  unfolding count_patches
  patch_count = count_patches (entries_or_none (env.read_dir patch_dir))

  patch_prompt : DirEntry → Option String
  patch_prompt e = do
    text ← manifest_text e
    j ← env.parse_json text
    runtime ← decode_system_prompt j
    prompt ← runtime
    if prompt == "" then none else env.read_file (path_join (patch_dir ∷ e.name ∷ prompt ∷ []))

  abbrev with_prompt : Option String → List String → List String
  with_prompt none ps = ps
  with_prompt (some p) ps = p ∷ ps

  patch_prompts : List DirEntry → List String
  patch_prompts [] = []
  patch_prompts (e ∷ es) = with_prompt (patch_prompt e) (patch_prompts es)

  merged : List String → Result (List DirEntry) → String
  merged base (err e) = join "\n" base
  merged base (ok es) = join "\n\n" (append base (patch_prompts es))

  -- `mergeSystemPrompts`, which never returns an error and does not look at the model.
  unfoldable pub merge_system_prompts : String
  unfolding merged patch_prompts patch_prompt
  merge_system_prompts =
      merged (with_prompt (env.read_file "/cognitiveos/etc/base-prompt.md") [])
        (env.read_dir patch_dir)

-- `modelRegistryRoutingHints`
unfoldable pub routing_hints : Dict ModelRegistryEntry → Dict (List String)
routing_hints [] = []
routing_hints ((id, e) ∷ m) = (id, e.tags) ∷ routing_hints m

abbrev path_of : Option ModelRegistryEntry → String
path_of none = ""
path_of (some e) = e.gguf_file_path

-- `resolveModelGGUF`
unfoldable pub resolve_gguf : String → Dict ModelRegistryEntry → String
resolve_gguf id m = path_of (lookup id m)
