-- ===== src/Registry/Manifest.antt =====
-- internal/daemon/daemon.go and handlers.go: the parts of a patch's manifest, cognitive.json, that
-- the daemon decodes. A pointer that the document does not set is `none`.
use cognitiveosd.Prelude.{String, Option, none, some, List, []}
use cognitiveosd.Prelude.Opt.{◌>>=◌}
use cognitiveosd.Json.{Json, Fields, d_string, d_struct, d_pointer, d_slice, member}

pub record Routing : Type 0 where
  pub model_id : String
  pub tags : List String

-- `weights` is set or not, and so is its `remote`, of which only the file's name is read.
pub record WideModel : Type 0 where
  pub routing : Option Routing
  pub weights : Option (Option String)

pub record Brain : Type 0 where
  pub wide_model : Option WideModel

read_routing : Fields → Routing → Option Routing
read_routing fs r = do
  i ← member d_string "model_id" fs r.model_id
  t ← member (d_slice "" d_string) "tags" fs r.tags
  some (record { model_id = i; tags = t })

read_remote : Fields → String → Option String
read_remote fs r = member d_string "filename" fs r

read_weights : Fields → Option String → Option (Option String)
read_weights fs w = member (d_pointer "" (d_struct read_remote)) "remote" fs w

read_wide_model : Fields → WideModel → Option WideModel
read_wide_model fs w = do
  r ←
      member (d_pointer (record { model_id = ""; tags = [] }) (d_struct read_routing)) "routing" fs
        w.routing
  g ← member (d_pointer none (d_struct read_weights)) "weights" fs w.weights
  some (record { routing = r; weights = g })

read_brain : Fields → Brain → Option Brain
read_brain fs b = do
  w ←
      member (d_pointer (record { routing = none; weights = none }) (d_struct read_wide_model))
        "wide_model" fs b.wide_model
  some (record { wide_model = w })

read_manifest : Fields → Option Brain → Option (Option Brain)
read_manifest fs m =
    member (d_pointer (record { wide_model = none }) (d_struct read_brain)) "brain" fs m

-- The manifest of `buildModelRegistry`: its `brain`, if set.
unfoldable pub decode_brain : Json → Option (Option Brain)
unfolding read_manifest read_brain read_wide_model read_weights read_remote read_routing
decode_brain = d_struct read_manifest none

read_runtime : Fields → String → Option String
read_runtime fs r = member d_string "system_prompt" fs r

read_prompts : Fields → Option String → Option (Option String)
read_prompts fs m = member (d_pointer "" (d_struct read_runtime)) "runtime" fs m

-- The manifest of `mergeSystemPrompts`: the prompt's file in its `runtime`, if set.
unfoldable pub decode_system_prompt : Json → Option (Option String)
unfolding read_prompts read_runtime
decode_system_prompt = d_struct read_prompts none

read_training : Fields → String → Option String
read_training fs t = member d_string "tool" fs t

read_tuned : Fields → String → Option String
read_tuned fs m = member (d_struct read_training) "training" fs m

-- The manifest of `handleCPMTune`: the tool in its `training`.
unfoldable pub decode_training_tool : Json → Option String
unfolding read_tuned read_training
decode_training_tool = d_struct read_tuned ""
