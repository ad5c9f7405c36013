-- ===== src/Tests/Engines.antt =====
-- The theorems on the configuration, the Wide Model's client and the raw model's client at work.
use cognitiveosd.Prelude.{String, ◌≡◌, refl, ◌≢◌, ◌⊎◌, true, false, none, some, List, [], ◌∷◌}
use cognitiveosd.Prelude.Dict.{lookup, insert}
use cognitiveosd.Prelude.FilePath.{path_join}
use cognitiveosd.Prelude.Int.{ℤ}
use cognitiveosd.Prelude.Text.{decimal}
use cognitiveosd.Config.{Flags, default, given, over}
use cognitiveosd.Config.Sources.{configured, socket_path-source}
use cognitiveosd.Protocol.{ModelRegistryEntry}
use cognitiveosd.Raw.{call, is_ready}
use cognitiveosd.Raw.Requests.{Audit, audit_resources}
use cognitiveosd.Registry.{build_model_registry, registry_entry, resolve_gguf}
use cognitiveosd.Registry.Built.{IsUsable, Source, build_model_registry_sound}
use cognitiveosd.Registry.Denied.{load_wide_model-denied}
use cognitiveosd.Registry.Manifest.{decode_brain}
use cognitiveosd.Registry.Models.{hot_swap, load_wide_model}
use cognitiveosd.Registry.Swap.{hot_swap-leaves_none, hot_swap-loaded_model_id}
use cognitiveosd.Wide.{load_with_id, loaded_model_id, unload}
use cognitiveosd.Wide.Atomic.{load_call, outcome, perform, perform-outcome}
use cognitiveosd.Tests.{ready_raw, small_wide, unloading, willing, world}

abbrev flags : Flags
flags = record {
  socket = none;
  run = some "/run/os";
  log_dir = none;
  models = none;
  patches = none;
  mcp_bin = none;
  inference = none;
  audit_interval = none;
}

abbrev getenv : String → String
getenv name = ""

socket_path-source_example :
    let c = configured flags none getenv in
    c.socket_path ≡ given none (over "" (over "" (path_join (c.run_dir ∷ "daemon.sock" ∷ []))))
socket_path-source_example = socket_path-source flags none getenv

perform-outcome_example :
    let r = perform (world unloading) "" (load_call "a.gguf" "a") small_wide in
    (r.0 ≡ outcome r.1 (load_call "a.gguf" "a") small_wide) × (r.0.system_prompt ≡ "")
perform-outcome_example = perform-outcome (world unloading) "" (load_call "a.gguf" "a") small_wide

abbrev no_memory : Audit
no_memory = record { available = false; total_mb = ℤ.pos 0; free_mb = ℤ.pos 0; allowed = false }

abbrev big : List (String × ModelRegistryEntry)
big = ("big", record { model_id = "big"; tags = []; gguf_file_path = "/m/big.gguf" }) ∷ []

load_wide_model-denied_example :
    ((load_wide_model (world willing) default big ready_raw small_wide).1 ≡ small_wide)
    × ((load_wide_model (world willing) default big ready_raw small_wide).2 ≢ none)
unfolding is_ready audit_resources call
load_wide_model-denied_example =
    load_wide_model-denied (world willing) default big ready_raw small_wide no_memory refl refl refl

hot_swap-loaded_model_id_example :
    ((◌≡◌ {A = String} "big" "")
      × ((hot_swap (world willing) default big "big" small_wide).0 ≡ small_wide))
    ⊎ (loaded_model_id (hot_swap (world willing) default big "big" small_wide).0 ≡ "big")
unfolding hot_swap loaded_model_id resolve_gguf lookup unload load_with_id
hot_swap-loaded_model_id_example =
    hot_swap-loaded_model_id (world willing) default big "big" small_wide refl

hot_swap-leaves_none_example :
    ((hot_swap (world unloading) default big "big" small_wide).1
      ≡ some "load big: load failed: HTTP 500")
    × ((hot_swap (world unloading) default big "big" small_wide).0.loaded ≡ false)
unfolding loaded_model_id resolve_gguf lookup unload load_with_id decimal
hot_swap-leaves_none_example =
    hot_swap-leaves_none (world unloading) default big "big" "load failed: HTTP 500" small_wide
      (λ e. cc) (λ e. cc) (λ e. cc) refl refl

abbrev tiny : ModelRegistryEntry
tiny = record {
  model_id = "tiny";
  tags = [];
  gguf_file_path = "/cognitiveos/patches/tiny/weights/tiny.gguf";
}

build_model_registry_sound_example :
    Source
      (world willing)
      "/cognitiveos/patches"
      (record { name = "tiny"; is_dir = true } ∷ [])
      "tiny"
      tiny
    × IsUsable (world willing) tiny
unfolding build_model_registry registry_entry decode_brain lookup insert path_join
build_model_registry_sound_example =
    build_model_registry_sound (world willing) "/cognitiveos/patches" "tiny" tiny refl
