-- ===== src/Config.antt =====
-- internal/config/config.go, and the flags of cmd/cognitiveosd/main.go.
pub mod Sources
use cognitiveosd.Prelude.{
  zero, String, Bool, true, false, Option, none, some, List, [], ◌∷◌, ◌==◌, if◌then◌else◌,
}
use cognitiveosd.Prelude.FilePath.{path_join, dir}
use cognitiveosd.Prelude.Int.{ℤ}

pub record Config : Type 0 where
  pub socket_path : String
  pub raw_socket_path : String
  pub pid_file_path : String
  pub log_file : String
  pub model_dir : String
  pub patch_dir : String
  pub run_dir : String
  pub audit_dir : String
  pub log_dir : String
  pub inference_url : String
  pub registry_url : String
  pub audit_interval : ℤ
  pub mcp_bin_dir : String
  pub mcp_bridges : List String
  pub raw_model_path : String
  pub socket_path_explicit : Bool
  pub cloud_api_base : String
  pub cloud_model_id : String
  pub cloud_api_key : String
  pub weight_method : String

-- `Default`
abbrev pub default : Config
default = record {
  socket_path = "/cognitiveos/run/daemon.sock";
  raw_socket_path = "/cognitiveos/run/raw.sock";
  pid_file_path = "/cognitiveos/run/cognitiveosd.pid";
  log_file = "/cognitiveos/logs/cognitiveosd.log";
  model_dir = "/cognitiveos/models";
  patch_dir = "/cognitiveos/patches";
  run_dir = "/cognitiveos/run";
  audit_dir = "/cognitiveos/audit";
  log_dir = "/cognitiveos/logs";
  inference_url = "http://127.0.0.1:11434";
  registry_url = "https://registry.cognitiveos.org";
  audit_interval = ℤ.pos 60;
  mcp_bin_dir = "/usr/local/lib/cognitiveos/bridges";
  mcp_bridges =
      "display-mcp" ∷ "audio-mcp" ∷ "network-mcp" ∷ "gpio-mcp" ∷ "serial-mcp" ∷ "package-mcp" ∷ [];
  raw_model_path = "/cognitiveos/models/raw/raw-model.gguf";
  socket_path_explicit = false;
  cloud_api_base = "";
  cloud_model_id = "";
  cloud_api_key = "";
  weight_method = "";
}

-- What the TOML package decodes; a key that the file lacks leaves the zero value.
pub record TomlConfig : Type 0 where
  pub socket_path : String
  pub audit_interval : ℤ
  pub mcp_bin_dir : String
  pub model : String
  pub endpoint : String
  pub method : String
  pub api_base : String
  pub model_id : String
  pub api_key : String

-- A setting that is given takes the place of the old one.
abbrev pub over : String → String → String
over given old = if given == "" then old else given

abbrev over_int : ℤ → ℤ → ℤ
over_int (ℤ.pos zero) old = old
over_int n old = n

-- `FromTOML`, from what decoding the file gave: `none` is its error, and leaves the defaults.
unfoldable pub from_toml : Option TomlConfig → Config
from_toml none = default
from_toml (some t) = record default {
  socket_path = over t.socket_path default.socket_path;
  socket_path_explicit = if t.socket_path == "" then false else true;
  audit_interval = over_int t.audit_interval default.audit_interval;
  mcp_bin_dir = over t.mcp_bin_dir default.mcp_bin_dir;
  raw_model_path = over t.model default.raw_model_path;
  inference_url = over t.endpoint default.inference_url;
  weight_method = over t.method default.weight_method;
  cloud_api_base = over t.api_base default.cloud_api_base;
  cloud_model_id = over t.model_id default.cloud_model_id;
  cloud_api_key = over t.api_key default.cloud_api_key;
}

-- `Derive`
unfoldable pub derive : Config → Config
derive c = record c {
  socket_path =
      if c.socket_path_explicit then c.socket_path else path_join (c.run_dir ∷ "daemon.sock" ∷ []);
  raw_socket_path = path_join (c.run_dir ∷ "raw.sock" ∷ []);
  pid_file_path = path_join (c.run_dir ∷ "cognitiveosd.pid" ∷ []);
  log_file = path_join (c.log_dir ∷ "cognitiveosd.log" ∷ []);
  audit_dir = path_join (c.run_dir ∷ ".." ∷ "audit" ∷ []);
}

-- The variables of the environment, over the settings of the file; `getenv` gives "" for a variable
-- that is not set.
unfoldable pub overridden : (String → String) → Config → Config
overridden getenv c = record c {
  socket_path = over (getenv "COGNITIVEOS_SOCKET") c.socket_path;
  socket_path_explicit = if getenv "COGNITIVEOS_SOCKET" == "" then c.socket_path_explicit else true;
  model_dir = over (getenv "COGNITIVEOS_MODEL_DIR") c.model_dir;
  patch_dir = over (getenv "COGNITIVEOS_PATCH_DIR") c.patch_dir;
  run_dir = over (getenv "COGNITIVEOS_RUN_DIR") c.run_dir;
  log_dir = over (getenv "COGNITIVEOS_LOG_DIR") c.log_dir;
  inference_url = over (getenv "COGNITIVEOS_INFERENCE_URL") c.inference_url;
  mcp_bin_dir = over (getenv "COGNITIVEOS_MCP_BIN_DIR") c.mcp_bin_dir;
  raw_model_path = over (getenv "COGNITIVEOS_RAW_MODEL_PATH") c.raw_model_path;
  cloud_api_base = over (getenv "COGNITIVE_CLOUD_API_BASE") c.cloud_api_base;
  cloud_model_id = over (getenv "COGNITIVE_CLOUD_MODEL_ID") c.cloud_model_id;
  cloud_api_key = over (getenv "COGNITIVE_CLOUD_API_KEY") c.cloud_api_key;
  weight_method = over (getenv "COGNITIVE_WEIGHT_METHOD") c.weight_method;
}

-- `FromEnv`
unfoldable pub from_env : Option TomlConfig → (String → String) → Config
unfolding from_toml overridden derive
from_env toml getenv = derive (overridden getenv (from_toml toml))

-- The flags of the command line; one that is not given keeps the setting, and -socket counts only
-- if it is given.
pub record Flags : Type 0 where
  pub socket : Option String
  pub run : Option String
  pub log_dir : Option String
  pub models : Option String
  pub patches : Option String
  pub mcp_bin : Option String
  pub inference : Option String
  pub audit_interval : Option ℤ

abbrev pub given {ℓ} : {A : Type ℓ} → Option A → A → A
given none old = old
given (some a) old = a

abbrev pub is_given : Option String → Bool → Bool
is_given none old = old
is_given (some s) old = true

-- `main`, up to the configuration that the daemon is made with.
unfoldable pub from_flags : Flags → Config → Config
unfolding derive
from_flags f c = derive (record c {
  socket_path = given f.socket c.socket_path;
  socket_path_explicit = is_given f.socket c.socket_path_explicit;
  run_dir = given f.run c.run_dir;
  log_dir = given f.log_dir c.log_dir;
  model_dir = given f.models c.model_dir;
  patch_dir = given f.patches c.patch_dir;
  mcp_bin_dir = given f.mcp_bin c.mcp_bin_dir;
  inference_url = given f.inference c.inference_url;
  audit_interval = given f.audit_interval c.audit_interval;
})

-- `EnsureDirs`: the directories in the order in which they are made, up to the first that fails.
unfoldable pub ensured_dirs : Config → List String
ensured_dirs c = c.run_dir ∷ c.log_dir ∷ c.audit_dir ∷ dir c.socket_path ∷ []

make_all : (String → Option String) → List String → Option String
make_all mkdir [] = none
make_all mkdir (d ∷ ds) = elim (mkdir d) [ none ↦ make_all mkdir ds | some e ↦ some e ]

unfoldable pub ensure_dirs : (String → Option String) → Config → Option String
unfolding make_all ensured_dirs
ensure_dirs mkdir c = make_all mkdir (ensured_dirs c)
