-- ===== src/Config/Sources.antt =====
-- internal/config/config.go and cmd/cognitiveosd/main.go: which source of a setting wins.
use cognitiveosd.Prelude.{String, ◌≡◌, refl, Option, none, some, [], ◌∷◌, arith}
use cognitiveosd.Prelude.FilePath.{path_join}
use cognitiveosd.Config.{
  Config, TomlConfig, Flags, default, derive, over, given, from_env, from_flags,
}

-- Deriving the paths a second time changes nothing.
pub derive_idempotent : (c : Config) → derive (derive c) ≡ derive c
unfolding derive
derive_idempotent c = ground arith

-- The configuration that the daemon is made with.
abbrev pub configured : Flags → Option TomlConfig → (String → String) → Config
configured f toml getenv = from_flags f (from_env toml getenv)

abbrev toml_socket : Option TomlConfig → String
toml_socket none = ""
toml_socket (some t) = t.socket_path

-- The socket's path is the flag's; without the flag that of COGNITIVEOS_SOCKET; without that, the
-- file's; and with none of them it is daemon.sock in the run directory that was chosen in the end,
-- though it was derived once before the flags were read.
pub socket_path-source :
    (f : Flags) (toml : Option TomlConfig) (getenv : String → String)
    → let c = configured f toml getenv in
      c.socket_path
      ≡ given f.socket (
          over
            (getenv "COGNITIVEOS_SOCKET")
            (over (toml_socket toml) (path_join (c.run_dir ∷ "daemon.sock" ∷ []))))
unfolding from_flags from_env
socket_path-source f none getenv = ground arith
socket_path-source f (some t) getenv = ground arith

-- The run and log directories come from the flag, or else the environment, or else the default, and
-- the raw model's socket, the pid file, the log file and the audit directory follow them.
pub derived_paths :
    (f : Flags) (toml : Option TomlConfig) (getenv : String → String)
    → let c = configured f toml getenv in
      (c.run_dir ≡ given f.run (over (getenv "COGNITIVEOS_RUN_DIR") default.run_dir))
      × (c.log_dir ≡ given f.log_dir (over (getenv "COGNITIVEOS_LOG_DIR") default.log_dir))
      × (c.raw_socket_path ≡ path_join (c.run_dir ∷ "raw.sock" ∷ []))
      × (c.pid_file_path ≡ path_join (c.run_dir ∷ "cognitiveosd.pid" ∷ []))
      × (c.log_file ≡ path_join (c.log_dir ∷ "cognitiveosd.log" ∷ []))
      × (c.audit_dir ≡ path_join (c.run_dir ∷ ".." ∷ "audit" ∷ []))
unfolding from_flags from_env
derived_paths f none getenv = (refl, refl, refl, refl, refl, refl)
derived_paths f (some t) getenv = (refl, refl, refl, refl, refl, refl)
