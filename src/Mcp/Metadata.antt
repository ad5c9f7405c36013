-- ===== src/Mcp/Metadata.antt =====
-- internal/daemon/mcp_lifecycle.go: `fetchManifestMetadata`, a package's manifest in the registry.
use cognitiveosd.Prelude.{String, ◌++◌, false, Option, none, some, ◌==◌, eqb, if◌then◌else◌}
use cognitiveosd.Prelude.Int.{ℤ}
use cognitiveosd.Prelude.Opt.{◌>>=◌}
use cognitiveosd.Json.{Fields, d_string, d_bool, d_int, d_struct, member}
use cognitiveosd.Protocol.Env.{Env, HttpReply, unreachable, got}
use cognitiveosd.Raw.Requests.{ManifestMetadata}

-- `PackageRegistryManifest`; its name and version are decoded and not used.
record RegistryManifest : Type 0 where
  name : String
  version : String
  metadata : ManifestMetadata

read_metadata : Fields → ManifestMetadata → Option ManifestMetadata
read_metadata fs m = do
  h ← member d_bool "has_raw_model" fs m.has_raw_model
  c ← member d_bool "is_critical" fs m.is_critical
  s ← member d_int "disk_space_mb" fs m.disk_space_mb
  r ← member d_string "registry" fs m.registry
  some (record { has_raw_model = h; disk_space_mb = s; registry = r; is_critical = c })

read_manifest : Fields → RegistryManifest → Option RegistryManifest
unfolding read_metadata
read_manifest fs m = do
  n ← member d_string "name" fs m.name
  v ← member d_string "version" fs m.version
  d ← read_metadata fs m.metadata
  some (record { name = n; version = v; metadata = d })

abbrev no_manifest : RegistryManifest
no_manifest = record {
  name = "";
  version = "";
  metadata = record {
    has_raw_model = false;
    disk_space_mb = ℤ.pos 0;
    registry = "";
    is_critical = false;
  };
}

abbrev metadata_of : Option RegistryManifest → Option ManifestMetadata
metadata_of none = none
metadata_of (some m) = some m.metadata

unfoldable pub metadata_in : Env → HttpReply → Option ManifestMetadata
unfolding read_manifest
metadata_in env (unreachable e) = none
metadata_in env (got status body) =
    if eqb status 200
    then metadata_of (env.parse_first body >>= d_struct read_manifest no_manifest)
    else none

unfoldable pub manifest_url : String → String → String → String
manifest_url registry pkg version =
    registry ++ "/v1/patches/" ++ pkg ++ (if version == "" then "" else "/" ++ version)

-- `fetchManifestMetadata`; every failure is the nil pointer.
unfoldable pub fetch_metadata : Env → String → String → String → Option ManifestMetadata
unfolding metadata_in manifest_url
fetch_metadata env registry pkg version =
    if registry == ""
    then none
    else metadata_in env (env.registry (manifest_url registry pkg version))
