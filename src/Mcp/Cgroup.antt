-- ===== src/Mcp/Cgroup.antt =====
-- internal/daemon/mcp_lifecycle.go: the control group of a server's process.
use cognitiveosd.Prelude.{ℕ, ◌*◌, String, ◌++◌, Option, none, some, List, [], ◌∷◌}
use cognitiveosd.Prelude.FilePath.{path_join}
use cognitiveosd.Prelude.Text.{decimal}
use cognitiveosd.Protocol.Env.{Env}

-- `cgroupLimits`
pub record Limits : Type 0 where
  pub memory_mb : ℕ
  pub cpu_quota : ℕ
  pub cpu_period : ℕ
  pub pids_max : ℕ
  pub io_read_mbps : ℕ
  pub io_write_mbps : ℕ

-- `defaultCgroupLimits`
abbrev pub default_limits : Limits
default_limits = record {
  memory_mb = 512;
  cpu_quota = 25000;
  cpu_period = 100000;
  pids_max = 16;
  io_read_mbps = 10;
  io_write_mbps = 5;
}

-- A control file with what is written into it.
abbrev pub File : Type 0
File = String × String

-- The four files, in the order in which they are written, each with the name that an error has.
abbrev pub limit_files : String → Limits → List File
limit_files path l =
    (path_join (path ∷ "memory.max" ∷ []), decimal l.memory_mb ++ "M")
    ∷ (path_join (path ∷ "cpu.max" ∷ []), decimal l.cpu_quota ++ " " ++ decimal l.cpu_period)
    ∷ (path_join (path ∷ "pids.max" ∷ []), decimal l.pids_max)
    ∷ (
      path_join (path ∷ "io.max" ∷ []),
      "0:0 riops=max wiops=max rbps="
          ++ decimal (l.io_read_mbps * 1024 * 1024)
          ++ " wbps="
          ++ decimal (l.io_write_mbps * 1024 * 1024)
          ++ "\n",
    )
    ∷ []

-- The files written up to the first error, the last one first, and whether there was one.
unfoldable pub write_all : Env → List File → List File → List File × Option String
write_all env [] done = (done, none)
write_all env ((path, text) ∷ fs) done = elim (env.write_file path text) [
  | some e ↦ (done, some e)
  | none ↦ write_all env fs ((path, text) ∷ done)
]

abbrev cgroup_path : String → String
cgroup_path name = path_join ("/sys/fs/cgroup" ∷ "cognitiveos" ∷ name ∷ [])

made_group : Env → String → Limits → Option String → String × List File
made_group env path l (some e) = ("", [])
made_group env path l none = (path, (write_all env (limit_files path l) []).0)

-- `setupCgroup`, whose error `Spawn` passes over: the path, "" if the directory could not be made,
-- and the files that were written.
unfoldable pub setup_cgroup : Env → String → Limits → String × List File
unfolding made_group write_all
setup_cgroup env name l = made_group env (cgroup_path name) l (env.mkdir_all (cgroup_path name))

-- `joinCgroup`
abbrev pub procs_file : ℕ → String → File
procs_file pid path = (path_join (path ∷ "cgroup.procs" ∷ []), decimal pid)
