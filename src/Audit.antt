-- ===== src/Audit.antt =====
-- internal/daemon/audit.go: what the auditor reads of the machine. The files under /proc and /sys
-- are read through the environment. A directory's size is exact below 2^53 bytes, where the code's
-- float64 is.
pub mod Sizes
use Prim.Native.Char.{code}
use cognitiveosd.Prelude.{
  ℕ, suc, String, ◌+◌, ◌-◌, ◌*◌, ◌/◌, Bool, true, false, ◌&&◌, ◌||◌, Option, none, some, List, [],
  ◌∷◌, ◌==◌, leb, eqb, if◌then◌else◌,
}
use cognitiveosd.Prelude.FilePath.{path_join}
use cognitiveosd.Prelude.Int.{ℤ, pos, sub_ℕ, ◌-ℤ◌, quot, wrap64, is_int64}
use cognitiveosd.Prelude.Opt.{◌>>=◌}
use cognitiveosd.Prelude.Result.{Result, ok, err}
use cognitiveosd.Prelude.Text.{has_prefix, is_space, split, trim_space, trim_left, first_field}
use cognitiveosd.Config.{Config}
use cognitiveosd.Protocol.Env.{Env, DirEntry}
use cognitiveosd.Protocol.Resources.{
  RamInfo, StorageInfo, CpuInfo, NpuInfo, NetworkInfo, AuditResources,
}

-- `%d` without its sign: the value of the digits, of which there is at least one, and the rest.
scan_digits : String → ℕ → Bool → Option (ℕ × String)
scan_digits String.[] n seen = if seen then some (n, "") else none
scan_digits (String.◌∷◌ c s) n seen =
    let d = code c in
    let more = scan_digits s (n * 10 + (d - b'0')) true in
    if leb b'0' d && leb d b'9' then more else if seen then some (n, String.◌∷◌ c s) else none

negated : ℕ × String → ℤ × String
negated (n, s) = (sub_ℕ 0 n, s)

positive : ℕ × String → ℤ × String
positive (n, s) = (pos n, s)

scan_int : String → Option (ℤ × String)
unfolding scan_digits negated positive
scan_int String.[] = none
scan_int (String.◌∷◌ c s) =
    if eqb (code c) b'-'
    then (scan_digits s 0 false >>= λ r. some (negated r))
    else if eqb (code c) b'+'
    then (scan_digits s 0 false >>= λ r. some (positive r))
    else (scan_digits (String.◌∷◌ c s) 0 false >>= λ r. some (positive r))

-- A space in the format wants one in the input, and takes all that follow.
scan_space : String → Option String
scan_space String.[] = some ""
scan_space (String.◌∷◌ c s) = if is_space (code c) then some (trim_left s) else none

abbrev scan_unit : String → Option (Unit {0})
scan_unit s = if has_prefix s "kB" then some tt else none

-- Behind the label, the format `" %d kB"`: the number of kilobytes.
unfoldable pub scan_kb : String → Option ℤ
unfolding scan_int scan_space
scan_kb s = do
  s1 ← scan_space s
  (n, s2) ← scan_int s1
  s3 ← scan_space s2
  scan_unit s3 >>= λ _. if is_int64 n then some n else none

-- `line[len(label):]`, where the line begins with the label.
abbrev behind : String → String → String
behind String.[] line = line
behind (String.◌∷◌ d label) String.[] = ""
behind (String.◌∷◌ d label) (String.◌∷◌ c line) = behind label line

abbrev kb_to_mb : Option ℤ → ℤ → ℤ
kb_to_mb none old = old
kb_to_mb (some kb) old = quot kb 1024

abbrev figure : String → String → ℤ → ℤ
figure label line old =
    if has_prefix line label then kb_to_mb (scan_kb (behind label line)) old else old

-- The loop over the lines of /proc/meminfo: the last line with a label counts.
unfoldable pub read_meminfo : List String → ℤ × ℤ → ℤ × ℤ
read_meminfo [] old = old
read_meminfo (line ∷ lines) (total, available) =
    read_meminfo lines (figure "MemTotal:" line total, figure "MemAvailable:" line available)

abbrev ram_info : ℤ × ℤ → RamInfo
ram_info (total, available) = record {
  total_mb = total;
  available_mb = available;
  used_by_ai_mb = total -ℤ available;
}

abbrev default_ram : ℤ × ℤ
default_ram = (pos 8192, pos 4096)

abbrev ram_figures : Option String → ℤ × ℤ
ram_figures none = default_ram
ram_figures (some text) = read_meminfo (split b'\n' text) default_ram

abbrev mb : ℕ
mb = 1024 * 1024

abbrev storage_figures : Option (ℕ × ℕ × ℕ) → ℤ × ℤ
storage_figures none = (pos 32768, pos 12288)
storage_figures (some (blocks, available, size)) =
    (quot (wrap64 (blocks * size)) mb, quot (wrap64 (available * size)) mb)

unfoldable pub sum : List ℕ → ℕ
sum [] = 0
sum (n ∷ ns) = n + sum ns

-- `dirSizeMB`: rounded up.
unfoldable pub dir_size_mb : List ℕ → ℕ
unfolding sum
dir_size_mb sizes = (sum sizes + (mb - 1)) / mb

count_processors : List String → ℕ
count_processors [] = 0
count_processors (line ∷ lines) =
    let rest = count_processors lines in if has_prefix line "processor" then suc rest else rest

abbrev cores_of : Option String → ℕ
cores_of none = 0
cores_of (some text) = count_processors (split b'\n' text)

abbrev at_least_one : ℕ → ℕ
at_least_one n = if eqb n 0 then 1 else n

module _ (env : Env) where
  -- `readRAM`
  unfoldable pub read_ram : RamInfo
  read_ram = ram_info (ram_figures (env.read_file "/proc/meminfo"))

  -- `readStorage`
  unfoldable pub read_storage : Config → StorageInfo
  unfolding dir_size_mb
  read_storage cfg =
      let figures = storage_figures (env.statfs "/") in
      record {
        total_mb = figures.0;
        available_mb = figures.1;
        patches_mb = dir_size_mb (env.walk cfg.patch_dir);
        models_mb = dir_size_mb (env.walk cfg.model_dir);
      }

  abbrev load_of : ℕ → Option String → String
  load_of cores none = "0"
  load_of cores (some text) =
      if first_field text == "" then "0" else env.load_percent (first_field text) cores

  -- `readCPU`
  unfoldable pub read_cpu : CpuInfo
  unfolding count_processors
  read_cpu =
      let cores = at_least_one (cores_of (env.read_file "/proc/cpuinfo")) in
      record { cores = cores; load_percent = load_of cores (env.read_file "/proc/loadavg") }

  abbrev no_npu : NpuInfo
  no_npu = record { available = false; model = "" }

  find_npu : List DirEntry → NpuInfo
  find_npu [] = no_npu
  find_npu (e ∷ es) =
      if has_prefix e.name "npu" || has_prefix e.name "hailo" || has_prefix e.name "neural"
      then record { available = true; model = e.name }
      else find_npu es

  npu_in_dev : Result (List DirEntry) → NpuInfo
  npu_in_dev (err e) = no_npu
  npu_in_dev (ok es) = find_npu es

  npu_in : Result (List DirEntry) → NpuInfo
  npu_in (err e) = npu_in_dev (env.read_dir "/dev")
  npu_in (ok []) = npu_in_dev (env.read_dir "/dev")
  npu_in (ok (e ∷ es)) = record { available = true; model = e.name }

  -- `readNPU`
  unfoldable pub read_npu : NpuInfo
  unfolding npu_in npu_in_dev find_npu
  read_npu = npu_in (env.read_dir "/sys/class/accelerator")

  abbrev no_network : NetworkInfo
  no_network = record { connected = false; interface = ""; signal_percent = 0 }

  abbrev is_up : Option String → Bool
  is_up none = false
  is_up (some text) = trim_space text == "up"

  find_network : List DirEntry → NetworkInfo
  find_network [] = no_network
  find_network (e ∷ es) =
      let rest = find_network es in
      if e.name == "lo"
      then rest
      else if is_up (env.read_file (path_join ("/sys/class/net" ∷ e.name ∷ "operstate" ∷ [])))
      then record { connected = true; interface = e.name; signal_percent = 80 }
      else rest

  network_in : Result (List DirEntry) → NetworkInfo
  network_in (err e) = no_network
  network_in (ok es) = find_network es

  -- `readNetwork`
  unfoldable pub read_network : NetworkInfo
  unfolding network_in find_network
  read_network = network_in (env.read_dir "/sys/class/net")

  -- `Collect`
  unfoldable pub collect : Config → AuditResources
  unfolding read_ram read_storage read_cpu read_npu read_network
  collect cfg = record {
    ram = read_ram;
    storage = read_storage cfg;
    cpu = read_cpu;
    npu = read_npu;
    network = read_network;
  }
