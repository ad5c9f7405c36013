-- ===== src/Protocol/Resources.antt =====
-- internal/daemon/types.go: the audit's figures.
use cognitiveosd.Prelude.{ℕ, String, Bool}
use cognitiveosd.Prelude.Int.{ℤ}

pub record RamInfo : Type 0 where
  pub total_mb : ℤ
  pub available_mb : ℤ
  pub used_by_ai_mb : ℤ

pub record StorageInfo : Type 0 where
  pub total_mb : ℤ
  pub available_mb : ℤ
  pub patches_mb : ℕ
  pub models_mb : ℕ

-- The load is a float; it is kept as the text that JSON gives it.
pub record CpuInfo : Type 0 where
  pub cores : ℕ
  pub load_percent : String

pub record NpuInfo : Type 0 where
  pub available : Bool
  pub model : String

pub record NetworkInfo : Type 0 where
  pub connected : Bool
  pub interface : String
  pub signal_percent : ℕ

pub record AuditResources : Type 0 where
  pub ram : RamInfo
  pub storage : StorageInfo
  pub cpu : CpuInfo
  pub npu : NpuInfo
  pub network : NetworkInfo
