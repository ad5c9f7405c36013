-- ===== src/Audit/Sizes.antt =====
-- internal/daemon/audit.go: the size of a directory, in megabytes.
use cognitiveosd.Prelude.{ℕ, ◌+◌, ◌*◌, ◌≤◌, ◌<◌, List, arith}
use cognitiveosd.Audit.{dir_size_mb, sum}

-- The size of a directory is the least number of megabytes that holds all its files: it is enough,
-- and one megabyte less would not be.
pub dir_size_mb_bounds :
    (sizes : List ℕ)
    → (sum sizes ≤ dir_size_mb sizes * 1048576)
      × (dir_size_mb sizes * 1048576 < sum sizes + 1048576)
unfolding dir_size_mb
dir_size_mb_bounds sizes = (omega arith, omega arith)
