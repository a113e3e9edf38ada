-- ===== src/Scheduler/Bandwidth.antt =====
-- src/scheduler/src/bandwidth.rs: bandwidth ceilings of the rev-A topology, in bytes per second.
use spanker.Common.{ℕ}

abbrev pub local_ddr_bw_bytes_per_sec : ℕ
local_ddr_bw_bytes_per_sec = 2_000_000_000

abbrev pub intercard_bw_bytes_per_sec : ℕ
intercard_bw_bytes_per_sec = 500_000_000

abbrev pub host_link_bw_bytes_per_sec : ℕ
host_link_bw_bytes_per_sec = 100_000_000
