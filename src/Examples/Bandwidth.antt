-- ===== src/Examples/Bandwidth.antt =====
-- The unit tests of src/scheduler/src/bandwidth.rs and intercard.rs on the constants, each as the
-- conjunction of its assertions.
use spanker.Common.{ℕ, ◌*◌, ◌≡◌, refl, Bool, true, ◌&&◌, ltb, leb, ◌==◌}
use spanker.Scheduler.Bandwidth.{
  local_ddr_bw_bytes_per_sec, intercard_bw_bytes_per_sec, host_link_bw_bytes_per_sec,
}
use spanker.Scheduler.Intercard.{intercard_lanes, intercard_lane_width, intercard_bus_width}

abbrev stale_ddr3_1600_theoretical_bytes_per_sec : ℕ
stale_ddr3_1600_theoretical_bytes_per_sec = 12_800_000_000

abbrev local_ddr_bw_is_not_the_stale_12_8_gb_per_sec_value : Bool
local_ddr_bw_is_not_the_stale_12_8_gb_per_sec_value =
    ltb local_ddr_bw_bytes_per_sec stale_ddr3_1600_theoretical_bytes_per_sec
    && ltb local_ddr_bw_bytes_per_sec 4_000_000_000

abbrev local_ddr_bw_is_inside_observed_range : Bool
local_ddr_bw_is_inside_observed_range =
    leb 1_500_000_000 local_ddr_bw_bytes_per_sec && leb local_ddr_bw_bytes_per_sec 2_400_000_000

abbrev intercard_bw_matches_innerjib7ea_pinout_section_9 : Bool
intercard_bw_matches_innerjib7ea_pinout_section_9 = intercard_bw_bytes_per_sec == 500_000_000

abbrev host_link_bw_constant_matches_recon_doc : Bool
host_link_bw_constant_matches_recon_doc = host_link_bw_bytes_per_sec == 100_000_000

abbrev local_ddr_dominates_intercard_by_at_least_4x : Bool
local_ddr_dominates_intercard_by_at_least_4x =
    leb (4 * intercard_bw_bytes_per_sec) local_ddr_bw_bytes_per_sec

abbrev host_link_bw_is_slowest_hop : Bool
host_link_bw_is_slowest_hop =
    ltb host_link_bw_bytes_per_sec intercard_bw_bytes_per_sec
    && ltb intercard_bw_bytes_per_sec local_ddr_bw_bytes_per_sec

abbrev host_link_bw_is_inside_observed_range : Bool
host_link_bw_is_inside_observed_range =
    leb 80_000_000 host_link_bw_bytes_per_sec && leb host_link_bw_bytes_per_sec 125_000_000

abbrev constants_are_positive : Bool
constants_are_positive =
    ltb 0 local_ddr_bw_bytes_per_sec
    && ltb 0 intercard_bw_bytes_per_sec
    && ltb 0 host_link_bw_bytes_per_sec

abbrev intercard_constants_match_mast_14 : Bool
intercard_constants_match_mast_14 = intercard_lanes * intercard_lane_width == intercard_bus_width

all_pass :
    (local_ddr_bw_is_not_the_stale_12_8_gb_per_sec_value && local_ddr_bw_is_inside_observed_range
      && intercard_bw_matches_innerjib7ea_pinout_section_9
      && host_link_bw_constant_matches_recon_doc && local_ddr_dominates_intercard_by_at_least_4x
      && host_link_bw_is_slowest_hop && host_link_bw_is_inside_observed_range
      && constants_are_positive && intercard_constants_match_mast_14)
    ≡ true
all_pass = refl
