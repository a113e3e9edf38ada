-- ===== src/Scheduler/Topology/Path.antt =====
-- src/scheduler/src/topology.rs, the path of a device node in `enumerate`.
use text.Mathlib.TextLemmas.{append_cancel_left}
use spanker.Common.{ℕ, ◌≡◌, decimal, decimal_injective}
use spanker.Scheduler.Topology.{device_path}

-- The walk opens each device node at most once: two rounds never look at the same path.
pub device_path_injective : (i j : ℕ) → device_path i ≡ device_path j → i ≡ j
unfolding device_path
device_path_injective i j e =
    decimal_injective i j (append_cancel_left "/dev/spanker" (decimal i) (decimal j) e)
