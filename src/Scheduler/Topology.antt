-- ===== src/Scheduler/Topology.antt =====
-- src/scheduler/src/topology.rs: the topology, its mock constructor and the device walk.
pub mod Mesh
pub mod Enumerate
pub mod Skeleton
pub mod Path
pub mod Live
use Prim.Native.String.{◌++◌ as str_append}
use spanker.Common.{
  decimal, ℕ, zero, suc, ◌+◌, ◌/◌, ◌%◌, not, ltb, ◌==◌, if◌then◌else◌, List, [], ◌∷◌, ◌++◌, map,
  length, range, String, Result, ok, err, map_err, ◌>>=◌,
}
use spanker.Runtime.Control.{Host, SpankerControl, open_path}
use spanker.Scheduler.Failure.{Error, no_sails, runtime}
use spanker.Scheduler.Intercard.{Link, up}
use spanker.Scheduler.Intercard

pub record MockSail : Type 0 where
  pub id : ℕ

abbrev pub new_mock_sail : ℕ → MockSail
new_mock_sail id = record { id = id }

pub record Topology {ℓ} (H : Type ℓ) : Type ℓ where
  pub sails : List H
  pub links : List Link

module _ {ℓ} {H : Type ℓ} where
  abbrev pub n_sails : Topology H → ℕ
  n_sails t = length t.sails

-- The inner loop of `with_mock`: `links` is the vector built so far.
unfoldable pub push_links : ℕ → List ℕ → List Link → List Link
push_links here [] links = links
push_links here (remote ∷ rest) links =
    push_links here rest
      (if here == remote then links else links ++ Intercard.new here remote up ∷ [])

-- The outer loop.
unfoldable pub push_rows : ℕ → List ℕ → List Link → List Link
unfolding push_links
push_rows n [] links = links
push_rows n (here ∷ rest) links = push_rows n rest (push_links here (range 0 n) links)

unfoldable pub with_mock : ℕ → Topology MockSail
unfolding push_rows
with_mock n = record { sails = map new_mock_sail (range 0 n); links = push_rows n (range 0 n) [] }

-- `format!("/dev/spanker{index}")`.
unfoldable pub device_path : ℕ → String
unfolding decimal
device_path index = str_append "/dev/spanker" (decimal index)

-- The number of device nodes that the walk looks at.
abbrev pub max_devices : ℕ
max_devices = 256

module _ (h : Host) where
  -- The loop of `enumerate`, with `left` rounds to go.
  unfoldable pub open_devices : ℕ → ℕ → List SpankerControl → Result Error (List SpankerControl)
  open_devices zero index sails = ok sails
  open_devices (suc left) index sails =
      let path = device_path index in
      if not (h.exists path) then ok sails else do
        sail ← map_err runtime (open_path h path)
        open_devices left (index + 1) (sails ++ sail ∷ [])

  unfoldable pub enumerate : Result Error (Topology SpankerControl)
  enumerate = do
    sails ← open_devices max_devices 0 []
    if length sails == 0 then err no_sails else ok (record { sails = sails; links = [] })
