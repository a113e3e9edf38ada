-- ===== src/Examples/Topology.antt =====
-- Runs of src/scheduler/src/topology.rs, and the theorems about it at concrete inputs.
use text.Mathlib.Text.{◌==◌ as str_eq}
use spanker.Common.{
  ◌+◌, ◌-◌, ◌*◌, ◌≤◌, ◌<◌, ◌≡◌, refl, true, ◌||◌, some, [], ◌∷◌, length, replicate, get_elem?, All,
  ok, err, arith,
}
use spanker.Runtime.Control.{Host, SpankerControl, open_path}
use spanker.Scheduler.Intercard
use spanker.Scheduler.Intercard.{up}
use spanker.Scheduler.Topology.{
  Topology, n_sails, with_mock, device_path, max_devices, open_devices, enumerate,
}
use spanker.Scheduler.Topology.Mesh.{
  IsMeshLink, with_mock-size, get_elem?-with_mock, with_mock-IsMeshLink,
}
use spanker.Scheduler.Topology.Path.{device_path_injective}
use spanker.Scheduler.Topology.Enumerate.{EnumerateOutcome, enumerate-cases, n_sails-enumerate}

mesh_of_three :
    (with_mock 3).links
    ≡ Intercard.new 0 1 up
      ∷ Intercard.new 0 2 up
      ∷ Intercard.new 1 0 up
      ∷ Intercard.new 1 2 up
      ∷ Intercard.new 2 0 up
      ∷ Intercard.new 2 1 up
      ∷ []
unfolding with_mock
mesh_of_three = refl

mock_of_four : (n_sails (with_mock 4) ≡ 4) × (length (with_mock 4).links ≡ 4 * (4 - 1))
mock_of_four = with_mock-size 4

get_elem?-with_mock_example :
    get_elem? (with_mock 4).links (1 * (4 - 1) + 2) ≡ some (Intercard.new 1 3 up)
get_elem?-with_mock_example = get_elem?-with_mock 4 1 3 (omega arith) (omega arith) (omega arith)

mesh_of_four : All (IsMeshLink 4) (with_mock 4).links
mesh_of_four = with_mock-IsMeshLink 4

paths : (device_path 0 ≡ "/dev/spanker0") × (device_path 255 ≡ "/dev/spanker255")
unfolding device_path
paths = (refl, refl)

-- A host with two device nodes.
abbrev two_devices : Host
two_devices = record {
  exists = λ p. str_eq p "/dev/spanker0" || str_eq p "/dev/spanker1";
  open_rw = λ p. ok 7;
  ioctl_none = λ magic nr fd. err 25;
  ioctl_read = λ magic nr fd raw. (err 25, raw);
}

-- A host on which every path exists, `/dev/spanker256` among them.
abbrev many_devices : Host
many_devices = record {
  exists = λ p. true;
  open_rw = λ p. ok 7;
  ioctl_none = λ magic nr fd. err 25;
  ioctl_read = λ magic nr fd raw. (err 25, raw);
}

abbrev control : SpankerControl
control = record { file = 7 }

two_sails : enumerate two_devices ≡ ok (record { sails = control ∷ control ∷ []; links = [] })
unfolding enumerate open_devices device_path open_path
two_sails = refl

enumerate-cases_example : EnumerateOutcome two_devices
enumerate-cases_example = enumerate-cases two_devices

abbrev many_topology : Topology SpankerControl
many_topology = record { sails = replicate 256 control; links = [] }

-- The walk stops at 256 sails although `/dev/spanker256` exists.
capped : enumerate many_devices ≡ ok many_topology
unfolding enumerate open_devices device_path open_path
capped = refl

capped_bounds :
    (0 < n_sails many_topology) × (n_sails many_topology ≤ max_devices) × (many_topology.links ≡ [])
capped_bounds = n_sails-enumerate many_devices many_topology capped

-- The path of sail 10, however its number was computed.
same_path_same_round : 10 ≡ 2 * 5
same_path_same_round = device_path_injective 10 (2 * 5) refl
