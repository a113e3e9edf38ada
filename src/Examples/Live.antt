-- ===== src/Examples/Live.antt =====
-- The device walk of src/scheduler/src/topology.rs on hosts that change with every call.
use text.Mathlib.Text.{◌==◌ as str_eq}
use spanker.Common.{◌≡◌, refl, true, some, [], ◌∷◌, length, if◌then◌else◌, ok, err}
use spanker.Runtime.Control.{Host, open_failed}
use spanker.Scheduler.Failure.{runtime}
use spanker.Scheduler.Topology
use spanker.Scheduler.Topology.{device_path, max_devices}
use spanker.Scheduler.Topology.Live.{looked, opened, closed, LiveHost, walk, drop_all, enumerate}
use spanker.Scheduler.Topology.Live.Descriptors.{held, owned, held-enumerate}
use spanker.Scheduler.Topology.Live.Steady.{steady, enumerate-steady}
use spanker.Scheduler.Topology.Live.Counts.{Counted, enumerate-Counted}

-- Each `open` gets the next number, and the third device node refuses to open.
abbrev third_refused : LiveHost
third_refused = record {
  exists = λ calls p. true;
  open_rw = λ calls p. if str_eq p "/dev/spanker2" then err 13 else ok (length calls);
}

-- The two descriptors that were opened are closed again.
closed_again : enumerate third_refused [] ≡ (
  err (runtime (open_failed "/dev/spanker2" 13)),
  closed 3
      ∷ closed 1
      ∷ opened "/dev/spanker2" (err 13)
      ∷ looked "/dev/spanker2" true
      ∷ opened "/dev/spanker1" (ok 3)
      ∷ looked "/dev/spanker1" true
      ∷ opened "/dev/spanker0" (ok 1)
      ∷ looked "/dev/spanker0" true
      ∷ [],
)
unfolding enumerate walk drop_all device_path
closed_again = refl

held-enumerate_example :
    held (enumerate third_refused []).1 ≡ some (owned (enumerate third_refused []).0)
unfolding held
held-enumerate_example = held-enumerate third_refused [] refl

enumerate-Counted_example : Counted [] (enumerate third_refused [])
enumerate-Counted_example = enumerate-Counted third_refused []

-- Three looks, three opens and two closes.
eight_calls : length (enumerate third_refused []).1 ≡ 8
unfolding enumerate walk drop_all device_path
eight_calls = refl

-- A host with two device nodes.
abbrev two_devices : Host
two_devices = record {
  exists = λ p. if str_eq p "/dev/spanker0" then true else str_eq p "/dev/spanker1";
  open_rw = λ p. ok 7;
  ioctl_none = λ magic nr fd. err 25;
  ioctl_read = λ magic nr fd raw. (err 25, raw);
}

steady_agrees : (enumerate (steady two_devices) []).0 ≡ Topology.enumerate two_devices
steady_agrees = enumerate-steady two_devices []
