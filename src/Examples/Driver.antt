-- ===== src/Examples/Driver.antt =====
-- Loads of the kernel module against kernels that refuse none or one of the calls, and the theorems
-- about loading at such kernels.
use spanker.Common.{
  ◌≡◌, refl, true, List, [], ◌∷◌, length, ◌==◌, if◌then◌else◌, some, ok, err, pos, negsuc,
}
use spanker.Driver.Lifecycle.{Kernel, Call, unloaded, spanker_init, spanker_exit, load_cycles}
use spanker.Driver.Lifecycle.Balance.{
  Resource, Settled, held, effect, region, cdev, class, device, driver,
}
use spanker.Driver.Lifecycle.Load.{spanker_init-Settled, load_cycles-held}
use spanker.Runtime.Control.{Host, control_device_path}
use spanker.Scheduler.Failure.{no_sails}
use spanker.Scheduler.Topology.{enumerate}
use spanker.Scheduler.Topology.Skeleton.{is_among, enumerate-loaded}

-- Every call succeeds: device number 7340032, class 1 and device 2.
abbrev willing : Kernel
willing = record {
  alloc_result = λ calls. (pos 0, 7340032);
  cdev_add_result = λ calls. pos 0;
  class_result = λ calls. ok 1;
  device_result = λ calls. ok 2;
  pci_result = λ calls. pos 0;
}

-- `device_create` fails with -ENOMEM.
abbrev no_device : Kernel
no_device = record willing { device_result = λ calls. err 11 }

-- `pci_register_driver` fails with -EBUSY once, and then succeeds.
abbrev busy_once : Kernel
busy_once = record willing { pci_result = λ calls. if length calls == 5 then negsuc 15 else pos 0 }

no_device_calls :
    (spanker_init no_device unloaded).1.calls
    ≡ Call.unregister_chrdev_region 7340032
      ∷ Call.cdev_del
      ∷ Call.class_destroy (ok 1)
      ∷ Call.device_create (ok 1) 7340032 "spankerctl" (err 11)
      ∷ Call.class_create "spankerctl" (ok 1)
      ∷ Call.cdev_add 7340032 (pos 0)
      ∷ Call.cdev_init
      ∷ Call.alloc_chrdev_region "spankerctl" (pos 0) 7340032
      ∷ []
unfolding spanker_init
no_device_calls = refl

no_device_result : (spanker_init no_device unloaded).0 ≡ negsuc 11
unfolding spanker_init
no_device_result = refl

busy_then_fine : length (load_cycles busy_once 2 unloaded).calls ≡ 21
unfolding load_cycles spanker_init spanker_exit
busy_then_fine = refl

spanker_init-Settled_example : Settled (spanker_init no_device unloaded)
unfolding held
spanker_init-Settled_example = spanker_init-Settled no_device unloaded refl

load_cycles-held_example : held (load_cycles busy_once 2 unloaded).calls ≡ some []
load_cycles-held_example = load_cycles-held busy_once 2

abbrev loaded_host : Host
loaded_host = record {
  exists = λ p. is_among p ("/dev/spankerctl" ∷ []);
  open_rw = λ p. ok 3;
  ioctl_none = λ magic nr fd. ok 0;
  ioctl_read = λ magic nr fd raw. (ok 0, raw);
}

abbrev all_held : List Resource
all_held =
    driver "spanker" ∷ device 1 7340032 "spankerctl" ∷ class 1 ∷ cdev 7340032 ∷ region 7340032 ∷ []

enumerate-loaded_example :
    (loaded_host.exists control_device_path ≡ true) × (enumerate loaded_host ≡ err no_sails)
unfolding spanker_init held effect
enumerate-loaded_example =
    enumerate-loaded willing loaded_host all_held refl refl
      (record { exists_iff = λ p begins. refl })
