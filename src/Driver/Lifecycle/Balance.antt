-- ===== src/Driver/Lifecycle/Balance.antt =====
-- src/driver/spanker_main.c, `spanker_init` and `spanker_exit`: which kernel resources are held after
-- the calls that were made. A resource may only be given back while it is the newest one held.
use Prim.Native.String.{String}
use text.Mathlib.Text.{◌==◌ as eq_string}
use mathlib.Core.Option
use spanker.Common.{
  ℕ, ◌≡◌, ◌≢◌, refl, ◌⊎◌, inr, ◌&&◌, ◌==◌, if◌then◌else◌, List, [], ◌∷◌, Option, none, some, ok,
  err, ℤ, pos, is_negative, is_zero, eq_true,
}
use spanker.Driver.Lifecycle.{
  Call, call, Module, spanker_driver_name, spanker_ctl_dev_name, unregister_region, del_cdev,
  destroy_class, destroy_device,
}

pub data Resource : Type 0 where
  region : ℕ → Resource
  cdev : ℕ → Resource
  class : ℕ → Resource
  -- class, device number, name
  device : ℕ → ℕ → String → Resource
  driver : String → Resource

abbrev take_unless : Resource → List Resource → ℤ → Option (List Resource)
take_unless r rs e = if is_negative e then some rs else some (r ∷ rs)

-- The documented effect of each call: an acquisition counts unless it failed, and a release of
-- anything but the newest resource is a fault.
unfoldable pub effect : Call → List Resource → Option (List Resource)
effect (Call.alloc_chrdev_region name e dev) rs = take_unless (region dev) rs e
effect Call.cdev_init rs = some rs
effect (Call.cdev_add dev e) rs = take_unless (cdev dev) rs e
effect (Call.class_create name (ok c)) rs = some (class c ∷ rs)
effect (Call.class_create name (err e)) rs = some rs
effect (Call.device_create (ok c) dev name (ok d)) rs = some (device c dev name ∷ rs)
effect (Call.device_create (ok c) dev name (err e)) rs = some rs
effect (Call.device_create (err c) dev name p) rs = none
effect (Call.pci_register_driver name e) rs = if is_zero e then some (driver name ∷ rs) else some rs
effect (Call.pci_unregister_driver name) (driver held ∷ rs) =
    if eq_string name held then some rs else none
effect (Call.device_destroy (ok c) dev) (device held_class held_dev name ∷ rs) =
    if (c == held_class) && (dev == held_dev) then some rs else none
effect (Call.class_destroy (ok c)) (class held ∷ rs) = if c == held then some rs else none
effect Call.cdev_del (cdev dev ∷ rs) = some rs
effect (Call.unregister_chrdev_region dev) (region held ∷ rs) =
    if dev == held then some rs else none
effect _ rs = none

-- What is held after calls, the last one first; none where one of them was a fault.
unfoldable pub held : List Call → Option (List Resource)
unfolding Option.bind
held [] = some []
held (c ∷ calls) = Option.bind (held calls) (effect c)

-- What a loaded module holds, the newest first.
abbrev pub loaded_resources : Module → ℕ → List Resource
loaded_resources s c =
    driver spanker_driver_name
    ∷ device c s.ctl_dev_num spanker_ctl_dev_name
    ∷ class c
    ∷ cdev s.ctl_dev_num
    ∷ region s.ctl_dev_num
    ∷ []

-- How loading ends: with result 0 and everything held, or with another result and nothing held.
abbrev pub Settled : ℤ × Module → Type 0
Settled (e, s) =
    ((e ≡ pos 0) × (c : ℕ) × (s.ctl_class ≡ ok c) × (held s.calls ≡ some (loaded_resources s c)))
    ⊎ ((e ≢ pos 0) × (held s.calls ≡ some []))

abbrev pub with_region : Module → List Resource
with_region s = region s.ctl_dev_num ∷ []

abbrev pub with_cdev : Module → List Resource
with_cdev s = cdev s.ctl_dev_num ∷ with_region s

abbrev pub with_class : Module → ℕ → List Resource
with_class s c = class c ∷ with_cdev s

abbrev pub with_device : Module → ℕ → List Resource
with_device s c = device c s.ctl_dev_num spanker_ctl_dev_name ∷ with_class s c

-- The labels give back what is held, in order.
pub unregister_region-Settled :
    (e : ℤ) (s : Module)
    → e ≢ pos 0
    → held s.calls ≡ some (with_region s)
    → Settled (unregister_region e s)
unfolding unregister_region held effect
unregister_region-Settled e s failed h =
    inr (failed, rw (h, eq_true s.ctl_dev_num s.ctl_dev_num refl) refl)

pub del_cdev-Settled :
    (e : ℤ) (s : Module) → e ≢ pos 0 → held s.calls ≡ some (with_cdev s) → Settled (del_cdev e s)
unfolding del_cdev held effect
del_cdev-Settled e s failed h =
    unregister_region-Settled e (call s Call.cdev_del) failed (rw h refl)

pub destroy_class-Settled :
    (e : ℤ) (s : Module) (c : ℕ)
    → e ≢ pos 0
    → s.ctl_class ≡ ok c
    → held s.calls ≡ some (with_class s c)
    → Settled (destroy_class e s)
unfolding destroy_class held effect
destroy_class-Settled e s c failed pc h =
    del_cdev-Settled e (call s (Call.class_destroy s.ctl_class)) failed
      (rw (h, pc, eq_true c c refl) refl)

pub destroy_device-Settled :
    (e : ℤ) (s : Module) (c : ℕ)
    → e ≢ pos 0
    → s.ctl_class ≡ ok c
    → held s.calls ≡ some (with_device s c)
    → Settled (destroy_device e s)
unfolding destroy_device held effect
destroy_device-Settled e s c failed pc h =
    destroy_class-Settled e (call s (Call.device_destroy s.ctl_class s.ctl_dev_num)) c failed pc
      (rw (h, pc, eq_true c c refl, eq_true s.ctl_dev_num s.ctl_dev_num refl) refl)
