-- ===== src/Driver/Lifecycle.antt =====
-- src/driver/spanker_main.c: loading and unloading the kernel module. The kernel's functions are the
-- parameter `Kernel`; what the module keeps is its static variables and the calls that it made.
pub mod Balance
pub mod Load
use spanker.Common.{
  ℕ, zero, suc, String, List, ◌∷◌, Result, ok, err, ℤ, pos, negsuc, is_negative, is_zero, not,
  if◌then◌else◌,
}

abbrev pub spanker_driver_name : String
spanker_driver_name = "spanker"

abbrev pub spanker_ctl_dev_name : String
spanker_ctl_dev_name = "spankerctl"

-- A kernel pointer, or the error that `ERR_PTR` hides in one: `err e` stands for -(e + 1).
abbrev pub Pointer : Type 0
Pointer = Result ℕ ℕ

-- `PTR_ERR`.
abbrev pub ptr_err : ℕ → ℤ
ptr_err e = negsuc e

-- The calls into the kernel with their arguments, and for those that acquire something the results.
pub data Call : Type 0 where
  -- name, result, the device number that was given
  alloc_chrdev_region : String → ℤ → ℕ → Call
  cdev_init : Call
  -- device number, result
  cdev_add : ℕ → ℤ → Call
  -- name, result
  class_create : String → Pointer → Call
  -- class, device number, name, result
  device_create : Pointer → ℕ → String → Pointer → Call
  -- name, result
  pci_register_driver : String → ℤ → Call
  pci_unregister_driver : String → Call
  -- class, device number
  device_destroy : Pointer → ℕ → Call
  class_destroy : Pointer → Call
  cdev_del : Call
  unregister_chrdev_region : ℕ → Call

-- What the kernel answers may depend on all calls made before, the last one first.
pub record Kernel : Type 0 where
  pub alloc_result : List Call → ℤ × ℕ
  pub cdev_add_result : List Call → ℤ
  pub class_result : List Call → Pointer
  pub device_result : List Call → Pointer
  pub pci_result : List Call → ℤ

-- The static variables, and the calls made so far, the last one first.
pub record Module : Type 0 where
  pub ctl_dev_num : ℕ
  pub ctl_class : Pointer
  pub ctl_device : Pointer
  pub calls : List Call

abbrev pub unloaded : Module
unloaded = record { ctl_dev_num = 0; ctl_class = ok 0; ctl_device = ok 0; calls = List.[] }

abbrev pub call : Module → Call → Module
call s c = record s { calls = c ∷ s.calls }

-- The labels at the end of `spanker_init`, each of which runs on into the next one.
unfoldable pub unregister_region : ℤ → Module → ℤ × Module
unregister_region e s = (e, call s (unregister_chrdev_region s.ctl_dev_num))

unfoldable pub del_cdev : ℤ → Module → ℤ × Module
unfolding unregister_region
del_cdev e s = unregister_region e (call s cdev_del)

unfoldable pub destroy_class : ℤ → Module → ℤ × Module
unfolding del_cdev
destroy_class e s = del_cdev e (call s (class_destroy s.ctl_class))

unfoldable pub destroy_device : ℤ → Module → ℤ × Module
unfolding destroy_class
destroy_device e s = destroy_class e (call s (device_destroy s.ctl_class s.ctl_dev_num))

module _ (k : Kernel) where
  -- The steps of `spanker_init`, each from one acquisition to the next.
  unfoldable pub register_driver : Module → ℤ × Module
  unfolding destroy_device
  register_driver s =
      let e = k.pci_result s.calls in
      let t = call s (pci_register_driver spanker_driver_name e) in
      if not (is_zero e) then destroy_device e t else (pos 0, t)

  -- From `device_create` on, with what it returned, and from `class_create` on.
  unfoldable pub after_device : Module → Pointer → ℤ × Module
  unfolding register_driver
  after_device t (err e) = destroy_class (ptr_err e) t
  after_device t (ok device) = register_driver t

  unfoldable pub create_device : Module → ℤ × Module
  unfolding after_device
  create_device s =
      let p = k.device_result s.calls in
      after_device
        (record (call s (device_create s.ctl_class s.ctl_dev_num spanker_ctl_dev_name p)) {
          ctl_device = p;
        })
        p

  unfoldable pub after_class : Module → Pointer → ℤ × Module
  unfolding create_device
  after_class t (err e) = del_cdev (ptr_err e) t
  after_class t (ok class) = create_device t

  unfoldable pub create_class : Module → ℤ × Module
  unfolding after_class
  create_class s =
      let p = k.class_result s.calls in
      after_class (record (call s (class_create spanker_ctl_dev_name p)) { ctl_class = p }) p

  unfoldable pub add_cdev : Module → ℤ × Module
  unfolding create_class
  add_cdev s =
      let t = call s cdev_init in
      let e = k.cdev_add_result t.calls in
      let u = call t (cdev_add t.ctl_dev_num e) in
      if is_negative e then unregister_region e u else create_class u

  unfoldable pub spanker_init : Module → ℤ × Module
  unfolding add_cdev
  spanker_init s =
      let (e, dev) = k.alloc_result s.calls in
      let t = record (call s (alloc_chrdev_region spanker_ctl_dev_name e dev)) {
        ctl_dev_num = dev;
      } in
      if is_negative e then (e, t) else add_cdev t

unfoldable pub spanker_exit : Module → Module
spanker_exit s =
    let t = call s (pci_unregister_driver spanker_driver_name) in
    let u = call t (device_destroy t.ctl_class t.ctl_dev_num) in
    let v = call u (class_destroy u.ctl_class) in
    let w = call v cdev_del in call w (unregister_chrdev_region w.ctl_dev_num)

-- `module_init` and `module_exit`: the kernel unloads a module that was loaded with result 0.
abbrev pub unload : ℤ × Module → Module
unload (e, s) = if is_zero e then spanker_exit s else s

-- The module is loaded and unloaded again, several times.
unfoldable pub load_cycles : Kernel → ℕ → Module → Module
load_cycles k zero s = s
load_cycles k (suc n) s = load_cycles k n (unload (spanker_init k s))
