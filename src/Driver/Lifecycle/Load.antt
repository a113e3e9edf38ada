-- ===== src/Driver/Lifecycle/Load.antt =====
-- src/driver/spanker_main.c, `spanker_init` and `spanker_exit`: loading holds everything or nothing, and
-- unloading gives everything back.
use spanker.Common.{
  zero, suc, eq_true, false, ℕ, ◌≡◌, ◌≢◌, refl, inl, inr, Bool-cases, [], some, ok, err, ℤ, pos,
  negsuc, is_negative, is_zero, arith,
}
use spanker.Driver.Lifecycle.{
  Pointer, ptr_err, Call, Kernel, Module, call, spanker_driver_name, spanker_ctl_dev_name,
  register_driver, after_device, create_device, after_class, create_class, add_cdev, spanker_init,
  spanker_exit, unload, load_cycles, unloaded,
}
use spanker.Driver.Lifecycle.Balance.{
  effect, held, loaded_resources, with_region, with_cdev, with_class, with_device, Settled,
  unregister_region-Settled, del_cdev-Settled, destroy_class-Settled, destroy_device-Settled,
}

module _ (k : Kernel) where
  register_driver-Settled :
      (s : Module) (c : ℕ)
      → s.ctl_class ≡ ok c
      → held s.calls ≡ some (with_device s c)
      → Settled (register_driver k s)
  unfolding register_driver held effect
  register_driver-Settled s c pc h = elim (Bool-cases (is_zero (k.pci_result s.calls))) [
    | inl fine ↦ rw fine (inl (refl, c, pc, rw (h, fine) refl))
    | inr failed ↦ rw failed (
        destroy_device-Settled (k.pci_result s.calls)
          (call s (Call.pci_register_driver spanker_driver_name (k.pci_result s.calls))) c
          (ground arith) pc (rw (h, failed) refl))
  ]

  after_device-Settled :
      (t : Module) (c : ℕ) (p : Pointer)
      → t.ctl_class ≡ ok c
      → ((e : ℕ) → p ≡ err e → held t.calls ≡ some (with_class t c))
      → ((d : ℕ) → p ≡ ok d → held t.calls ≡ some (with_device t c))
      → Settled (after_device k t p)
  unfolding after_device
  after_device-Settled t c (err e) pc none_made made =
      destroy_class-Settled (ptr_err e) t c (ground arith) pc (none_made e refl)
  after_device-Settled t c (ok d) pc none_made made = register_driver-Settled t c pc (made d refl)

  create_device-Settled :
      (s : Module) (c : ℕ)
      → s.ctl_class ≡ ok c
      → held s.calls ≡ some (with_class s c)
      → Settled (create_device k s)
  unfolding create_device held effect
  create_device-Settled s c pc h =
      after_device-Settled _ c (k.device_result s.calls) pc (λ e failed. rw (h, pc, failed) refl)
        (λ d fine. rw (h, pc, fine) refl)

  after_class-Settled :
      (t : Module) (p : Pointer)
      → t.ctl_class ≡ p
      → ((e : ℕ) → p ≡ err e → held t.calls ≡ some (with_cdev t))
      → ((c : ℕ) → p ≡ ok c → held t.calls ≡ some (with_class t c))
      → Settled (after_class k t p)
  unfolding after_class
  after_class-Settled t (err e) pc none_made made =
      del_cdev-Settled (ptr_err e) t (ground arith) (none_made e refl)
  after_class-Settled t (ok c) pc none_made made = create_device-Settled t c pc (made c refl)

  create_class-Settled :
      (s : Module) → held s.calls ≡ some (with_cdev s) → Settled (create_class k s)
  unfolding create_class held effect
  create_class-Settled s h =
      after_class-Settled _ (k.class_result s.calls) refl (λ e failed. rw (h, failed) refl)
        (λ c fine. rw (h, fine) refl)

  add_cdev-Settled : (s : Module) → held s.calls ≡ some (with_region s) → Settled (add_cdev k s)
  unfolding add_cdev held effect
  add_cdev-Settled s h =
      let t = call s Call.cdev_init in
      let e = k.cdev_add_result t.calls in
      let u = call t (Call.cdev_add t.ctl_dev_num e) in
      elim (Bool-cases (is_negative e)) [
        | inl failed ↦
            rw failed (unregister_region-Settled e u (ground arith) (rw (h, failed) refl))
        | inr fine ↦ rw fine (create_class-Settled u (rw (h, fine) refl))
      ]

  -- Loading while nothing is held ends with result 0 and everything held, or with the error of the
  -- call that failed and nothing held; no resource is given back twice or out of order.
  pub spanker_init-Settled : (s : Module) → held s.calls ≡ some [] → Settled (spanker_init k s)
  unfolding spanker_init held effect
  spanker_init-Settled s h =
      let (e, dev) = k.alloc_result s.calls in
      let t = record (call s (Call.alloc_chrdev_region spanker_ctl_dev_name e dev)) {
        ctl_dev_num = dev;
      } in
      elim (Bool-cases (is_negative e)) [
        | inl failed ↦ rw failed (inr (ground arith, rw (h, failed) refl))
        | inr fine ↦ rw fine (add_cdev-Settled t (rw (h, fine) refl))
      ]

-- Unloading a loaded module gives everything back.
pub spanker_exit-held :
    (s : Module) (c : ℕ)
    → s.ctl_class ≡ ok c
    → held s.calls ≡ some (loaded_resources s c)
    → held (spanker_exit s).calls ≡ some []
unfolding spanker_exit held effect
spanker_exit-held s c pc h =
    rw
      (
        h,
        pc,
        eq_true c c refl,
        eq_true s.ctl_dev_num s.ctl_dev_num refl,
        eq_true c c refl,
        eq_true s.ctl_dev_num s.ctl_dev_num refl,
      )
      refl

is_zero_ne : (e : ℤ) → e ≢ pos 0 → is_zero e ≡ false
is_zero_ne (pos zero) h = absurd (h refl)
is_zero_ne (pos (suc n)) h = ground arith
is_zero_ne (negsuc n) h = refl

-- However often the module is loaded and unloaded again, and wherever loading fails, in between the
-- module holds nothing: each resource it took was given back once, the newest first.
pub load_cycles-held : (k : Kernel) (n : ℕ) → held (load_cycles k n unloaded).calls ≡ some []
unfolding load_cycles held
load_cycles-held k n = from n unloaded refl
  where
    after : (r : ℤ × Module) → Settled r → held (unload r).calls ≡ some []
    after (e, t) (inl (done, c, pc, h)) = rw done (spanker_exit-held t c pc h)
    after (e, t) (inr (failed, h)) = rw (is_zero_ne e failed) h

    from : (m : ℕ) (s : Module) → held s.calls ≡ some [] → held (load_cycles k m s).calls ≡ some []
    from zero s h = h
    from (suc m) s h =
        from m (unload (spanker_init k s)) (after (spanker_init k s) (spanker_init-Settled k s h))
