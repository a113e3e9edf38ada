-- ===== src/Driver/Ioctl/Dispatch.antt =====
-- src/driver/spanker_ioctl.c: the replies to every request code.
use spanker.Common.{
  ℕ, ◌≡◌, ◌≢◌, ◌⊎◌, inl, inr, Bool, true, false, none, some, ◌==◌, Bool-cases, arith,
}
use spanker.Driver.Ioctl.{
  IoctlCodes, IsEncoding, done, enotty, efault, driver_version, spanker_ctl_ioctl, spanker_ioc_ping,
  spanker_ioc_get_version,
}

module _ (c : IoctlCodes) (writable : Bool) (cmd : ℕ) where
  -- The request code, and whether user memory is writable, against the reply and what is copied in full.
  abbrev pub DispatchOutcome : Type 0
  DispatchOutcome =
      ((cmd ≡ spanker_ioc_ping c) × (spanker_ctl_ioctl c writable cmd ≡ (done, none)))
      ⊎ ((cmd ≡ spanker_ioc_get_version c)
          × (writable ≡ true)
          × (spanker_ctl_ioctl c writable cmd ≡ (done, some driver_version)))
      ⊎ ((cmd ≡ spanker_ioc_get_version c)
          × (writable ≡ false)
          × (spanker_ctl_ioctl c writable cmd ≡ (efault, none)))
      ⊎ ((cmd ≢ spanker_ioc_ping c)
          × (cmd ≢ spanker_ioc_get_version c)
          × (spanker_ctl_ioctl c writable cmd ≡ (enotty, none)))

  -- With the documented encoding of request codes, the two codes of the header pass the test of the
  -- magic number and are kept apart: PING is answered without a copy; GET_VERSION copies the
  -- driver's version in full where user memory is writable, and is EFAULT where it is not; and every
  -- other code is ENOTTY without a copy.
  pub spanker_ctl_ioctl-cases : IsEncoding c → DispatchOutcome
  unfolding spanker_ctl_ioctl
  spanker_ctl_ioctl-cases enc =
      let p = enc.type-io 0xE3 1 (omega arith) (omega arith) in
      let v = enc.type-ior 0xE3 2 8 (omega arith) (omega arith) (omega arith) in
      let d = enc.io-ne-ior 0xE3 1 2 8 (omega arith) (omega arith) (omega arith) (omega arith) in
      elim (Bool-cases (cmd == spanker_ioc_ping c)) [
        | inl ping ↦ inl (ground arith, ground arith)
        | inr other ↦ elim (Bool-cases (cmd == spanker_ioc_get_version c)) [
          | inl get ↦ elim (Bool-cases writable) [
            | inl can ↦ inr (inl (ground arith, can, ground arith))
            | inr cannot ↦ inr (inr (inl (ground arith, cannot, ground arith)))
          ]
          | inr neither ↦ inr (inr (inr (ground arith, ground arith, ground arith)))
        ]
      ]
