-- ===== src/Runtime/Wire.antt =====
-- The runtime of src/runtime/src/lib.rs over the dispatcher of src/driver/spanker_ioctl.c, with the bytes
-- that cross the boundary of the kernel.
use spanker.Common.{
  Bool, refl, ◌≡◌, ◌≢◌, ◌⊎◌, inl, inr, ◌==◌, Bool-cases, String, [], Result, ok, err, arith, take,
  drop, length, ◌++◌, ◌-◌,
}
use spanker.Driver.Ioctl.{IoctlCodes, IsEncoding, driver_version}
use spanker.Driver.Ioctl.Memory.{
  spanker_version_fields, CopyToUser, IsCopy, ioctl_on_memory, left_out, ioctl_on_memory-ping,
  ioctl_on_memory-get_version,
}
use spanker.Runtime.Layout.{ByteOrder, little, big, raw_fields, size_of, to_bytes, from_bytes}
use spanker.Runtime.Control.{
  Host, Fd, SpankerControl, Errno, ioctl_failed, ping, version, default_raw, abi_version_major,
  abi_version_minor, abi_version_patch,
}
use spanker.Runtime.EndToEnd.{status}

module _ (c : IoctlCodes) (k : CopyToUser) (order : ByteOrder) where
  -- A host on which the driver is loaded. A read ioctl passes the bytes of the runtime's struct.
  abbrev pub loaded_with_memory : (String → Bool) → (String → Result Errno Fd) → Host
  loaded_with_memory exists open_rw = record {
    exists = exists;
    open_rw = open_rw;
    ioctl_none = λ magic nr fd. status (ioctl_on_memory c k order (c.io magic nr) []).0;
    ioctl_read = λ magic nr fd raw.
        let (reply, after) =
          ioctl_on_memory c k order (c.ior magic nr (size_of raw_fields))
            (to_bytes raw_fields order raw) in
        (status reply, from_bytes raw_fields order after);
  }

-- A copy that leaves nothing out replaces the whole struct.
whole_copy :
    (order : ByteOrder)
    → from_bytes raw_fields order (
        take
          (length (to_bytes spanker_version_fields order driver_version) - 0)
          (to_bytes spanker_version_fields order driver_version)
        ++ drop
            (length (to_bytes spanker_version_fields order driver_version) - 0)
            (to_bytes raw_fields order default_raw))
      ≡ driver_version
unfolding to_bytes from_bytes
whole_copy little = refl
whole_copy big = refl

module _ (c : IoctlCodes) (enc : IsEncoding c) (k : CopyToUser) (law : IsCopy k) (order : ByteOrder)
    (ctl : SpankerControl) (exists : String → Bool) (open_rw : String → Result Errno Fd) where
  copied_all :
      left_out c k order (to_bytes raw_fields order default_raw) ≡ 0
      → from_bytes raw_fields order
          (k.copy
            (to_bytes raw_fields order default_raw)
            (to_bytes spanker_version_fields order driver_version)).1
        ≡ driver_version
  copied_all e =
      let (le, after) =
        law (to_bytes raw_fields order default_raw)
          (to_bytes spanker_version_fields order driver_version) in
      rw (after, e) (whole_copy order)

  -- Over the loaded driver, with any `copy_to_user` that keeps what the kernel documents and in either byte
  -- order: `ping` succeeds. Where the copy leaves nothing out, the bytes that the driver writes are
  -- read as the ABI version that the runtime was built against; where it stops in the middle,
  -- `version` returns the `GET_VERSION` error with EFAULT, whatever the struct holds by then.
  pub version-loaded_with_memory :
      (ping (loaded_with_memory c k order exists open_rw) ctl ≡ ok tt)
      × (((left_out c k order (to_bytes raw_fields order default_raw) ≡ 0)
            × (version (loaded_with_memory c k order exists open_rw) ctl
                ≡ ok (record {
                  major = abi_version_major;
                  minor = abi_version_minor;
                  patch = abi_version_patch;
                })))
          ⊎ ((left_out c k order (to_bytes raw_fields order default_raw) ≢ 0)
              × (version (loaded_with_memory c k order exists open_rw) ctl
                  ≡ err (ioctl_failed "GET_VERSION" 14))))
  unfolding ping version size_of
  version-loaded_with_memory =
      let memory = to_bytes raw_fields order default_raw in
      let pong = ioctl_on_memory-ping c k order enc [] in
      let got = ioctl_on_memory-get_version c k order enc memory in
      (
        rw pong refl,
        elim (Bool-cases (left_out c k order memory == 0)) [
          | inl all ↦
              let none : left_out c k order memory ≡ 0 = ground arith in
              inl (none, rw (got, all, copied_all none) refl)
          | inr left ↦ inr (ground arith, rw (got, left) refl)
        ],
      )
