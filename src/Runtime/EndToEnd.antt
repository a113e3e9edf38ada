-- ===== src/Runtime/EndToEnd.antt =====
-- The runtime of src/runtime/src/lib.rs over the dispatcher of src/driver/spanker_ioctl.c.
use spanker.Common.{ℕ, ◌≡◌, Bool, true, false, String, Option, none, some, Result, ok, err, arith}
use spanker.Driver.Ioctl.{IoctlCodes, IsEncoding, Reply, done, enotty, efault, spanker_ctl_ioctl}
use spanker.Runtime.Layout.{raw_fields, size_of}
use spanker.Runtime.Control.{
  Host, Fd, SpankerControl, SpankerVersionRaw, Errno, ioctl_failed, ping, version,
  abi_version_major, abi_version_minor, abi_version_patch,
}

-- The error numbers that the C library reports for the dispatcher's replies.
abbrev pub status : Reply → Result Errno ℕ
status done = ok 0
status enotty = err 25
status efault = err 14

abbrev pub written : SpankerVersionRaw → Option SpankerVersionRaw → SpankerVersionRaw
written raw none = raw
written raw (some v) = v

module _ (c : IoctlCodes) (writable : Bool) where
  -- A host on which the driver is loaded: each open descriptor is the control device, and the
  -- wrappers of `nix` build the request codes from the runtime's own constants and struct.
  abbrev pub loaded : (String → Bool) → (String → Result Errno Fd) → Host
  loaded exists open_rw = record {
    exists = exists;
    open_rw = open_rw;
    ioctl_none = λ magic nr fd. status (spanker_ctl_ioctl c writable (c.io magic nr)).0;
    ioctl_read = λ magic nr fd raw.
        let (reply, copied) = spanker_ctl_ioctl c writable (c.ior magic nr (size_of raw_fields)) in
        (status reply, written raw copied);
  }

module _ (c : IoctlCodes) (enc : IsEncoding c) (ctl : SpankerControl) where
  module _ (exists : String → Bool) (open_rw : String → Result Errno Fd) where
    -- Over the loaded driver, for every control handle: `ping` succeeds whether or not user memory
    -- is writable; `version` returns the ABI version that the runtime was built against where
    -- `copy_to_user` succeeds, and the `GET_VERSION` error with EFAULT where it does not.
    pub version-loaded :
        ((w : Bool) → ping (loaded c w exists open_rw) ctl ≡ ok tt)
        × (version (loaded c true exists open_rw) ctl
            ≡ ok (record {
              major = abi_version_major;
              minor = abi_version_minor;
              patch = abi_version_patch;
            }))
        × (version (loaded c false exists open_rw) ctl ≡ err (ioctl_failed "GET_VERSION" 14))
    unfolding ping version spanker_ctl_ioctl size_of
    version-loaded =
        let p = enc.type-io 0xE3 1 (omega arith) (omega arith) in
        let v = enc.type-ior 0xE3 2 8 (omega arith) (omega arith) (omega arith) in
        let d = enc.io-ne-ior 0xE3 1 2 8 (omega arith) (omega arith) (omega arith) (omega arith) in
        (λ w. ground arith, ground arith, ground arith)
