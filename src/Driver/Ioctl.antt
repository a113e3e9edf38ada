-- ===== src/Driver/Ioctl.antt =====
-- src/driver/spanker_ioctl.c and src/driver/include/uapi/spanker_ioctl.h: the ioctl dispatcher.
-- The request-code macros of `<linux/ioctl.h>` are the parameter `IoctlCodes`.
pub mod Dispatch
pub mod Memory
use spanker.Common.{ℕ, ◌<◌, ◌≡◌, ◌≢◌, Bool, not, ◌==◌, if◌then◌else◌, Option, none, some}
use spanker.Runtime.Control.{SpankerVersionRaw}

-- `_IO`, `_IOR` and `_IOC_TYPE`.
pub record IoctlCodes : Type 0 where
  pub io : ℕ → ℕ → ℕ
  pub ior : ℕ → ℕ → ℕ → ℕ
  pub ioc_type : ℕ → ℕ

-- The documented encoding, for a type, a number and a size inside their bit fields: the type can be
-- read back, and the direction keeps the two kinds of code apart.
pub record IsEncoding (c : IoctlCodes) : Type 0 where
  pub type-io : (t n : ℕ) → t < 256 → n < 256 → c.ioc_type (c.io t n) ≡ t
  pub type-ior : (t n s : ℕ) → t < 256 → n < 256 → s < 16384 → c.ioc_type (c.ior t n s) ≡ t
  pub io-ne-ior : (t n m s : ℕ) → t < 256 → n < 256 → m < 256 → s < 16384 → c.io t n ≢ c.ior t m s

abbrev pub spanker_ioc_magic : ℕ
spanker_ioc_magic = 0xE3

abbrev pub spanker_abi_version_major : ℕ
spanker_abi_version_major = 0

abbrev pub spanker_abi_version_minor : ℕ
spanker_abi_version_minor = 1

abbrev pub spanker_abi_version_patch : ℕ
spanker_abi_version_patch = 0

abbrev pub sizeof_spanker_version : ℕ
sizeof_spanker_version = 8

-- What an ioctl returns: 0, -ENOTTY or -EFAULT.
pub data Reply : Type 0 where
  done : Reply
  enotty : Reply
  efault : Reply

abbrev pub driver_version : SpankerVersionRaw
driver_version = record {
  major = spanker_abi_version_major;
  minor = spanker_abi_version_minor;
  patch = spanker_abi_version_patch;
  reserved = 0;
}

module _ (c : IoctlCodes) where
  abbrev pub spanker_ioc_ping : ℕ
  spanker_ioc_ping = c.io spanker_ioc_magic 0x01

  abbrev pub spanker_ioc_get_version : ℕ
  spanker_ioc_get_version = c.ior spanker_ioc_magic 0x02 sizeof_spanker_version

  -- The reply, and what was copied to the user's buffer in full. `writable` says whether `copy_to_user`
  -- copies everything. Module Memory has the bytes of a copy that stops in the middle.
  unfoldable pub spanker_ctl_ioctl : Bool → ℕ → Reply × Option SpankerVersionRaw
  spanker_ctl_ioctl writable cmd =
      if not (c.ioc_type cmd == spanker_ioc_magic)
      then (enotty, none)
      else if cmd == spanker_ioc_ping
      then (done, none)
      else if cmd == spanker_ioc_get_version
      then if writable then (done, some driver_version) else (efault, none)
      else (enotty, none)
