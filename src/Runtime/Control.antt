-- ===== src/Runtime/Control.antt =====
-- src/runtime/src/lib.rs: ABI constants, the error type and the methods of `SpankerControl`.
-- The operating system and the `nix` ioctl wrappers are the parameter `Host`. An `io::Error` and a
-- `nix::Error` are the error number that they carry.
use spanker.Common.{ℕ, String, Bool, [], ◌∷◌, written, Result, ok, map_err, ◌>>=◌}

abbrev pub control_device_path : String
control_device_path = "/dev/spankerctl"

abbrev pub abi_version_major : ℕ
abi_version_major = 0

abbrev pub abi_version_minor : ℕ
abi_version_minor = 1

abbrev pub abi_version_patch : ℕ
abi_version_patch = 0

abbrev pub spanker_ioc_magic : ℕ
spanker_ioc_magic = 0xE3

abbrev pub ping_nr : ℕ
ping_nr = 0x01

abbrev pub get_version_nr : ℕ
get_version_nr = 0x02

-- The wire format of `SPANKER_IOC_GET_VERSION`: four `u16`.
pub record SpankerVersionRaw : Type 0 where
  pub major : ℕ
  pub minor : ℕ
  pub patch : ℕ
  pub reserved : ℕ

abbrev pub default_raw : SpankerVersionRaw
default_raw = record { major = 0; minor = 0; patch = 0; reserved = 0 }

pub record AbiVersion : Type 0 where
  pub major : ℕ
  pub minor : ℕ
  pub patch : ℕ

-- An error number, and an open file descriptor.
abbrev pub Errno : Type 0
Errno = ℕ

abbrev pub Fd : Type 0
Fd = ℕ

pub data Error : Type 0 where
  open_failed : String → Errno → Error
  ioctl_failed : String → Errno → Error

-- The texts of an `io::Error` and of a `nix::Error`, which the standard library and `nix` define.
pub record ErrnoTexts : Type 0 where
  pub io_text : Errno → String
  pub nix_text : Errno → String

-- The `Display` of the error type.
unfoldable pub display : ErrnoTexts → Error → String
display texts (open_failed path source) =
    written ("open " ∷ path ∷ ": " ∷ texts.io_text source ∷ [])
display texts (ioctl_failed op source) =
    written ("ioctl SPANKER_IOC_" ∷ op ∷ " failed: " ∷ texts.nix_text source ∷ [])

-- What the crate calls outside this repository: `Path::exists`, `OpenOptions::open` for reading and
-- writing, and the functions that `nix::ioctl_none!` and `nix::ioctl_read!` generate from the magic
-- byte and the number. A read ioctl also returns the buffer as the kernel left it.
pub record Host : Type 0 where
  pub exists : String → Bool
  pub open_rw : String → Result Errno Fd
  pub ioctl_none : ℕ → ℕ → Fd → Result Errno ℕ
  pub ioctl_read : ℕ → ℕ → Fd → SpankerVersionRaw → Result Errno ℕ × SpankerVersionRaw

pub record SpankerControl : Type 0 where
  pub file : Fd

module _ (h : Host) where
  unfoldable pub open_path : String → Result Error SpankerControl
  open_path p = do file ← map_err (open_failed p) (h.open_rw p); ok (record { file = file })

  unfoldable pub open_control : Result Error SpankerControl
  unfolding open_path
  open_control = open_path control_device_path

  unfoldable pub ping : SpankerControl → Result Error (Unit {0})
  ping c =
      map_err (ioctl_failed "PING") do status ← h.ioctl_none spanker_ioc_magic ping_nr c.file; ok tt

  unfoldable pub version : SpankerControl → Result Error AbiVersion
  version c =
      let (status, raw) = h.ioctl_read spanker_ioc_magic get_version_nr c.file default_raw in
      do
        code ← map_err (ioctl_failed "GET_VERSION") status
        ok (record { major = raw.major; minor = raw.minor; patch = raw.patch })
