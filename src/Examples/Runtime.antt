-- ===== src/Examples/Runtime.antt =====
-- The runtime over the driver, with the request codes of `<asm-generic/ioctl.h>`.
use spanker.Common.{
  ℕ, ◌-◌, ◌≢◌, ◌⊎◌, [], ◌∷◌, ◌++◌, take, drop, length, ◌+◌, ◌*◌, ◌/◌, ◌%◌, ◌^◌, ◌≡◌, refl, Bool,
  true, false, String, Result, ok, err, arith,
}
use spanker.Driver.Ioctl.{IoctlCodes, IsEncoding}
use spanker.Runtime.Control.{
  default_raw, Errno, Fd, SpankerControl, open_failed, ioctl_failed, ping, version, open_control,
  abi_version_major, abi_version_minor, abi_version_patch,
}
use spanker.Driver.Ioctl.{efault}
use spanker.Driver.Ioctl.Memory.{CopyToUser, IsCopy, ioctl_on_memory, left_out}
use spanker.Runtime.Layout.{
  ByteOrder, little, raw_fields, size_of, to_bytes, from_bytes, from_bytes-to_bytes,
}
use spanker.Runtime.Wire.{loaded_with_memory, version-loaded_with_memory}
use spanker.Runtime.EndToEnd.{loaded, version-loaded}
use spanker.Runtime.Smoke.{version_matches_built_constants_when_device_present, smoke_test_passes}
use spanker.Driver.Ioctl.Dispatch.{DispatchOutcome, spanker_ctl_ioctl-cases}

-- Number, type, size and direction in 8, 8, 14 and 2 bits.
abbrev generic_codes : IoctlCodes
generic_codes = record {
  io = λ t n. t * 2 ^ 8 + n;
  ior = λ t n s. 2 * 2 ^ 30 + s * 2 ^ 16 + t * 2 ^ 8 + n;
  ioc_type = λ cmd. cmd / 2 ^ 8 % 2 ^ 8;
}

generic_codes-IsEncoding : IsEncoding generic_codes
generic_codes-IsEncoding = record {
  type-io = λ t n ht hn. omega arith;
  type-ior = λ t n s ht hn hs. omega arith;
  io-ne-ior = λ t n m s ht hn hm hs. omega arith;
}

abbrev control : SpankerControl
control = record { file = 3 }

abbrev all_exist : String → Bool
all_exist p = true

abbrev all_open : String → Result Errno Fd
all_open p = ok 3

driver_answers :
    ((w : Bool) → ping (loaded generic_codes w all_exist all_open) control ≡ ok tt)
    × (version (loaded generic_codes true all_exist all_open) control
        ≡ ok (record {
          major = abi_version_major;
          minor = abi_version_minor;
          patch = abi_version_patch;
        }))
    × (version (loaded generic_codes false all_exist all_open) control
        ≡ err (ioctl_failed "GET_VERSION" 14))
driver_answers = version-loaded generic_codes generic_codes-IsEncoding control all_exist all_open

spanker_ctl_ioctl-cases_example : DispatchOutcome generic_codes true 0xE303
spanker_ctl_ioctl-cases_example =
    spanker_ctl_ioctl-cases generic_codes true 0xE303 generic_codes-IsEncoding

smoke_test_passes_example :
    version_matches_built_constants_when_device_present
      (loaded generic_codes true all_exist all_open)
    ≡ true
smoke_test_passes_example =
    smoke_test_passes generic_codes generic_codes-IsEncoding all_exist all_open

-- A host without the control device.
missing_device :
    open_control (record (loaded generic_codes true all_exist all_open) { open_rw = λ p. err 2 })
    ≡ err (open_failed "/dev/spankerctl" 2)
unfolding open_control
missing_device = refl

-- A copy that stops after `limit` bytes.
abbrev stops_after : ℕ → CopyToUser
stops_after limit = record {
  copy = λ memory source.
      let left = length source - limit in
      (left, take (length source - left) source ++ drop (length source - left) memory);
}

stops_after-IsCopy : (limit : ℕ) → IsCopy (stops_after limit)
stops_after-IsCopy limit = λ memory source. (omega arith, refl)

version-loaded_with_memory_example :
    (ping (loaded_with_memory generic_codes (stops_after 8) little all_exist all_open) control
      ≡ ok tt)
    × (((left_out generic_codes (stops_after 8) little (to_bytes raw_fields little default_raw) ≡ 0)
          × (version
                (loaded_with_memory generic_codes (stops_after 8) little all_exist all_open)
                control
              ≡ ok (record {
                major = abi_version_major;
                minor = abi_version_minor;
                patch = abi_version_patch;
              })))
        ⊎ ((left_out generic_codes (stops_after 8) little (to_bytes raw_fields little default_raw)
              ≢ 0)
            × (version
                  (loaded_with_memory generic_codes (stops_after 8) little all_exist all_open)
                  control
                ≡ err (ioctl_failed "GET_VERSION" 14))))
version-loaded_with_memory_example =
    version-loaded_with_memory generic_codes generic_codes-IsEncoding (stops_after 8)
      (stops_after-IsCopy 8) little control all_exist all_open

-- After three bytes the minor version is there, but the answer is EFAULT.
stops_in_the_middle :
    (ioctl_on_memory generic_codes
        (stops_after 3)
        little
        0x8008E302
        (to_bytes raw_fields little default_raw)
      ≡ (efault, 0 ∷ 0 ∷ 1 ∷ 0 ∷ 0 ∷ 0 ∷ 0 ∷ 0 ∷ []))
    × (version (loaded_with_memory generic_codes (stops_after 3) little all_exist all_open) control
        ≡ err (ioctl_failed "GET_VERSION" 14))
unfolding ioctl_on_memory version to_bytes size_of
stops_in_the_middle = (refl, refl)

-- Version 1.2.3 in bytes of either order, and back.
written_and_read :
    (order : ByteOrder)
    → from_bytes raw_fields order
        (to_bytes raw_fields order (record { major = 1; minor = 2; patch = 3; reserved = 0 }))
      ≡ record { major = 1; minor = 2; patch = 3; reserved = 0 }
written_and_read order = from_bytes-to_bytes order _ (record {
  major_fits = omega arith;
  minor_fits = omega arith;
  patch_fits = omega arith;
  reserved_fits = omega arith;
})
