-- ===== src/Examples/Devices.antt =====
-- The unit tests of src/runtime/src/lib.rs, src/scheduler/src/topology.rs and src/backends/ggml/src that
-- look at the host or at constants of several crates, each as the conjunction of its assertions.
use text.Mathlib.Text.{◌==◌ as same_text, find?}
use spanker.Common.{
  ℕ, ◌≡◌, refl, inl, inr, Bool, true, false, ◌&&◌, ◌==◌, ◌%◌, ◌^◌, if◌then◌else◌, Bool-cases,
  String, Option, none, some, [], Result, ok, err,
}
use spanker.Driver.Ioctl.{
  spanker_ioc_magic, spanker_abi_version_major, spanker_abi_version_minor,
  spanker_abi_version_patch, sizeof_spanker_version,
}
use spanker.Runtime.Control
use spanker.Runtime.Control.{
  Host, Errno, ErrnoTexts, SpankerControl, open_failed, open_path, abi_version_major,
  abi_version_minor, abi_version_patch,
}
use spanker.Ggml.Layout
use spanker.Ggml.Layout.{not_implemented}
use spanker.Runtime.Layout.{raw_fields, size_of}
use spanker.Ggml.Sail
use spanker.Ggml.Sail.{SailMatmul, matmul_q4_k}
use spanker.Scheduler.Failure
use spanker.Scheduler.Failure.{no_sails}
use spanker.Scheduler.Topology.{Topology, device_path, enumerate}
use spanker.Scheduler.Topology.Enumerate.{enumerate_missing}
use spanker.Examples.Messages.{linux_texts}

abbrev bogus : String
bogus = "/tmp/spanker-runtime-test-does-not-exist"

-- `io::ErrorKind::NotFound` is the error number ENOENT.
abbrev is_not_found : Errno → Bool
is_not_found e = e == 2

abbrev missing_reported : Result Control.Error SpankerControl → Bool
missing_reported (err (open_failed path source)) = same_text path bogus && is_not_found source
missing_reported _ = false

abbrev open_path_reports_missing_device : Host → Bool
open_path_reports_missing_device h = missing_reported (open_path h bogus)

abbrev abi_constants_match_built_values : Bool
abi_constants_match_built_values =
    (abi_version_major == 0) && (abi_version_minor == 1) && (abi_version_patch == 0)

abbrev is_no_sails : Result Failure.Error (Topology SpankerControl) → Bool
is_no_sails (err no_sails) = true
is_no_sails _ = false

abbrev enumerate_reports_no_sails_when_dev_missing : Host → Bool
enumerate_reports_no_sails_when_dev_missing h =
    if h.exists "/dev/spanker0" then true else is_no_sails (enumerate h)

-- The test of the scheduler passes on every host.
no_sails_test_passes : (h : Host) → enumerate_reports_no_sails_when_dev_missing h ≡ true
unfolding device_path
no_sails_test_passes h = elim (Bool-cases (h.exists "/dev/spanker0")) [
  | inl found ↦ rw found refl
  | inr missing ↦ rw (missing, enumerate_missing h missing) refl
]

abbrev is_not_implemented : Result Layout.Error (Unit {0}) → Bool
is_not_implemented (err not_implemented) = true
is_not_implemented _ = false

abbrev stub_refuses : Result Control.Error SpankerControl → Bool
stub_refuses (ok ctl) = is_not_implemented (matmul_q4_k (Sail.new ctl) [] [] [] 0 0 0)
stub_refuses (err e) = false

-- On the host after the temporary file was created, at its path.
abbrev matmul_q4_k_returns_not_implemented : Host → String → Bool
matmul_q4_k_returns_not_implemented h tmp_path = stub_refuses (open_path h tmp_path)

abbrev is_found : Option ℕ → Bool
is_found (some place) = true
is_found none = false

abbrev not_implemented_display_names_blocker_ioctl : ErrnoTexts → Bool
not_implemented_display_names_blocker_ioctl texts =
    is_found (find? (Layout.display texts not_implemented) "SPANKER_IOC_WORK_SUBMIT")

-- The names that the test reads from the generated module `ffi`.
record Ffi : Type 0 where
  spanker_version_size : ℕ
  magic : ℕ
  major : ℕ
  minor : ℕ
  patch : ℕ

abbrev raw_version_struct_is_eight_bytes : Bool
raw_version_struct_is_eight_bytes = size_of raw_fields == 8

abbrev bindgen_uapi_constants_match_runtime_mirror : Ffi → Bool
bindgen_uapi_constants_match_runtime_mirror ffi =
    (ffi.spanker_version_size == 8)
    && (ffi.magic == 0xE3)
    && (ffi.major % 2 ^ 16 == abi_version_major)
    && (ffi.minor % 2 ^ 16 == abi_version_minor)
    && (ffi.patch % 2 ^ 16 == abi_version_patch)

-- The header's values.
abbrev header : Ffi
header = record {
  spanker_version_size = sizeof_spanker_version;
  magic = spanker_ioc_magic;
  major = spanker_abi_version_major;
  minor = spanker_abi_version_minor;
  patch = spanker_abi_version_patch;
}

-- A host on which every file opens but the one that does not exist.
abbrev host : Host
host = record {
  exists = λ p. false;
  open_rw = λ p. if same_text p bogus then err 2 else ok 3;
  ioctl_none = λ magic nr fd. err 25;
  ioctl_read = λ magic nr fd raw. (err 25, raw);
}

device_tests_pass :
    (open_path_reports_missing_device host
      && abi_constants_match_built_values
      && matmul_q4_k_returns_not_implemented host "/tmp/spanker-sail-stub-1-91.tmp"
      && not_implemented_display_names_blocker_ioctl linux_texts
      && bindgen_uapi_constants_match_runtime_mirror header
      && raw_version_struct_is_eight_bytes)
    ≡ true
unfolding open_path matmul_q4_k Layout.display size_of
device_tests_pass = refl
