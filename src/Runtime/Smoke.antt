-- ===== src/Runtime/Smoke.antt =====
-- src/runtime/tests/version_smoke.rs: the test of a runtime against a loaded driver.
use spanker.Common.{
  ◌≡◌, refl, inl, inr, Bool, true, false, not, ◌&&◌, ◌==◌, if◌then◌else◌, Bool-cases, String,
  Result, ok, err,
}
use spanker.Driver.Ioctl.{IoctlCodes, IsEncoding}
use spanker.Runtime.Control.{
  Host, Fd, Errno, Error, SpankerControl, AbiVersion, control_device_path, abi_version_major,
  abi_version_minor, open_control, version, ping,
}
use spanker.Runtime.EndToEnd.{loaded, version-loaded}

-- The assertions on what `version` returned, and the `expect` on `ping`.
abbrev expected_version : Result Error AbiVersion → Bool
expected_version (ok v) = (v.major == abi_version_major) && (v.minor == abi_version_minor)
expected_version (err e) = false

abbrev expected_pong : Result Error (Unit {0}) → Bool
expected_pong (ok u) = true
expected_pong (err e) = false

abbrev after_open : Host → Result Error SpankerControl → Bool
after_open h (ok c) = expected_version (version h c) && expected_pong (ping h c)
after_open h (err e) = true

-- The test passes or is skipped, or one of its assertions fails.
unfoldable pub version_matches_built_constants_when_device_present : Host → Bool
version_matches_built_constants_when_device_present h =
    if not (h.exists control_device_path) then true else after_open h (open_control h)

module _ (c : IoctlCodes) (enc : IsEncoding c) (exists : String → Bool)
    (open_rw : String → Result Errno Fd) where
  after_open-loaded :
      (opened : Result Error SpankerControl)
      → after_open (loaded c true exists open_rw) opened ≡ true
  after_open-loaded (err e) = refl
  after_open-loaded (ok ctl) =
      let (pong, answer, fault) = version-loaded c enc ctl exists open_rw in
      rw (answer, pong true) refl

  -- Over the loaded driver, with the documented encoding of request codes and with user memory that
  -- can be written, the test never fails, whether or not the control device exists and opens.
  pub smoke_test_passes :
      version_matches_built_constants_when_device_present (loaded c true exists open_rw) ≡ true
  unfolding version_matches_built_constants_when_device_present
  smoke_test_passes = elim (Bool-cases (exists control_device_path)) [
    | inl present ↦ rw present (after_open-loaded (open_control (loaded c true exists open_rw)))
    | inr missing ↦ rw missing refl
  ]
