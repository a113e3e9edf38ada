-- ===== src/Examples/Build.antt =====
-- The build script of src/backends/ggml/build.rs with a bindgen that lists its options.
use text.Mathlib.Text.{◌==◌ as same_text}
use spanker.Common.{
  ◌≡◌, refl, Bool, true, String, Option, none, some, List, [], ◌∷◌, if◌then◌else◌, ok, err,
}
use spanker.Ggml.Build.{
  PathBuf, workspace_root, display, Bindgen, printed, wrote, builder_for, write_bindings,
  generate_bindings, build_in, main,
}
use spanker.Ggml.Build.Outcomes.{BuildOutcome, main-BuildOutcome}

abbrev flag : String → Bool → String
flag option value = if value then option else ""

-- The newest option first; what is generated is the list of them.
abbrev listing : Bindgen
listing = record {
  Builder = List String;
  Bindings = List String;
  default = [];
  header = λ h options. h ∷ options;
  clang_arg = λ a options. a ∷ options;
  allowlist_type = λ t options. t ∷ options;
  allowlist_var = λ v options. v ∷ options;
  derive_default = λ on options. flag "Default" on ∷ options;
  derive_debug = λ on options. flag "Debug" on ∷ options;
  derive_copy = λ on options. flag "Copy" on ∷ options;
  layout_tests = λ on options. flag "layout" on ∷ options;
  generate = λ options. some options;
  write_to_file = λ bindings file. true;
}

abbrev below_root : List String → PathBuf
below_root components = record { is_absolute = true; components = components }

abbrev cargo_env : String → Option PathBuf
cargo_env name =
    if same_text name "CARGO_MANIFEST_DIR"
    then some (below_root ("spanker" ∷ "src" ∷ "backends" ∷ "ggml" ∷ []))
    else if same_text name "OUT_DIR"
    then some (below_root ("out" ∷ []))
    else none

-- A crate right below the root.
abbrev shallow_env : String → Option PathBuf
shallow_env name = some (below_root ("ggml" ∷ []))

in_workspace : main listing cargo_env ≡ (
  ok tt,
  printed "cargo:rerun-if-changed=/spanker/src/backends/ggml/wrapper.h"
      ∷ printed "cargo:rerun-if-changed=/spanker/src/driver/include/uapi/spanker_ioctl.h"
      ∷ wrote
          ("" ∷ "Copy" ∷ "Debug" ∷ "Default" ∷ "SPANKER_.*" ∷ "spanker_.*"
            ∷ "-I/spanker/src/driver/include/uapi" ∷ "/spanker/src/backends/ggml/wrapper.h" ∷ [])
          (below_root ("out" ∷ "bindings.rs" ∷ []))
      ∷ [],
)
unfolding main build_in generate_bindings write_bindings builder_for workspace_root display
in_workspace = refl

too_shallow :
    main listing shallow_env
    ≡ (err "ggml-spanker is expected to live at <workspace>/src/backends/ggml", [])
unfolding main build_in workspace_root
too_shallow = refl

main-BuildOutcome_example : BuildOutcome listing cargo_env
main-BuildOutcome_example = main-BuildOutcome listing cargo_env
