-- ===== src/Ggml/Build.antt =====
-- src/backends/ggml/build.rs: the build script that generates the bindings of the driver's header.
-- The environment, the bindgen library and the writing of a file are parameters; a variable that is
-- not set or is not Unicode is `none`. A `PathBuf` is its components, below the root or not.
pub mod Outcomes
use mathlib.Core.Option
use spanker.Common.{
  String, Bool, true, false, Option, none, some, List, [], ◌∷◌, ◌++◌, if◌then◌else◌, written,
  Result, ok, err,
}

pub record PathBuf : Type 0 where
  pub is_absolute : Bool
  pub components : List String

-- All components but the last one.
abbrev pub init : String → List String → List String
init c [] = []
init c (d ∷ rest) = c ∷ init d rest

-- `Path::parent`, which the root and an empty path do not have.
abbrev pub parent_of : Bool → List String → Option PathBuf
parent_of absolute [] = none
parent_of absolute (c ∷ rest) = some (record { is_absolute = absolute; components = init c rest })

unfoldable pub parent : PathBuf → Option PathBuf
parent p = parent_of p.is_absolute p.components

-- `Path::join` with a relative path.
abbrev pub join : PathBuf → List String → PathBuf
join p more = record p { components = p.components ++ more }

-- `Path::display`, and `to_string_lossy` of a path that is valid UTF-8.
abbrev pub slashed : List String → List String
slashed [] = []
slashed (c ∷ []) = c ∷ []
slashed (c ∷ rest) = c ∷ "/" ∷ slashed rest

unfoldable pub display : PathBuf → String
display p = written (if p.is_absolute then "/" ∷ slashed p.components else slashed p.components)

-- The builder of the bindgen library, with the options that the script sets, and what it generates.
pub record Bindgen : Type 1 where
  pub Builder : Type 0
  pub Bindings : Type 0
  pub default : Builder
  pub header : String → Builder → Builder
  pub clang_arg : String → Builder → Builder
  pub allowlist_type : String → Builder → Builder
  pub allowlist_var : String → Builder → Builder
  pub derive_default : Bool → Builder → Builder
  pub derive_debug : Bool → Builder → Builder
  pub derive_copy : Bool → Builder → Builder
  pub layout_tests : Bool → Builder → Builder
  pub generate : Builder → Option Bindings
  pub write_to_file : Bindings → PathBuf → Bool

-- What the script does to the outside: a line that it prints for cargo, and a file.
pub data Action (Bindings : Type 0) : Type 0 where
  printed : String → Action Bindings
  wrote : Bindings → PathBuf → Action Bindings

abbrev pub rerun_if_changed : PathBuf → String
rerun_if_changed p = written ("cargo:rerun-if-changed=" ∷ display p ∷ [])

-- Three levels up.
unfoldable pub workspace_root : PathBuf → Option PathBuf
unfolding Option.bind parent
workspace_root manifest_dir = Option.bind (Option.bind (parent manifest_dir) parent) parent

abbrev pub uapi_dir_of : PathBuf → PathBuf
uapi_dir_of root = join root ("src" ∷ "driver" ∷ "include" ∷ "uapi" ∷ [])

abbrev pub wrapper_of : PathBuf → PathBuf
wrapper_of manifest_dir = join manifest_dir ("wrapper.h" ∷ [])

module _ (b : Bindgen) (env : String → Option PathBuf) where
  open b use {Builder, Bindings}

  -- An error is the message given to the `expect` that panics; the actions up to it stand beside it.
  abbrev pub BuildResult : Type 0
  BuildResult = Result String (Unit {0}) × List (Action Bindings)

  unfoldable pub builder_for : (wrapper uapi_dir : PathBuf) → Builder
  builder_for wrapper uapi_dir =
      let included =
        b.clang_arg (written ("-I" ∷ display uapi_dir ∷ []))
          (b.header (display wrapper) b.default) in
      let allowed = b.allowlist_var "SPANKER_.*" (b.allowlist_type "spanker_.*" included) in
      b.layout_tests false
        (b.derive_copy true (b.derive_debug true (b.derive_default true allowed)))

  -- From `OUT_DIR` on, from `generate` on, and so on upwards.
  unfoldable pub write_bindings : List (Action Bindings) → Bindings → Option PathBuf → BuildResult
  write_bindings log bindings none = (err "OUT_DIR", log)
  write_bindings log bindings (some out_dir) =
      let file = join out_dir ("bindings.rs" ∷ []) in
      if b.write_to_file bindings file
      then (ok tt, log ++ wrote bindings file ∷ [])
      else (err "failed to write bindings.rs", log)

  unfoldable pub generate_bindings : List (Action Bindings) → Option Bindings → BuildResult
  unfolding write_bindings
  generate_bindings log none = (err "bindgen failed to generate spanker UAPI bindings", log)
  generate_bindings log (some bindings) = write_bindings log bindings (env "OUT_DIR")

  -- The lines for cargo.
  abbrev pub reruns : (wrapper uapi_dir : PathBuf) → List (Action Bindings)
  reruns wrapper uapi_dir =
      printed (rerun_if_changed wrapper)
      ∷ printed (rerun_if_changed (join uapi_dir ("spanker_ioctl.h" ∷ [])))
      ∷ []

  unfoldable pub build_in : PathBuf → Option PathBuf → BuildResult
  unfolding generate_bindings builder_for
  build_in manifest_dir none =
      (err "ggml-spanker is expected to live at <workspace>/src/backends/ggml", [])
  build_in manifest_dir (some root) =
      let uapi_dir = uapi_dir_of root in
      let wrapper = wrapper_of manifest_dir in
      generate_bindings (reruns wrapper uapi_dir) (b.generate (builder_for wrapper uapi_dir))

  abbrev pub start_build : Option PathBuf → BuildResult
  start_build none = (err "CARGO_MANIFEST_DIR", [])
  start_build (some manifest_dir) = build_in manifest_dir (workspace_root manifest_dir)

  unfoldable pub main : BuildResult
  main = start_build (env "CARGO_MANIFEST_DIR")
